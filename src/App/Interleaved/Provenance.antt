-- ===== src/App/Interleaved/Provenance.antt =====
-- Where the credentials come from when packets come in between any two statements of the loop that
-- waits for them (src/main/main.cpp).
pub mod Flags
use hydroponic_closet.Prelude.{
  ℕ, ◌≡◌, ◌≢◌, refl, sym, ap, ◌⊎◌, inl, inr, arith, true, false, List, [], ◌∷◌, ◌++◌, Option, none,
  some, if_both, on_some, at_option,
}
use hydroponic_closet.Bt.State.{Packet, Session, done}
use hydroponic_closet.Bt.Handler.{host_rcv_pkt, serve}
use hydroponic_closet.Bt.Framing.Serve.{serve-onward}
use hydroponic_closet.Closet.Credentials.{c_string, same_string, Credentials, wifi_config}
use hydroponic_closet.App.Interleaved.{
  Pc, at_name, at_text, at_success, at_content, at_fi, at_delay, left, Loop, entered, advance, Step,
  statement, packet, Runs, stay, onward,
}
use hydroponic_closet.App.Interleaved.Provenance.Flags.{to_text, new_read, Runs-Sound}

-- The run `q` is a first part of the run `r`.
module _ {scan : List ℕ → Option Credentials} {start m : Loop} (q : Runs scan start m) where
  pub data IsPart : (l : Loop) → Runs scan start l → Type 0 where
    whole : IsPart m q
    further :
        {l n : Loop} {r : Runs scan start l} (t : Step scan l n)
        → IsPart l r
        → IsPart n (onward r t)

-- The run `r` goes on from `q` with nothing but these packets.
module _ {scan : List ℕ → Option Credentials} {start m : Loop} (q : Runs scan start m) where
  pub data ArePackets : (l : Loop) → Runs scan start l → List (Packet × ℕ) → Type 0 where
    no_packet : ArePackets m q []
    one_more :
        {l : Loop} {r : Runs scan start l} {ps : List (Packet × ℕ)} (p : Packet) (len : ℕ)
        {t : Session} (on : l.enabled ≡ true) (e : host_rcv_pkt l.session p len ≡ done t)
        → ArePackets l r ps
        → ArePackets (record l { session = t }) (onward r (packet p len on e)) (ps ++ (p, len) ∷ [])

module _ (scan : List ℕ → Option Credentials) (s : Session) where
  -- In its course the run `r` came to strcmp and found the name "wifi.config"; then nothing but
  -- packets came in, and so it stands before sscanf now.
  pub record Named {l : Loop} (r : Runs scan (entered s) l) : Type 0 where
    pub before : Loop
    pub reached : Runs scan (entered s) before
    pub here : before.pc ≡ at_name
    pub name : same_string (c_string before.session.buffer_1) wifi_config ≡ true
    pub packets : List (Packet × ℕ)
    pub between : ArePackets (onward reached statement) l r packets
    pub served : serve before.session packets ≡ done l.session
    pub now : l ≡ record before { pc = at_text; session = l.session }

  -- In its course the run `r` came to sscanf in this way, which found the credentials.
  pub record IsFromNamed {l : Loop} (r : Runs scan (entered s) l) (c : Credentials) : Type 0 where
    pub before : Loop
    pub reached : Runs scan (entered s) before
    pub named : Named reached
    pub text : scan (c_string before.session.buffer_2) ≡ some c
    pub passed : IsPart (onward reached statement) l r

  -- What a run keeps.
  record Traced {l : Loop} (r : Runs scan (entered s) l) : Type 0 where
    named : l.pc ≡ at_text → Named r
    source : (c : Credentials) → l.read ≡ some c → IsFromNamed r c

  source-further :
      {l n : Loop} (r : Runs scan (entered s) l) (t : Step scan l n) (c : Credentials)
      → IsFromNamed r c
      → IsFromNamed (onward r t) c
  source-further r t c v = record {
    before = v.before;
    reached = v.reached;
    named = v.named;
    text = v.text;
    passed = further t v.passed;
  }

  statement-Traced :
      (l : Loop) (r : Runs scan (entered s) l) → Traced r → Traced (onward r statement)
  unfolding serve
  statement-Traced l r k = record {
    named = λ x.
        let (here, name, now) = to_text scan l l.pc x refl in
        record {
          before = l;
          reached = r;
          here = here;
          name = name;
          packets = [];
          between = no_packet;
          served = ap done (sym (ap (λ (m : Loop). m.session) now));
          now = cc;
        };
    source = λ c x. elim (new_read scan l l.pc c x) [
      | inl e ↦ source-further r statement c (k.source c e)
      | inr (e, text) ↦ record {
        before = l;
        reached = r;
        named = k.named e;
        text = text;
        passed = whole;
      }
    ];
  }

  packet-Traced :
      (l : Loop) (r : Runs scan (entered s) l) (p : Packet) (len : ℕ) (t : Session)
      (on : l.enabled ≡ true) (e : host_rcv_pkt l.session p len ≡ done t)
      → Traced r
      → Traced (onward r (packet p len on e))
  packet-Traced l r p len t on e k = record {
    named = λ x.
        let n = k.named x in
        record {
          before = n.before;
          reached = n.reached;
          here = n.here;
          name = n.name;
          packets = n.packets ++ (p, len) ∷ [];
          between = one_more p len on e n.between;
          served = serve-onward n.packets p len n.before.session l.session t n.served e;
          now = ap (λ (m : Loop). record m { session = t }) n.now;
        };
    source = λ c x. source-further r (packet p len on e) c (k.source c x);
  }

  Runs-Traced : {l : Loop} (r : Runs scan (entered s) l) → Traced r
  Runs-Traced stay = record { named = λ x. cc; source = λ c x. cc }
  Runs-Traced (onward {m} r statement) = statement-Traced m r (Runs-Traced r)
  Runs-Traced (onward {m} r (packet p len on e)) = packet-Traced m r p len _ on e (Runs-Traced r)

  -- Wherever packets come in between the statements of the loop that waits for a file, and whatever
  -- they are: when the loop is left, credentials have been received, the controller is off, and the
  -- credentials are those that sscanf found in `content` in the course of this very run; before it
  -- called sscanf, with nothing but packets in between, this run had found the name "wifi.config"
  -- in `fi`.
  pub left-IsFromNamed :
      (l : Loop) (r : Runs scan (entered s) l)
      → l.pc ≡ left
      → (l.credentials_recived ≡ true)
        × (l.enabled ≡ false)
        × (c : Credentials) × (l.read ≡ some c)
        × IsFromNamed r c
  left-IsFromNamed l r e =
      let k = Runs-Sound scan s l r in
      let off = k.left e in
      let (u, v) = k.recived off in
      at_option
        (λ o.
          l.read ≡ o
          → (l.credentials_recived ≡ true)
            × (l.enabled ≡ false)
            × (c : Credentials) × (l.read ≡ some c)
            × IsFromNamed r c)
        l.read (λ n _. elim (k.salir off n) [ ]) (λ c n _. (u, v, c, n, (Runs-Traced r).source c n))
        refl
