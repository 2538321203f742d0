-- ===== src/App/Interleaved/Quiet.antt =====
-- Runs of the interleaved loop (src/main/main.cpp) in which packets come in only while it pauses, or
-- before it looks at the name, are runs of `App.wait_for_file`.
pub mod Places
use mathlib.Core.Path.{subst}
use mathlib.Core.List.{append-nil, append_assoc}
use hydroponic_closet.Prelude.{
  ℕ, ◌≡◌, refl, sym, ap, ◌∙◌, ◌⊎◌, inl, inr, Bool, true, false, List, [], ◌∷◌, ◌++◌, Option, none,
  some, set, if_both, on_some,
}
use hydroponic_closet.Bt.State.{Packet, Session, Outcome, done, overrun, hang}
use hydroponic_closet.Bt.Handler.{host_rcv_pkt, serve}
use hydroponic_closet.Closet.Credentials.{c_string, same_string, Credentials, wifi_config, poll}
use hydroponic_closet.App.{
  Wait, found, wait_for_file, after_callback, after_poll, poll_arrays, keep_arrays,
}
use hydroponic_closet.App.Interleaved.{
  Pc, at_name, at_text, at_success, at_content, at_fi, at_delay, left, Loop, entered, advance,
}

module _ (scan : List ℕ → Option Credentials) where
  -- A packet comes in while the loop pauses, or between the pause and strcmp.
  pub data QuietStep (l : Loop) : Loop → Type 0 where
    statement : QuietStep l (advance scan l.pc l)
    packet :
        (p : Packet) (len : ℕ) {s : Session}
        → (l.pc ≡ at_name) ⊎ (l.pc ≡ at_delay)
        → l.enabled ≡ true
        → host_rcv_pkt l.session p len ≡ done s
        → QuietStep l (record l { session = s })

  pub data QuietRuns (l : Loop) : Loop → Type 0 where
    stay : QuietRuns l l
    onward : {m n : Loop} → QuietRuns l m → QuietStep m n → QuietRuns l n

  -- The packets that came in, by the rounds of the loop; a round ends with `*fi = '\0'`.
  pub record Log : Type 0 where
    pub rounds : List (List (Packet × ℕ))
    pub packets : List (Packet × ℕ)  -- since the last of them

  abbrev pub closed : Pc → Log → Log
  closed at_name g = g
  closed at_text g = g
  closed at_success g = g
  closed at_content g = g
  closed at_fi g = record { rounds = g.rounds ++ g.packets ∷ []; packets = [] }
  closed at_delay g = g
  closed left g = g

  abbrev pub taken : Packet → ℕ → Log → Log
  taken p len g = record g { packets = g.packets ++ (p, len) ∷ [] }

  unfoldable pub log : {l m : Loop} → QuietRuns l m → Log
  log stay = record { rounds = []; packets = [] }
  log (onward {m} r statement) = closed m.pc (log r)
  log (onward r (packet p len w on e)) = taken p len (log r)

  abbrev pub found_in : Session → Option Credentials
  found_in u = (poll_arrays scan u).found

  abbrev pub after_round : Session → Session
  after_round u = keep_arrays (poll_arrays scan u) u

  module _ (s : Session) where
    -- The rounds of the log, and its packets of the next one, lead from `s` to `u`.
    pub record Behind (g : Log) (u : Session) : Type 0 where
      pub same :
          (more : List (Packet × ℕ)) (rest : List (List (Packet × ℕ)))
          → wait_for_file scan (g.rounds ++ (g.packets ++ more) ∷ rest) s
            ≡ wait_for_file scan (more ∷ rest) u

    pub Behind-start : Behind (record { rounds = []; packets = [] }) s
    Behind-start = record { same = λ more rest. refl }

    pub Behind-packet :
        (g : Log) (u v : Session) (p : Packet) (len : ℕ)
        → Behind g u
        → host_rcv_pkt u p len ≡ done v
        → Behind (taken p len g) v
    unfolding wait_for_file serve
    Behind-packet g u v p len b e = record {
      same = λ more rest.
          ap (λ x. wait_for_file scan (g.rounds ++ x ∷ rest) s)
            (append_assoc g.packets ((p, len) ∷ []) more)
          ∙ b.same ((p, len) ∷ more) rest
          ∙ ap
              (λ o.
                after_callback scan (wait_for_file scan rest)
                  (elim o [ done t ↦ serve t more | overrun ↦ overrun | hang ↦ hang ]))
              e;
    }

    one_round :
        (u : Session) (o : Option Credentials) (rest : List (List (Packet × ℕ)))
        → found_in u ≡ o
        → wait_for_file scan ([] ∷ rest) u ≡ after_poll (wait_for_file scan rest) o (after_round u)
    unfolding wait_for_file serve
    one_round u o rest e = ap (λ x. after_poll (wait_for_file scan rest) x (after_round u)) e

    to_end :
        (g : Log) (u : Session) (b : Behind g u) (rest : List (List (Packet × ℕ)))
        → wait_for_file scan (g.rounds ++ g.packets ∷ rest) s ≡ wait_for_file scan ([] ∷ rest) u
    to_end g u b rest =
        ap (λ x. wait_for_file scan (g.rounds ++ x ∷ rest) s) (sym (append-nil g.packets))
        ∙ b.same [] rest

    pub Behind-round :
        (g : Log) (u : Session)
        → Behind g u
        → found_in u ≡ none
        → Behind (closed at_fi g) (after_round u)
    Behind-round g u b e = record {
      same = λ more rest.
          ap (λ x. wait_for_file scan x s) (append_assoc g.rounds (g.packets ∷ []) (more ∷ rest))
          ∙ to_end g u b (more ∷ rest)
          ∙ one_round u none (more ∷ rest) e;
    }

    pub ends :
        (g : Log) (u : Session) (c : Credentials)
        → Behind g u
        → found_in u ≡ some c
        → wait_for_file scan (closed at_fi g).rounds s ≡ found c (after_round u)
    ends g u c b e = to_end g u b [] ∙ one_round u (some c) [] e
