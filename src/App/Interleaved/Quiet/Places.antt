-- ===== src/App/Interleaved/Quiet/Places.antt =====
-- Where the loop (src/main/main.cpp) stands in a round of `App.wait_for_file`, if packets come in only
-- while it pauses.
use mathlib.Core.Path.{subst}
use hydroponic_closet.Prelude.{
  ℕ, ◌≡◌, refl, sym, ap, ◌∙◌, ◌⊎◌, inl, inr, Bool, true, false, List, Option, none, some, set,
  if_both, on_some,
}
use hydroponic_closet.Bt.State.{Packet, Session, done}
use hydroponic_closet.Bt.Handler.{host_rcv_pkt}
use hydroponic_closet.Closet.Credentials.{c_string, same_string, Credentials, wifi_config, poll}
use hydroponic_closet.App.{found, wait_for_file}
use hydroponic_closet.App.Interleaved.{
  at_name, at_text, at_success, at_content, at_fi, at_delay, left, Loop, entered, advance,
}
use hydroponic_closet.App.Interleaved.Quiet.{
  statement, packet, QuietRuns, stay, onward, found_in, after_round, Log, closed, taken, log,
  Behind, Behind-start, Behind-packet, Behind-round, ends,
}

module _ (scan : List ℕ → Option Credentials) (s : Session) where
  abbrev is_none : Option Credentials → Bool
  is_none none = true
  is_none (some c) = false

  -- Where the loop stands in a round of `wait_for_file`.
  data Status (g : Log scan) (l : Loop) : Type 0 where
    looking :
        (l.pc ≡ at_name) ⊎ (l.pc ≡ at_delay)
        → l.salir ≡ true
        → Behind scan s g l.session
        → Status g l
    named :
        l.pc ≡ at_text
        → l.salir ≡ true
        → Behind scan s g l.session
        → same_string (c_string l.session.buffer_1) wifi_config ≡ true
        → Status g l
    success :
        (c : Credentials)
        → l.pc ≡ at_success
        → Behind scan s g l.session
        → found_in scan l.session ≡ some c
        → l.read ≡ some c
        → Status g l
    clearing :
        (o : Option Credentials)
        → l.pc ≡ at_content
        → l.salir ≡ is_none o
        → (o ≡ none) ⊎ ((l.enabled ≡ false) × (l.read ≡ o))
        → Behind scan s g l.session
        → found_in scan l.session ≡ o
        → Status g l
    half_cleared :
        (o : Option Credentials) (u : Session)
        → l.pc ≡ at_fi
        → l.salir ≡ is_none o
        → (o ≡ none) ⊎ ((l.enabled ≡ false) × (l.read ≡ o))
        → Behind scan s g u
        → found_in scan u ≡ o
        → l.session ≡ record u { buffer_2 = set u.buffer_2 0 0 }
        → Status g l
    ended :
        (c : Credentials)
        → (l.pc ≡ at_delay) ⊎ (l.pc ≡ left)
        → l.salir ≡ false
        → l.enabled ≡ false
        → l.read ≡ some c
        → wait_for_file scan g.rounds s ≡ found c l.session
        → Status g l

  Status-packet :
      (g : Log scan) (l : Loop) (p : Packet) (len : ℕ) (t : Session)
      → (l.pc ≡ at_name) ⊎ (l.pc ≡ at_delay)
      → l.enabled ≡ true
      → host_rcv_pkt l.session p len ≡ done t
      → Status g l
      → Status (taken scan p len g) (record l { session = t })
  Status-packet g l p len t w on e (looking x y b) =
      looking x y (Behind-packet scan s g l.session t p len b e)
  Status-packet g l p len t (inl w) on e (named x y b n) = cc
  Status-packet g l p len t (inr w) on e (named x y b n) = cc
  Status-packet g l p len t (inl w) on e (success c x b n q) = cc
  Status-packet g l p len t (inr w) on e (success c x b n q) = cc
  Status-packet g l p len t (inl w) on e (clearing o x y z b n) = cc
  Status-packet g l p len t (inr w) on e (clearing o x y z b n) = cc
  Status-packet g l p len t (inl w) on e (half_cleared o u x y z b n f) = cc
  Status-packet g l p len t (inr w) on e (half_cleared o u x y z b n f) = cc
  Status-packet g l p len t w on e (ended c x y off q n) = cc

  -- strcmp
  at_name-Status :
      (g : Log scan) (l : Loop)
      → l.salir ≡ true
      → Behind scan s g l.session
      → Status g (advance scan at_name l)
  unfolding advance poll
  at_name-Status g l y b =
      if_both (Status g) (same_string (c_string l.session.buffer_1) wifi_config)
        (λ n. named refl y b n) (λ n. clearing none refl y (inl refl) b (rw n refl))

  -- sscanf
  at_text-Status :
      (g : Log scan) (l : Loop)
      → l.salir ≡ true
      → Behind scan s g l.session
      → same_string (c_string l.session.buffer_1) wifi_config ≡ true
      → Status g (advance scan at_text l)
  unfolding advance poll
  at_text-Status g l y b n =
      on_some (Status g) (scan (c_string l.session.buffer_2))
        (λ x. clearing none refl y (inl refl) b (rw (n, x) refl))
        (λ c x. success c refl b (rw (n, x) refl) refl)

  round_over :
      (l : Loop) (u : Session)
      → l.session ≡ record u { buffer_2 = set u.buffer_2 0 0 }
      → (advance scan at_fi l).session ≡ after_round scan u
  unfolding advance poll
  round_over l u f = ap (λ (v : Session). record v { buffer_1 = set v.buffer_1 0 0 }) f

  -- The second assignment ends the round.
  at_fi-Status :
      (g : Log scan) (l : Loop) (o : Option Credentials) (u : Session)
      → l.salir ≡ is_none o
      → (o ≡ none) ⊎ ((l.enabled ≡ false) × (l.read ≡ o))
      → Behind scan s g u
      → found_in scan u ≡ o
      → l.session ≡ record u { buffer_2 = set u.buffer_2 0 0 }
      → Status (closed scan at_fi g) (advance scan at_fi l)
  unfolding advance
  at_fi-Status g l none u y z b n f = looking (inr refl) y (
      subst (Behind scan s (closed scan at_fi g)) (sym (round_over l u f))
        (Behind-round scan s g u b n))
  at_fi-Status g l (some c) u y (inl z) b n f = cc
  at_fi-Status g l (some c) u y (inr (z, q)) b n f =
      ended c (inl refl) y z q (ends scan s g u c b n ∙ ap (found c) (sym (round_over l u f)))

  advance-Status :
      (g : Log scan) (l : Loop) → Status g l → Status (closed scan l.pc g) (advance scan l.pc l)
  unfolding advance
  advance-Status g l (looking (inl e) y b) = rw e (at_name-Status g l y b)
  advance-Status g l (looking (inr e) y b) = rw (e, y) (looking (inl refl) refl b)
  advance-Status g l (named e y b n) = rw e (at_text-Status g l y b n)
  advance-Status g l (success c e b n q) = rw e (clearing (some c) refl refl (inr (refl, q)) b n)
  advance-Status g l (clearing o e y z b n) = rw e (half_cleared o l.session refl y z b n refl)
  advance-Status g l (half_cleared o u e y z b n f) = rw e (at_fi-Status g l o u y z b n f)
  advance-Status g l (ended c (inl e) y off q n) = rw (e, y) (ended c (inr refl) refl off q n)
  advance-Status g l (ended c (inr e) y off q n) = rw e (ended c (inr refl) y off q n)

  QuietRuns-Status : (l : Loop) (r : QuietRuns scan (entered s) l) → Status (log scan r) l
  unfolding log
  QuietRuns-Status l stay = looking (inl refl) refl (Behind-start scan s)
  QuietRuns-Status l (onward {m} r statement) = advance-Status (log scan r) m (QuietRuns-Status m r)
  QuietRuns-Status l (onward {m} r (packet p len w on e)) =
      Status-packet (log scan r) m p len _ w on e (QuietRuns-Status m r)

  at_left :
      (g : Log scan) (l : Loop)
      → l.pc ≡ left
      → Status g l
      → (c : Credentials) × (l.read ≡ some c) × (wait_for_file scan g.rounds s ≡ found c l.session)
  at_left g l e (looking (inl x) y b) = cc
  at_left g l e (looking (inr x) y b) = cc
  at_left g l e (named x y b n) = cc
  at_left g l e (success c x b n q) = cc
  at_left g l e (clearing o x y z b n) = cc
  at_left g l e (half_cleared o u x y z b n f) = cc
  at_left g l e (ended c x y off q n) = (c, q, n)

  -- If packets come in only while the loop pauses and before it looks at the name, and the loop is
  -- left: then `wait_for_file`, handed the packets of this run by the rounds of the loop in which
  -- they came in, ends with the same credentials and the same globals.
  pub QuietRuns-found :
      (l : Loop) (r : QuietRuns scan (entered s) l)
      → l.pc ≡ left
      → (c : Credentials) × (l.read ≡ some c)
        × (wait_for_file scan (log scan r).rounds s ≡ found c l.session)
  QuietRuns-found l r e = at_left (log scan r) l e (QuietRuns-Status l r)
