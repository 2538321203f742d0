-- ===== src/App/Interleaved/Atomic.antt =====
-- The runs of `App.wait_for_file`, in which packets come in only between two rounds of the loop
-- (src/main/main.cpp), are runs of the interleaved loop.
use Prim.{Unit, tt}
use mathlib.Core.Path.{subst}
use hydroponic_closet.Prelude.{
  ℕ, zero, suc, ◌≡◌, refl, true, false, List, [], ◌∷◌, Option, none, some, Bool-cases, inl, inr,
  at_option,
}
use hydroponic_closet.Bt.State.{Packet, Session, Outcome, done, overrun, hang}
use hydroponic_closet.Bt.Handler.{host_rcv_pkt, serve}
use hydroponic_closet.Closet.Credentials.{c_string, same_string, Credentials, wifi_config, poll}
use hydroponic_closet.Bt.Framing.Obex.{Returned}
use hydroponic_closet.App.{
  Wait, found, still_waiting, lost, wait_for_file, after_callback, after_poll, poll_arrays,
  keep_arrays,
}
use hydroponic_closet.App.Interleaved.{
  left, Loop, entered, advance, statement, packet, Runs, stay, onward,
}
use hydroponic_closet.App.Interleaved.Lost.{statements}

-- Behind the loop.
abbrev pub left_with : Credentials → Session → Loop
left_with c s = record {
  pc = left;
  session = s;
  read = some c;
  credentials_recived = true;
  salir = false;
  enabled = false;
}

module _ (scan : List ℕ → Option Credentials) (start : Loop) where
  pub Runs-statements :
      (n : ℕ) (l : Loop) → Runs scan start l → Runs scan start (statements scan n l)
  unfolding statements
  Runs-statements zero l r = r
  Runs-statements (suc n) l r = Runs-statements n _ (onward r statement)

  -- The loop has got to its start with the globals that a run of packets leaves.
  AtStart : Outcome → Type 0
  AtStart = Returned (λ u. Runs scan start (entered u))

  Runs-serve :
      (packets : List (Packet × ℕ)) (s : Session)
      → Runs scan start (entered s)
      → AtStart (serve s packets)
  unfolding serve AtStart
  Runs-serve [] s r = r
  Runs-serve ((p, len) ∷ rest) s r = and_rest (host_rcv_pkt s p len) refl (λ u. Runs-serve rest u)
    where
      and_rest :
          (o : Outcome)
          → host_rcv_pkt s p len ≡ o
          → ((u : Session) → Runs scan start (entered u) → AtStart (serve u rest))
          → AtStart (elim o [ done u ↦ serve u rest | overrun ↦ overrun | hang ↦ hang ])
      and_rest (done u) e k = k u (onward r (packet p len refl e))
      and_rest overrun e k = tt
      and_rest hang e k = tt

  abbrev after_round : Session → Session
  after_round u = keep_arrays (poll_arrays scan u) u

  not_named :
      (u : Session)
      → same_string (c_string u.buffer_1) wifi_config ≡ false
      → (statements scan 4 (entered u) ≡ entered (after_round u))
        × ((poll_arrays scan u).found ≡ none)
  unfolding statements advance poll
  not_named u e = rw e (refl, refl)

  not_read :
      (u : Session)
      → same_string (c_string u.buffer_1) wifi_config ≡ true
      → scan (c_string u.buffer_2) ≡ none
      → (statements scan 5 (entered u) ≡ entered (after_round u))
        × ((poll_arrays scan u).found ≡ none)
  unfolding statements advance poll
  not_read u e f = rw (e, f) (refl, refl)

  is_read :
      (u : Session) (c : Credentials)
      → same_string (c_string u.buffer_1) wifi_config ≡ true
      → scan (c_string u.buffer_2) ≡ some c
      → (statements scan 6 (entered u) ≡ left_with c (after_round u))
        × ((poll_arrays scan u).found ≡ some c)
  unfolding statements advance poll
  is_read u c e f = rw (e, f) (refl, refl)

  -- If the wait ends with credentials, so does the loop.
  OnFound : Wait → Type 0
  OnFound (found c t) = Runs scan start (left_with c t)
  OnFound (still_waiting t) = Unit
  OnFound lost = Unit

  module _ (next : Session → Wait)
      (rest : (t : Session) → Runs scan start (entered t) → OnFound (next t)) where
    after_poll-OnFound :
        (u : Session)
        → Runs scan start (entered u)
        → OnFound (after_poll next (poll_arrays scan u).found (after_round u))
    unfolding OnFound
    after_poll-OnFound u r = elim (Bool-cases (same_string (c_string u.buffer_1) wifi_config)) [
      | inr e ↦
          let (f, g) = not_named u e in
          rw g (rest _ (subst (Runs scan start) f (Runs-statements 4 _ r)))
      | inl e ↦
          at_option
            (λ o.
              scan (c_string u.buffer_2) ≡ o
              → OnFound (after_poll next (poll_arrays scan u).found (after_round u)))
            (scan (c_string u.buffer_2))
            (λ _ x.
              let (f, g) = not_read u e x in
              rw g (rest _ (subst (Runs scan start) f (Runs-statements 5 _ r))))
            (λ c _ x.
              let (f, g) = is_read u c e x in
              rw g (subst (Runs scan start) f (Runs-statements 6 _ r)))
            refl
    ]

    after_callback-OnFound : (o : Outcome) → AtStart o → OnFound (after_callback scan next o)
    unfolding AtStart OnFound
    after_callback-OnFound (done u) r = after_poll-OnFound u r
    after_callback-OnFound overrun r = tt
    after_callback-OnFound hang r = tt

  wait_for_file-OnFound :
      (deliveries : List (List (Packet × ℕ))) (s : Session)
      → Runs scan start (entered s)
      → OnFound (wait_for_file scan deliveries s)
  unfolding wait_for_file OnFound
  wait_for_file-OnFound [] s r = tt
  wait_for_file-OnFound (packets ∷ rest) s r =
      after_callback-OnFound (wait_for_file scan rest) (wait_for_file-OnFound rest) _
        (Runs-serve packets s r)

-- If the wait for a file ends with credentials, the interleaved loop can be left with the same ones
-- and the same globals.
pub wait_for_file-Runs :
    (scan : List ℕ → Option Credentials) (deliveries : List (List (Packet × ℕ))) (s t : Session)
    (c : Credentials)
    → wait_for_file scan deliveries s ≡ found c t
    → Runs scan (entered s) (left_with c t)
unfolding OnFound
wait_for_file-Runs scan deliveries s t c e =
    subst (OnFound scan (entered s)) e (wait_for_file-OnFound scan (entered s) deliveries s stay)
