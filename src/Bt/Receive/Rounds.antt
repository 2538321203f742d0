-- ===== src/Bt/Receive/Rounds.antt =====
-- When the loop over the headers of a PUT ends.
use mathlib.Core.Path.{subst}
use hydroponic_closet.Prelude.{
  ℕ, zero, suc, ◌+◌, ◌≤◌, ◌<◌, ◌≡◌, ◌≢◌, refl, true, false, some, arith, ltb, ◌==◌, ◌||◌,
  Bool-cases, if◌then◌else◌, on_some, inl, inr,
}
use hydroponic_closet.Bt.State.{Packet, Session, done, hang}
use hydroponic_closet.Bt.Put.{
  Put, Header, PutEnd, finished, overflow, endless, head_len, put_name, put_size, put_body,
  put_reply, put_step, put_loop,
}
use hydroponic_closet.Bt.Handler.{Partial, after_put, obex_put}

-- How far the loop moves for the header at `i`: 0 for a byte that starts no header that it knows.
abbrev pub advance : Packet → ℕ → ℕ
advance packet i =
    if packet i == 0xcb || packet i == 0xc3
    then 5
    else if packet i == 0x01 || packet i == 0x48 || packet i == 0x42
    then head_len packet i
    else if packet i == 0x97
    then 2
    else if packet i == 0x49
    then 3
    else 0

-- One round moves by that much, if it does not write past an array.
pub put_step-advance :
    (h : Header) (packet : Packet) (p q : Put)
    → put_step h packet p ≡ some q
    → q.i ≡ p.i + advance packet p.i
unfolding put_step put_name put_body put_size put_reply
put_step-advance h packet p q e = ground arith

-- From offset `i` the packet is a chain of known headers that moves on and reaches its end.
pub data Headers (packet : Packet) (len : ℕ) : ℕ → Type 0 where
  end : (i : ℕ) → len ≤ i + 2 → Headers packet len i
  next :
      (i : ℕ)
      → i + 2 < len
      → advance packet i ≢ 0
      → Headers packet len (i + advance packet i)
      → Headers packet len i

module _ (h : Header) (packet : Packet) (len : ℕ) where
  Ends : PutEnd → Type 0
  Ends e = e ≢ endless

  loop-Ends :
      (rounds i : ℕ) (p : Put)
      → Headers packet len i
      → p.i ≡ i
      → 0 < rounds
      → len < i + rounds
      → Ends (put_loop rounds h packet len p)
  unfolding put_loop Ends
  loop-Ends zero i p c e pos enough = elim pos [ ]
  loop-Ends (suc rounds) i p (end _ over) e pos enough =
      let out : ltb (p.i + 2) len ≡ false = ground arith in rw (put_loop, out) (λ x. cc)
  loop-Ends (suc rounds) i p (next _ more moves c) e pos enough =
      let inside : ltb (p.i + 2) len ≡ true = ground arith in
      rw (put_loop, inside)
        (on_some Ends (put_step h packet p) (λ _ x. cc)
          (λ q s.
            let moved : q.i ≡ i + advance packet i = rw (← e) (put_step-advance h packet p q s) in
            loop-Ends rounds (i + advance packet i) q c moved (omega arith) (omega arith)))

  chain_of_finished :
      (rounds : ℕ) (p q : Put)
      → put_loop rounds h packet len p ≡ finished q
      → Headers packet len p.i
  unfolding put_loop
  chain_of_finished zero p q = λ e. cc
  chain_of_finished (suc rounds) p q = elim (Bool-cases (ltb (p.i + 2) len)) [
    | inl more ↦
        rw (put_loop, more)
          (on_some Chained (put_step h packet p) (λ _ x. cc)
            (λ r s x. through r s (chain_of_finished rounds r q x)))
    | inr over ↦ λ e. end p.i (ground arith)
  ]
    where
      Chained : PutEnd → Type 0
      Chained e = e ≡ finished q → Headers packet len p.i

      through :
          (r : Put) → put_step h packet p ≡ some r → Headers packet len r.i → Headers packet len p.i
      through r s c =
          let moved : r.i ≡ p.i + advance packet p.i = put_step-advance h packet p r s in
          let behind : Headers packet len (p.i + advance packet p.i) = rw (← moved) c in
          elim (Bool-cases (advance packet p.i == 0)) [
            | inl still ↦
                (let same : p.i + advance packet p.i ≡ p.i = ground arith in
                  subst (Headers packet len) same behind)
            | inr moves ↦ elim (Bool-cases (ltb (p.i + 2) len)) [
              | inl more ↦ next p.i (ground arith) (ground arith) behind
              | inr over ↦ end p.i (ground arith)
            ]
          ]

  start : Partial → Put
  start u = record { session = u.session; frame = u.frame; send = false; i = 14 }

  hang_only_endless : (e : PutEnd) → Ends e → after_put e ≢ hang
  unfolding after_put Ends
  hang_only_endless (finished q) n x = cc
  hang_only_endless overflow n x = cc
  hang_only_endless endless n x = n refl

  done_only_finished :
      (e : PutEnd) (s : Session) → after_put e ≡ done s → (q : Put) × (e ≡ finished q)
  unfolding after_put
  done_only_finished (finished q) s x = (q, refl)
  done_only_finished overflow s x = cc
  done_only_finished endless s x = cc

  -- A PUT whose headers form a chain of known headers, each of which moves the loop on, to the end
  -- of the packet never hangs the handler.
  pub obex_put-ne-hang : (t : Partial) → Headers packet len 14 → obex_put h packet len t ≢ hang
  unfolding obex_put start
  obex_put-ne-hang t c =
      hang_only_endless _ (loop-Ends (suc len) 14 (start t) c refl (omega arith) (omega arith))

  -- If the handler returns from a PUT, its headers are a chain of known headers, each of which
  -- moves the loop on, to the end of the packet.
  pub obex_put-done_Headers :
      (t : Partial) (s : Session) → obex_put h packet len t ≡ done s → Headers packet len 14
  unfolding obex_put start
  obex_put-done_Headers t s e =
      let (q, f) = done_only_finished _ s e in chain_of_finished (suc len) (start t) q f
