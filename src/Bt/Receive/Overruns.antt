-- ===== src/Bt/Receive/Overruns.antt =====
-- A PUT (`obex_ftp` of blue/bt_main.c) with a name or a body that is too long for its array.
use Prim.{⊥}
use hydroponic_closet.Prelude.{
  ℕ, zero, suc, ◌+◌, ◌-◌, ◌/◌, ◌≤◌, ◌<◌, ◌≡◌, ◌≢◌, ◌⊎◌, refl, ap, true, Option, none, some, length,
  arith, ltb, bit_and, on_some,
}
use hydroponic_closet.Bt.Stream.{Buffer}
use hydroponic_closet.Bt.State.{Packet, Session, overrun, queue_packet}
use hydroponic_closet.Bt.Put.{
  Put, Header, overflow, head_len, put_name, put_size, put_body, put_reply, put_step, put_loop,
}
use hydroponic_closet.Bt.Handler.{
  Partial, header, obex_ack, after_put, obex_put, obex_command, obex_ftp,
}
use hydroponic_closet.Bt.Framing.Loop.{Kept, Kept-some, put_step-Kept_cases}
use hydroponic_closet.Bt.Receive.Stored.{put_name_lem, put_body_lem}
use hydroponic_closet.Bt.Receive.Rounds.{advance, put_step-advance}
use hydroponic_closet.Bt.Receive.Ranges.{copied_string}

-- From offset `i` a chain of known headers leads to a name of `n1` characters or more, or to a body
-- of `n2` bytes or more.
pub data TooLong (packet : Packet) (len n1 n2 : ℕ) : ℕ → Type 0 where
  here :
      (i : ℕ)
      → i + 2 < len
      → ((packet i ≡ 0x01) × (n1 ≤ (head_len packet i - 3) / 2))
        ⊎ ((packet i ≡ 0x48) × (n2 ≤ head_len packet i - 3))
      → TooLong packet len n1 n2 i
  later :
      (i : ℕ)
      → i + 2 < len
      → advance packet i ≢ 0
      → TooLong packet len n1 n2 (i + advance packet i)
      → TooLong packet len n1 n2 i

module _ (h : Header) (packet : Packet) (len n1 n2 : ℕ) where
  abbrev Sized : Session → Type 0
  Sized s = (length s.buffer_1 ≡ n1) × (length s.buffer_2 ≡ n2)

  abbrev OfPut : Put → Type 0
  OfPut p = Sized p.session

  overruns :
      (p : Put)
      → OfPut p
      → ((packet p.i ≡ 0x01) × (n1 ≤ (head_len packet p.i - 3) / 2))
        ⊎ ((packet p.i ≡ 0x48) × (n2 ≤ head_len packet p.i - 3))
      → put_step h packet p ≡ none
  unfolding put_step
  overruns p z w = ground (arith, put_name_lem packet p, put_body_lem packet p)

  reply-Sized : (o : Option Buffer) (n : ℕ) (p : Put) → OfPut p → Kept OfPut (put_reply o n p)
  unfolding put_reply
  reply-Sized none n p z = λ q e. cc
  reply-Sized (some b) n p z = Kept-some OfPut _ z

  name-Sized : (p : Put) → OfPut p → Kept OfPut (put_name packet p)
  unfolding put_name
  name-Sized p z q e = ground (
    arith,
    copied_string n1 2 packet (p.i + 4) (head_len packet p.i + p.i) p.session.buffer_1
        q.session.buffer_1,
  )

  body-Sized : (p : Put) → OfPut p → Kept OfPut (put_body packet p)
  unfolding put_body
  body-Sized p z q e = ground (
    arith,
    copied_string n2 1 packet (p.i + 3) (head_len packet p.i + p.i) p.session.buffer_2
        q.session.buffer_2,
  )

  step-Sized : (p : Put) → OfPut p → Kept OfPut (put_step h packet p)
  unfolding put_size
  step-Sized p z =
      put_step-Kept_cases OfPut h packet p z (λ n. z) (name-Sized p z) z (body-Sized p z)
        (reply-Sized _ 2 p z) (reply-Sized _ 3 p z)

  loop_overflows :
      (rounds i : ℕ) (p : Put)
      → TooLong packet len n1 n2 i
      → p.i ≡ i
      → OfPut p
      → len < i + rounds
      → put_loop rounds h packet len p ≡ overflow
  unfolding put_loop
  loop_overflows zero i p (here _ inside w) e z enough = (let x : ⊥ = omega arith in elim x [ ])
  loop_overflows zero i p (later _ inside moves c) e z enough =
      (let x : ⊥ = omega arith in elim x [ ])
  loop_overflows (suc rounds) i p (here _ inside w) e z enough =
      let more : ltb (p.i + 2) len ≡ true = ground arith in
      rw (put_loop, more, overruns p z (rw e w)) refl
  loop_overflows (suc rounds) i p (later _ inside moves c) e z enough =
      let more : ltb (p.i + 2) len ≡ true = ground arith in
      rw (put_loop, more)
        (on_some (λ o. o ≡ overflow) (put_step h packet p) (λ _. refl)
          (λ q s.
            let moved : q.i ≡ i + advance packet i = rw (← e) (put_step-advance h packet p q s) in
            loop_overflows rounds (i + advance packet i) q c moved (step-Sized p z q s)
              (omega arith)))

module _ (packet : Packet) (len n1 n2 : ℕ) (long : TooLong packet len n1 n2 14) where
  obex_put-overruns :
      (u : Partial)
      → (length u.session.buffer_1 ≡ n1) × (length u.session.buffer_2 ≡ n2)
      → obex_put (header packet) packet len u ≡ overrun
  unfolding obex_put after_put
  obex_put-overruns u z =
      ap after_put
        (loop_overflows (header packet) packet len n1 n2 (suc len) 14 _ long refl z (omega arith))

  same_sizes :
      (s : Session)
      → length s.buffer_1 ≡ n1
      → length s.buffer_2 ≡ n2
      → (u : Partial) → obex_ack (header packet) s ≡ some u
      → (length u.session.buffer_1 ≡ n1) × (length u.session.buffer_2 ≡ n2)
  unfolding obex_ack queue_packet
  same_sizes s a b u e = ground arith

  -- A PUT in an information frame in which a chain of known headers leads to a name with as many
  -- characters as its array has bytes, or to a body with as many bytes, or more: whatever headers
  -- stand before and behind, `obex_ftp` writes past the end of an array.
  pub obex_ftp-overruns :
      (s : Session)
      → length s.buffer_1 ≡ n1
      → length s.buffer_2 ≡ n2
      → bit_and (packet 9) 1 ≡ 0
      → bit_and (packet 11) 0b01111111 ≡ 2
      → obex_ftp s packet len ≡ overrun
  unfolding obex_ftp obex_command
  obex_ftp-overruns s a b frame put =
      on_some (λ o. o ≡ overrun) (obex_ack (header packet) s) (λ _. refl)
        (λ u e. rw (frame, put) (obex_put-overruns u (same_sizes s a b u e)))
