-- ===== src/Bt/Receive/Stored.antt =====
-- What the name header and the body header of a PUT leave in the caller's arrays.
use native.Mathlib.Decide.{dec_lt}
use hydroponic_closet.Prelude.{
  ℕ, suc, ◌+◌, ◌-◌, ◌/◌, ◌≡◌, ◌∷◌, ◌++◌, none, some, arith, length, drop, ltb, if◌then◌else◌,
}
use hydroponic_closet.Bt.State.{Packet}
use hydroponic_closet.Bt.Put.{Put, head_len, put_name, put_body}
use hydroponic_closet.Bt.Receive.Copy.{below, not_below, gather, copied_fits, copied_overruns}

module _ (packet : Packet) (p : Put) where
  -- The characters of the name: two bytes each behind a start of three bytes.
  abbrev pub name_chars : ℕ
  name_chars = (head_len packet p.i - 3) / 2

  -- The bytes of the body behind a start of three bytes.
  abbrev pub body_bytes : ℕ
  body_bytes = head_len packet p.i - 3

  -- With fewer characters than the array has bytes, a name header leaves the low bytes of the
  -- characters, a closing zero and the rest of the array, and the loop goes on behind the header.
  -- With as many characters or more it writes past the end of the array.
  pub put_name_lem : put_name packet p ≡ (
      if ltb name_chars (length p.session.buffer_1)
      then some (record p {
        session = record (p.session) {
          buffer_1 =
              gather name_chars 2 packet (p.i + 4) ++ 0 ∷ drop (suc name_chars) p.session.buffer_1;
        };
        i = head_len packet p.i + p.i;
      })
      else none)
  unfolding put_name
  put_name_lem = elim (dec_lt name_chars (length p.session.buffer_1)) [
    | yes room ↦ rw (
      put_name,
      below name_chars (length p.session.buffer_1) room,
      copied_fits packet p.i name_chars 2 4 (head_len packet p.i) p.session.buffer_1 (omega arith)
          (λ k h. omega arith) (omega arith) room,
    )
    | no full ↦ rw (
      put_name,
      not_below name_chars (length p.session.buffer_1) (omega arith),
      copied_overruns packet p.i name_chars 2 4 (head_len packet p.i) p.session.buffer_1
          (omega arith) (λ k h. omega arith) (omega arith) (omega arith),
    )
  ]

  -- With fewer bytes than the array, a body header leaves its bytes, a closing zero and the rest
  -- of the array, and the loop goes on behind the header. With as many bytes or more it writes
  -- past the end of the array.
  pub put_body_lem : put_body packet p ≡ (
      if ltb body_bytes (length p.session.buffer_2)
      then some (record p {
        session = record (p.session) {
          buffer_2 =
              gather body_bytes 1 packet (p.i + 3) ++ 0 ∷ drop (suc body_bytes) p.session.buffer_2;
        };
        i = head_len packet p.i + p.i;
      })
      else none)
  unfolding put_body
  put_body_lem = elim (dec_lt body_bytes (length p.session.buffer_2)) [
    | yes room ↦ rw (
      put_body,
      below body_bytes (length p.session.buffer_2) room,
      copied_fits packet p.i body_bytes 1 3 (head_len packet p.i) p.session.buffer_2 (omega arith)
          (λ k h. omega arith) (omega arith) room,
    )
    | no full ↦ rw (
      put_body,
      not_below body_bytes (length p.session.buffer_2) (omega arith),
      copied_overruns packet p.i body_bytes 1 3 (head_len packet p.i) p.session.buffer_2
          (omega arith) (λ k h. omega arith) (omega arith) (omega arith),
    )
  ]
