-- ===== src/Bt/Receive/Room.antt =====
-- The room that the headers of a PUT need, and a round of the loop that finds it.
use mathlib.Core.Path.{subst}
use hydroponic_closet.Prelude.{
  ℕ, zero, suc, ◌+◌, ◌-◌, ◌/◌, ◌≤◌, ◌<◌, ◌≡◌, ◌≢◌, ◌⊎◌, refl, ap, List, ◌∷◌, ◌++◌, Option, some,
  length, length-append, length-drop, drop, arith, ltb, ◌==◌, if◌then◌else◌, if_both,
}
use hydroponic_closet.Bt.Stream.{Buffer, write}
use hydroponic_closet.Bt.State.{Packet}
use hydroponic_closet.Bt.Obex.{◌>>=◌, write_fcs, srm_head, write_srm, end_head, write_end}
use hydroponic_closet.Bt.Put.{
  Put, Header, head_len, put_name, put_size, put_body, put_reply, put_step,
}
use hydroponic_closet.Bt.Receive.Copy.{gather}
use hydroponic_closet.Bt.Receive.Stored.{name_chars, body_bytes, put_name_lem, put_body_lem}
use hydroponic_closet.Bt.Receive.Rounds.{advance}

-- The bytes that the header at `i` writes to the command buffer.
abbrev pub frame_bytes : Packet → ℕ → ℕ
frame_bytes packet i = if packet i == 0x97 then 20 else if packet i == 0x49 then 18 else 0

-- Arrays of `n1` and `n2` bytes have room for the header at `i`.
abbrev pub HasRoom : Packet → ℕ → ℕ → ℕ → Type 0
HasRoom packet n1 n2 i =
    ((packet i ≢ 0x01) ⊎ ((head_len packet i - 3) / 2 < n1))
    × ((packet i ≢ 0x48) ⊎ (head_len packet i - 3 < n2))

-- From offset `i` the packet is a chain of known headers to its end for which there is room, also
-- in `cells` bytes of the command buffer.
pub data Fitting (packet : Packet) (len n1 n2 : ℕ) : ℕ → ℕ → Type 0 where
  last : (i cells : ℕ) → len ≤ i + 2 → Fitting packet len n1 n2 i cells
  then_more :
      (i cells : ℕ)
      → i + 2 < len
      → advance packet i ≢ 0
      → HasRoom packet n1 n2 i
      → frame_bytes packet i ≤ cells
      → Fitting packet len n1 n2 (i + advance packet i) (cells - frame_bytes packet i)
      → Fitting packet len n1 n2 i cells

length-gather : (n stride : ℕ) (packet : Packet) (j : ℕ) → length (gather n stride packet j) ≡ n
unfolding gather
length-gather zero stride packet j = refl
length-gather (suc n) stride packet j = ap suc (length-gather n stride packet (j + stride))

same_size :
    (n stride : ℕ) (packet : Packet) (j : ℕ) (b : List ℕ)
    → n < length b
    → length (gather n stride packet j ++ 0 ∷ drop (suc n) b) ≡ length b
same_size n stride packet j b room = omega (
  arith,
  length-append (gather n stride packet j) (0 ∷ drop (suc n) b),
  length-gather n stride packet j,
  length-drop (suc n) b,
)

write_room :
    (bs : List ℕ) (b : Buffer)
    → length bs ≤ length b.cells
    → write bs b ≡ some (record { written = b.written ++ bs; cells = drop (length bs) b.cells })
unfolding write
write_room bs b room = ground arith

-- A frame of `n` bytes that was written, and the cells that it leaves.
abbrev pub Written : ℕ → Buffer → Option Buffer → Type 0
Written n b o =
    (d : Buffer) × (o ≡ some d)
    × (length d.cells + n ≡ length b.cells)
    × (length d.written ≡ length b.written + n)

pub frame_room :
    (head : List ℕ) (n : ℕ) (b : Buffer)
    → length head + 2 ≤ length b.cells
    → Written (length head + 2) b (write head b >>= write_fcs n)
unfolding write_fcs
frame_room head n b room =
    let c : Buffer = record { written = b.written ++ head; cells = drop (length head) b.cells } in
    let left = length-drop (length head) b.cells in
    rw (write_room head b (omega (arith, room))) (
      _,
      write_room _ c (omega (arith, room, left)),
      omega (arith, room, left, length-drop 2 c.cells),
      omega (arith, length-append b.written head, length-append (b.written ++ head) _),
    )

write_srm_room :
    (f c r t : ℕ) (b : Buffer) → 20 ≤ length b.cells → Written 20 b (write_srm f c r t b)
unfolding write_srm srm_head
write_srm_room f c r t b room = frame_room (srm_head f c r t) 11 b room

write_end_room :
    (f c r t : ℕ) (b : Buffer) → 18 ≤ length b.cells → Written 18 b (write_end f c r t b)
unfolding write_end end_head
write_end_room f c r t b room = frame_room (end_head f c r t) 9 b room

module _ (h : Header) (packet : Packet) (p : Put) where
  -- A round that went well: the arrays keep their sizes.
  unfoldable pub Went : ℕ → Option Put → Type 0
  Went n o =
      (q : Put) × (o ≡ some q)
      × (length q.session.buffer_1 ≡ length p.session.buffer_1)
      × (length q.session.buffer_2 ≡ length p.session.buffer_2)
      × (length q.frame.cells + n ≡ length p.frame.cells)

  put_name-Went : name_chars packet p < length p.session.buffer_1 → Went 0 (put_name packet p)
  unfolding Went
  put_name-Went room = rw (put_name_lem packet p) (
      if_both (Went 0) (ltb (name_chars packet p) (length p.session.buffer_1))
        (λ _. (_, refl, same_size _ 2 packet _ _ room, refl, omega arith))
        (λ full. absurd (ground arith)))

  put_body-Went : body_bytes packet p < length p.session.buffer_2 → Went 0 (put_body packet p)
  unfolding Went
  put_body-Went room = rw (put_body_lem packet p) (
      if_both (Went 0) (ltb (body_bytes packet p) (length p.session.buffer_2))
        (λ _. (_, refl, refl, same_size _ 1 packet _ _ room, omega arith))
        (λ full. absurd (ground arith)))

  put_reply-Went : (n k : ℕ) (o : Option Buffer) → Written n p.frame o → Went n (put_reply o k p)
  unfolding Went put_reply
  put_reply-Went n k o (d, e, l, w) = rw e (_, refl, refl, refl, l)

  recount : {n m : ℕ} (o : Option Put) → n ≡ m → Went n o → Went m o
  recount o e w = subst (λ k. Went k o) e w

  pub put_step-Went :
      HasRoom packet (length p.session.buffer_1) (length p.session.buffer_2) p.i
      → frame_bytes packet p.i ≤ length p.frame.cells
      → Went (frame_bytes packet p.i) (put_step h packet p)
  unfolding Went put_step put_size
  put_step-Went room cells =
      let W : Option Put → Type 0 = Went (frame_bytes packet p.i) in
      let c = packet p.i in
      if_both W (c == 0xcb) (λ e. (_, refl, refl, refl, ground arith))
        (λ _.
          if_both W (c == 0x01) (λ e. recount _ (ground arith) (put_name-Went (ground arith)))
            (λ _.
              if_both W (c == 0xc3) (λ e. (_, refl, refl, refl, ground arith))
                (λ _.
                  if_both W (c == 0x48)
                    (λ e. recount _ (ground arith) (put_body-Went (ground arith)))
                    (λ _.
                      if_both W (c == 0x42) (λ e. (_, refl, refl, refl, ground arith))
                        (λ _.
                          if_both W (c == 0x97)
                            (λ e. recount _ (ground arith) (
                              put_reply-Went 20 2 _
                                (write_srm_room _ _ _ _ p.frame (ground arith))))
                            (λ a.
                              if_both W (c == 0x49)
                                (λ e. recount _ (ground arith) (
                                  put_reply-Went 18 3 _
                                    (write_end_room _ _ _ _ p.frame (ground arith))))
                                (λ b. (_, refl, refl, refl, ground arith))))))))
