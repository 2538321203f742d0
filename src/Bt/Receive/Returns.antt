-- ===== src/Bt/Receive/Returns.antt =====
-- When `obex_ftp` returns.
use hydroponic_closet.Prelude.{
  ℕ, zero, suc, ◌+◌, ◌-◌, ◌/◌, ◌%◌, ◌≤◌, ◌<◌, ◌≡◌, ◌≢◌, ◌⊎◌, inl, inr, refl, ap, ◌∙◌, true, false,
  Option, some, length, length-append, arith, ltb, ◌==◌, if_both, bit_and,
}
use hydroponic_closet.Bt.Stream.{Buffer, zeroed, contents, rewind}
use hydroponic_closet.Bt.State.{Packet, Session, Outcome, done, queue_packet}
use hydroponic_closet.Bt.Obex.{ack_head, write_ack, connect_head, write_connect}
use hydroponic_closet.Bt.Put.{Put, Header, finished, put_loop}
use hydroponic_closet.Bt.Handler.{
  Partial, header, obex_ack, obex_connect, after_put, obex_put, obex_command, obex_ftp,
}
use hydroponic_closet.Bt.Receive.Rounds.{advance, put_step-advance}
use hydroponic_closet.Bt.Receive.Room.{
  frame_bytes, HasRoom, Fitting, last, then_more, Written, frame_room, Went, put_step-Went,
}

module _ (h : Header) (packet : Packet) (len n1 n2 : ℕ) where
  loop_finishes :
      (rounds i cells : ℕ) (p : Put)
      → Fitting packet len n1 n2 i cells
      → p.i ≡ i
      → length p.session.buffer_1 ≡ n1
      → length p.session.buffer_2 ≡ n2
      → length p.frame.cells ≡ cells
      → len < i + rounds
      → 0 < rounds
      → (q : Put) × (put_loop rounds h packet len p ≡ finished q)
        × (length q.session.buffer_1 ≡ n1)
        × (length q.session.buffer_2 ≡ n2)
  unfolding put_loop Went
  loop_finishes zero i cells p f ei e1 e2 ec enough pos = elim pos [ ]
  loop_finishes (suc rounds) i cells p (last _ _ over) ei e1 e2 ec enough pos =
      let out : ltb (p.i + 2) len ≡ false = ground arith in rw (put_loop, out) (p, refl, e1, e2)
  loop_finishes (suc rounds) i cells p (then_more _ _ more moves room space f) ei e1 e2 ec enough
        pos =
      let inside : ltb (p.i + 2) len ≡ true = ground arith in
      let same : frame_bytes packet p.i ≡ frame_bytes packet i = ap (frame_bytes packet) ei in
      let fits : HasRoom packet (length p.session.buffer_1) (length p.session.buffer_2) p.i =
        rw (e1, e2, ei) room in
      let w = put_step-Went h packet p fits (omega (arith, same, space, ec)) in
      let q = w.0 in
      let moved : q.i ≡ i + advance packet i = rw (← ei) (put_step-advance h packet p q w.1) in
      rw (put_loop, inside, w.1)
        (loop_finishes rounds (i + advance packet i) (cells - frame_bytes packet i) q f moved
          (w.2 ∙ e1) (w.3 ∙ e2) (omega (arith, w.4, same, ec)) (omega arith) (omega arith))

-- The arrays keep their sizes.
pub record SameSizes (s t : Session) : Type 0 where
  pub name_size : length t.buffer_1 ≡ length s.buffer_1
  pub contents_size : length t.buffer_2 ≡ length s.buffer_2

-- A handler that returns, from `s`.
unfoldable pub Returns : Session → Outcome → Type 0
Returns s o = (t : Session) × (o ≡ done t) × SameSizes s t

write_ack_room : (f c t : ℕ) → Written 15 zeroed (write_ack f c t zeroed)
unfolding write_ack ack_head zeroed
write_ack_room f c t = frame_room (ack_head f c t) 6 zeroed (omega arith)

write_connect_room :
    (f c n : ℕ) (b : Buffer) → 27 ≤ length b.cells → Written 27 b (write_connect f c n b)
unfolding write_connect connect_head
write_connect_room f c n b room = frame_room (connect_head f c n) 18 b room

module _ (s : Session) (packet : Packet) (len : ℕ) where
  -- After the acknowledgement the whole command buffer is free.
  Started : Option Partial → Type 0
  Started o =
      (t : Partial) × (o ≡ some t)
      × (t.session.buffer_1 ≡ s.buffer_1)
      × (t.session.buffer_2 ≡ s.buffer_2)
      × (length t.frame.cells ≡ 300)

  obex_ack-Started : (h : Header) → Started (obex_ack h s)
  unfolding Started obex_ack rewind contents zeroed queue_packet
  obex_ack-Started h =
      if_both Started ((h.obex_txseq / 2 + 1) % 8 == 0)
        (λ _.
          let (b, e, cells, written) =
            write_ack_room h.acl_flags s.src_cid (h.obex_txseq / 2 + 1) in
          rw e
            (_, refl, refl, refl, omega (arith, cells, written, length-append b.written b.cells)))
        (λ _. (_, refl, refl, refl, refl))

  obex_connect-Returns :
      (h : Header) (t : Partial)
      → t.session.buffer_1 ≡ s.buffer_1
      → t.session.buffer_2 ≡ s.buffer_2
      → length t.frame.cells ≡ 300
      → Returns s (obex_connect h t)
  unfolding Returns obex_connect queue_packet
  obex_connect-Returns h t e1 e2 room =
      let (b, e, w, v) =
        write_connect_room h.acl_flags t.session.src_cid t.session.obex_conn_id t.frame
          (omega (arith, room)) in
      rw (obex_connect, e)
        (_, refl, record { name_size = ap length e1; contents_size = ap length e2 })

  after_put-Returns :
      (q : Put)
      → length q.session.buffer_1 ≡ length s.buffer_1
      → length q.session.buffer_2 ≡ length s.buffer_2
      → Returns s (after_put (finished q))
  unfolding Returns after_put queue_packet
  after_put-Returns q a b =
      if_both (λ t. Returns s (done t)) q.send
        (λ _. (_, refl, record { name_size = a; contents_size = b }))
        (λ _. (_, refl, record { name_size = a; contents_size = b }))

  obex_put-Returns :
      (h : Header) (t : Partial)
      → t.session.buffer_1 ≡ s.buffer_1
      → t.session.buffer_2 ≡ s.buffer_2
      → length t.frame.cells ≡ 300
      → Fitting packet len (length s.buffer_1) (length s.buffer_2) 14 300
      → Returns s (obex_put h packet len t)
  unfolding Returns obex_put
  obex_put-Returns h t e1 e2 ec f =
      let (q, e, a, b) =
        loop_finishes h packet len (length s.buffer_1) (length s.buffer_2) (suc len) 14 300
          (record { session = t.session; frame = t.frame; send = false; i = 14 }) f refl
          (ap length e1) (ap length e2) ec (omega arith) (omega arith) in
      rw e (after_put-Returns q a b)

  HasFitting : Type 0
  HasFitting =
      (bit_and (packet 11) 0b01111111 ≢ 2)
      ⊎ Fitting packet len (length s.buffer_1) (length s.buffer_2) 14 300

  obex_command-Returns :
      (t : Partial)
      → t.session.buffer_1 ≡ s.buffer_1
      → t.session.buffer_2 ≡ s.buffer_2
      → length t.frame.cells ≡ 300
      → HasFitting
      → Returns s (obex_command (header packet) packet len t)
  unfolding Returns obex_command HasFitting
  obex_command-Returns t e1 e2 ec fits =
      let same : SameSizes s t.session = record {
        name_size = ap length e1;
        contents_size = ap length e2;
      } in
      if_both (Returns s) (bit_and (packet 9) 1 == 0)
        (λ _.
          if_both (Returns s) (bit_and (packet 11) 127 == 0)
            (λ _. obex_connect-Returns (header packet) t e1 e2 ec)
            (λ _.
              if_both (Returns s) (bit_and (packet 11) 127 == 2)
                (λ put. elim fits [
                  | inl n ↦ absurd (ground arith)
                  | inr f ↦ obex_put-Returns (header packet) t e1 e2 ec f
                ])
                (λ _. (_, refl, same))))
        (λ _. (_, refl, same))

  pub obex_ftp-Returns :
      (bit_and (packet 11) 0b01111111 ≢ 2)
        ⊎ Fitting packet len (length s.buffer_1) (length s.buffer_2) 14 300
      → Returns s (obex_ftp s packet len)
  unfolding Started obex_ftp Returns HasFitting
  obex_ftp-Returns fits =
      let (t, e, e1, e2, ec) = obex_ack-Started (header packet) in
      rw (obex_ftp, e) (obex_command-Returns t e1 e2 ec fits)

  -- `obex_ftp` returns: it neither hangs nor writes past the end of an array, if the packet is no
  -- PUT or its headers are a chain of known headers to its end, each with room for the name and
  -- the body in the caller's arrays and all with room for their answers in the command buffer.
  pub obex_ftp-done :
      (bit_and (packet 11) 0b01111111 ≢ 2)
        ⊎ Fitting packet len (length s.buffer_1) (length s.buffer_2) 14 300
      → (t : Session) × (obex_ftp s packet len ≡ done t)
  unfolding Returns
  obex_ftp-done fits = let (t, e, _) = obex_ftp-Returns fits in (t, e)
