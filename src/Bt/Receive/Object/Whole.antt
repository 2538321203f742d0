-- ===== src/Bt/Receive/Object/Whole.antt =====
-- A whole PUT, from `obex_ftp` (blue/bt_main.c) to what a receiver keeps.
use hydroponic_closet.Prelude.{
  ℕ, suc, ◌<◌, ◌≡◌, refl, false, some, arith, inr, bit_and, on_some, Bool-cases, inl, sym, ap, ◌==◌,
}
use hydroponic_closet.Bt.State.{Packet, Session, Outcome, done, overrun, hang, queue_packet}
use hydroponic_closet.Bt.Obex.{write_connect}
use hydroponic_closet.Bt.Put.{Put, PutEnd, finished, overflow, endless}
use hydroponic_closet.Bt.Handler.{
  Partial, header, obex_ack, obex_connect, after_put, obex_put, obex_command, obex_ftp,
}
use hydroponic_closet.Bt.Receive.Object.{
  ReceivedFile, received_file, receive_all, items, items_in, Leaves, put_loop-Leaves,
}

module _ (packet : Packet) (len : ℕ) (bytes : (j : ℕ) → packet j < 256) where
  -- What the handler leaves when it returns.
  Keeps : ReceivedFile → Outcome → Type 0
  Keeps f o = (t : Session) → o ≡ done t → received_file t ≡ f

  done_value : {s t : Session} → done s ≡ done t → s ≡ t
  done_value {s} e = ap (λ o. elim o [ done t ↦ t | overrun ↦ s | hang ↦ s ]) e

  after_put-Keeps :
      (f : ReceivedFile) (e : PutEnd)
      → ((q : Put) → e ≡ finished q → received_file q.session ≡ f)
      → Keeps f (after_put e)
  unfolding Keeps after_put queue_packet
  after_put-Keeps f (finished q) k = λ t e. ground (arith, k q refl)
  after_put-Keeps f overflow k = λ t e. cc
  after_put-Keeps f endless k = λ t e. cc

  obex_put-Keeps :
      (u : Partial)
      → Keeps
          (receive_all (received_file u.session) (items (suc len) packet len 14))
          (obex_put (header packet) packet len u)
  unfolding obex_put Leaves
  obex_put-Keeps u = after_put-Keeps _ _ (
      put_loop-Leaves (header packet) packet len bytes (suc len)
        (record { session = u.session; frame = u.frame; send = false; i = 14 }))

  acknowledged :
      (s : Session) (u : Partial)
      → obex_ack (header packet) s ≡ some u
      → received_file u.session ≡ received_file s
  unfolding obex_ack queue_packet
  acknowledged s u e = ground arith

  obex_command-Keeps :
      (u : Partial)
      → Keeps
          (receive_all (received_file u.session) (items_in packet len))
          (obex_command (header packet) packet len u)
  unfolding obex_command obex_connect Keeps queue_packet
  obex_command-Keeps u = elim (Bool-cases (bit_and (packet 9) 1 == 0)) [
    | inr e ↦ rw e (λ t f. cc)
    | inl e ↦ elim (Bool-cases (bit_and (packet 11) 0b01111111 == 0)) [
      | inl f ↦
          let other : (bit_and (packet 11) 0b01111111 == 2) ≡ false = ground arith in
          rw (e, f, other)
            (on_some (Keeps (received_file u.session))
              (write_connect _ u.session.src_cid u.session.obex_conn_id u.frame) (λ _ t g. cc)
              (λ b _ t g. sym (ap received_file (done_value g))))
      | inr f ↦ elim (Bool-cases (bit_and (packet 11) 0b01111111 == 2)) [
        | inl g ↦ rw (e, f, g) (obex_put-Keeps u)
        | inr g ↦ rw (e, f, g) (λ t h. cc)
      ]
    ]
  ]

  obex_ftp-Keeps :
      (s : Session)
      → Keeps (receive_all (received_file s) (items_in packet len)) (obex_ftp s packet len)
  unfolding obex_ftp Keeps
  obex_ftp-Keeps s =
      on_some
        (λ o.
          (t : Session)
          → o ≡ done t
          → received_file t ≡ receive_all (received_file s) (items_in packet len))
        (obex_ack (header packet) s) (λ _ t e. cc)
        (λ u a. rw (← acknowledged s u a) (obex_command-Keeps u))

  -- If `obex_ftp` returns, each of the packet's items has in turn replaced the one of its kind.
  pub obex_ftp-file :
      (s t : Session)
      → obex_ftp s packet len ≡ done t
      → received_file t ≡ receive_all (received_file s) (items_in packet len)
  unfolding Keeps
  obex_ftp-file s = obex_ftp-Keeps s
