-- ===== src/Bt/Entry/Queued.antt =====
-- All entries of the send queue, over any run of packets (bt_main.c).
use mathlib.Core.Path.{subst}
use hydroponic_closet.Prelude.{
  ℕ, suc, ◌+◌, ◌/◌, ◌%◌, ◌≡◌, refl, List, some, if_both, on_some, ◌==◌, bit_and, u16,
}
use hydroponic_closet.Bt.Stream.{Buffer, contents, zeroed}
use hydroponic_closet.Bt.State.{Packet, Session, word, queue_packet}
use hydroponic_closet.Bt.Obex.{write_ack, write_connect}
use hydroponic_closet.Bt.Put.{PutEnd, finished, overflow, endless}
use hydroponic_closet.Bt.Handler.{
  Partial, header, obex_ack, obex_connect, after_put, obex_put, obex_command, obex_ftp,
  l2cap_cmd_handler, host_rcv_pkt, serve,
}
use hydroponic_closet.Bt.Framing.Signals.{Added-none, Added-snoc}
use hydroponic_closet.Bt.Framing.Obex.{Returned}
use hydroponic_closet.Bt.Framing.Serve.{serve-Added}
use hydroponic_closet.Bt.Framing.Loop.{KeptEnd, put_loop-Kept}
use hydroponic_closet.Bt.Entry.{IsEntry, IsFull, zeroed-IsFull, contents-IsEntry, rewind-IsFull}
use hydroponic_closet.Bt.Entry.Replies.{
  AddsEntries, l2cap_signal-AddsEntries, sdp_request-AddsEntries, hci_event_handler-AddsEntries,
}
use hydroponic_closet.Bt.Entry.Frames.{
  write_ack-IsFull, write_connect-IsFull, IsReady, put_step-Stays,
}

module _ (s : Session) (packet : Packet) where
  record Acknowledged (t : Partial) : Type 0 where
    added : AddsEntries s t.session
    frame_full : IsFull t.frame

  queued :
      (t : Session) (b : Buffer)
      → AddsEntries s t
      → IsFull b
      → AddsEntries s (queue_packet (contents b) t)
  queued t b a v = Added-snoc t (contents b) (contents-IsEntry b v) a

  obex_ack-Acknowledged : (t : Partial) → obex_ack (header packet) s ≡ some t → Acknowledged t
  unfolding obex_ack
  obex_ack-Acknowledged t =
      if_both (λ o. o ≡ some t → Acknowledged t) (((header packet).obex_txseq / 2 + 1) % 8 == 0)
        (λ _.
          on_some (λ o. o ≡ some t → Acknowledged t) (write_ack _ _ _ _) (λ _ e. cc)
            (λ b w.
              (let v = write_ack-IsFull _ _ zeroed b zeroed-IsFull _ w in
                same _ (record {
                  added = queued s b (Added-none s) v;
                  frame_full = rewind-IsFull b v;
                }))))
        (λ _. same _ (record { added = Added-none s; frame_full = zeroed-IsFull }))
    where
      same : (u : Partial) → Acknowledged u → some u ≡ some t → Acknowledged t
      same u a e = (let q : u ≡ t = cc in subst Acknowledged q a)

  obex_connect-AddsEntries :
      (t : Partial) → Acknowledged t → Returned (AddsEntries s) (obex_connect (header packet) t)
  unfolding obex_connect
  obex_connect-AddsEntries t a =
      on_some (Returned (AddsEntries s)) (write_connect _ _ _ _) (λ _. tt)
        (λ b w. queued t.session b a.added (write_connect-IsFull _ _ t.frame b a.frame_full _ w))

  after_put-AddsEntries :
      (e : PutEnd) → KeptEnd (IsReady s) e → Returned (AddsEntries s) (after_put e)
  unfolding after_put
  after_put-AddsEntries (finished p) k =
      let r = k p refl in
      if_both (AddsEntries s) p.send (λ _. queued p.session p.frame r.added r.frame_full)
        (λ _. r.added)
  after_put-AddsEntries overflow k = tt
  after_put-AddsEntries endless k = tt

  obex_command-AddsEntries :
      (len : ℕ) (t : Partial)
      → Acknowledged t
      → Returned (AddsEntries s) (obex_command (header packet) packet len t)
  unfolding obex_command obex_put
  obex_command-AddsEntries len t a =
      let R = Returned (AddsEntries s) in
      if_both R (bit_and (packet 9) 1 == 0)
        (λ _.
          if_both R (bit_and (packet 11) 127 == 0) (λ _. obex_connect-AddsEntries t a)
            (λ _.
              if_both R (bit_and (packet 11) 127 == 2)
                (λ _. after_put-AddsEntries _ (
                  put_loop-Kept (IsReady s) (header packet) packet
                    (put_step-Stays s (header packet) packet) (suc len) len _
                    (record { frame_full = a.frame_full; added = a.added })))
                (λ _. a.added)))
        (λ _. a.added)

  host_rcv_pkt-AddsEntries : (len : ℕ) → Returned (AddsEntries s) (host_rcv_pkt s packet len)
  unfolding host_rcv_pkt l2cap_cmd_handler obex_ftp
  host_rcv_pkt-AddsEntries len =
      let R = Returned (AddsEntries s) in
      if_both R (packet 0 == 4) (λ _. hci_event_handler-AddsEntries s packet)
        (λ _.
          if_both R (packet 0 == 2)
            (λ _.
              if_both R (u16 (word packet 8 7) == 1) (λ _. l2cap_signal-AddsEntries s packet len)
                (λ _.
                  if_both R (u16 (word packet 8 7) == s.obex_cid)
                    (λ _.
                      on_some R (obex_ack (header packet) s) (λ _. tt)
                        (λ t e. obex_command-AddsEntries len t (obex_ack-Acknowledged t e)))
                    (λ _. sdp_request-AddsEntries s packet)))
            (λ _. Added-none s))

-- Whatever packets the controller delivers: if the callback returns from all of them, each entry
-- that it queued is MAX_CMD_LEN bytes long, the size of a slot of the queue, and holds bytes only.
pub serve-IsEntry :
    (packets : List (Packet × ℕ)) (s : Session) → Returned (AddsEntries s) (serve s packets)
serve-IsEntry = serve-Added IsEntry host_rcv_pkt-AddsEntries
