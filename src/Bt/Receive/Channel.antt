-- ===== src/Bt/Receive/Channel.antt =====
-- Which packets of a connection reach `obex_ftp` (blue/bt_main.c).
use mathlib.Core.Path.{subst}
use hydroponic_closet.Prelude.{ℕ, ◌≡◌, ◌≢◌, true, List, ◌∷◌, ◌==◌, arith, u8, u16, if◌then◌else◌}
use hydroponic_closet.Bt.State.{Packet, Session, done, overrun, hang, word, queue_packet}
use hydroponic_closet.Bt.Signal.{conn_req, l2cap_signal}
use hydroponic_closet.Bt.Sdp.{sdp_request}
use hydroponic_closet.Bt.Handler.{obex_ftp, l2cap_cmd_handler, host_rcv_pkt, serve}
use hydroponic_closet.Bt.Framing.Obex.{Returned}
use hydroponic_closet.Bt.Receive.Open.{is_obex_request, IsOpen, NoneRequests, serve-IsOpen}

module _ (s : Session) (request : Packet) (len : ℕ) where
  opens :
      is_obex_request request ≡ true
      → (t : Session) × (host_rcv_pkt s request len ≡ done t) × IsOpen (u8 s.dest_cid) t
  unfolding host_rcv_pkt l2cap_cmd_handler l2cap_signal conn_req queue_packet
  opens e = (l2cap_signal s request len, ground arith, ground arith)

  opened :
      (packets : List (Packet × ℕ)) (u : Session)
      → is_obex_request request ≡ true
      → NoneRequests packets
      → serve s ((request, len) ∷ packets) ≡ done u
      → IsOpen (u8 s.dest_cid) u
  unfolding serve
  opened packets u e others served =
      let (t, first, k) = opens e in
      let rest : serve t packets ≡ done u =
        subst (λ o. elim o [ done t ↦ serve t packets | overrun ↦ overrun | hang ↦ hang ] ≡ done u)
          first served in
      subst (Returned (IsOpen (u8 s.dest_cid))) rest
        (serve-IsOpen (u8 s.dest_cid) packets t others k)

  -- When the callback has returned from a request for an OBEX channel and then from any packets
  -- without a further one, it hands an ACL packet outside the signalling channel to `obex_ftp`
  -- exactly if its channel is the low byte of the one that was assigned, and to service discovery
  -- if not.
  pub host_rcv_pkt-opened :
      (packets : List (Packet × ℕ)) (u : Session) (p : Packet) (n : ℕ)
      → is_obex_request request ≡ true
      → NoneRequests packets
      → serve s ((request, len) ∷ packets) ≡ done u
      → p 0 ≡ 0x02
      → u16 (word p 8 7) ≢ 0x01
      → host_rcv_pkt u p n
        ≡ (if u16 (word p 8 7) == u8 s.dest_cid then obex_ftp u p n else done (sdp_request u p))
  unfolding host_rcv_pkt l2cap_cmd_handler
  host_rcv_pkt-opened packets u p n e others served acl other =
      let k = opened packets u e others served in ground arith
