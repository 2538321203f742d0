-- ===== src/Tests/Channel.antt =====
-- The OBEX channel of a connection at concrete inputs.
use Prim.{tt}
use hydroponic_closet.Prelude.{◌≡◌, refl, [], ◌∷◌, arith}
use hydroponic_closet.Bt.State.{Session, set_dir, queue_packet}
use hydroponic_closet.Bt.Config.{conf_req}
use hydroponic_closet.Bt.Signal.{l2cap_signal, conn_req, conf_req_case}
use hydroponic_closet.Bt.Handler.{host_rcv_pkt, l2cap_cmd_handler, obex_ftp, serve}
use hydroponic_closet.Bt.Receive.Channel.{host_rcv_pkt-opened}
use hydroponic_closet.Tests.Packets.{fresh, connect_request, conf_request, put_request}

-- Behind a request for the channel, which is 0x41, and one for its configuration.
abbrev configured : Session
configured = l2cap_signal (l2cap_signal fresh connect_request 17) conf_request 21

host_rcv_pkt-opened_example :
    host_rcv_pkt configured put_request 31 ≡ obex_ftp configured put_request 31
unfolding serve host_rcv_pkt l2cap_cmd_handler l2cap_signal conn_req conf_req_case conf_req
    queue_packet set_dir
host_rcv_pkt-opened_example =
    host_rcv_pkt-opened fresh connect_request 17 ((conf_request, 21) ∷ []) configured put_request 31
      refl (refl, tt) refl refl (omega arith)
