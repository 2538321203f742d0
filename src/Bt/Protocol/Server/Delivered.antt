-- ===== src/Bt/Protocol/Server/Delivered.antt =====
-- From the packets that the callback is handed to those that the controller gets (blue/bt_main.c).
use hydroponic_closet.Prelude.{ℕ, ◌≡◌, ◌∙◌, ap, true, List, [], length, replicate, arith}
use hydroponic_closet.Bt.State.{Packet, Session, done}
use hydroponic_closet.Bt.Handler.{serve}
use hydroponic_closet.Bt.Transport.{Queue, send_buffer_size, send_round, Link, run}
use hydroponic_closet.Bt.Transport.Delivery.{alternate, all_delivered}
use hydroponic_closet.Bt.Protocol.Server.{Server, steps, AreRequests}
use hydroponic_closet.Bt.Protocol.Server.Taken.{server_of}
use hydroponic_closet.Bt.Protocol.Server.Steps.{serve-steps}

module _ (api : Queue) where
  open api use {held}

  -- If the callback is handed packets of which each, if it comes on the OBEX channel of its time,
  -- consists of bytes and is no PUT or a chain of known headers with room for what it holds, it
  -- returns from all of them; and if the send queue was empty and the callback tries to queue each of
  -- its answers after a round of `send`, then behind SEND_BUFFER_SIZE rounds more the controller, if
  -- it takes a packet in each round, has been handed exactly the packets that the server has sent, in
  -- order.
  pub sent_delivered :
      (packets : List (Packet × ℕ)) (s : Session) (l : Link api)
      → AreRequests (length s.buffer_1) (length s.buffer_2) (server_of s) packets
      → held l.queue ≡ []
      → l.delivered ≡ []
      → (t : Session) × (serve s packets ≡ done t)
        × ((run api
              (replicate send_buffer_size (send_round true))
              (run api (alternate t.queued) (record l { host = t.queued }))).delivered
            ≡ (steps (server_of s) packets).sent)
  sent_delivered packets s l requests empty nothing =
      let (t, e, f) = serve-steps packets s requests in
      (
        t,
        e,
        all_delivered api (record l { host = t.queued }) (rw empty (omega arith))
            ∙ rw (empty, nothing) (ap (λ (v : Server). v.sent) f),
      )
