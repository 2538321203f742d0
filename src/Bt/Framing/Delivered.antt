-- ===== src/Bt/Framing/Delivered.antt =====
-- What the controller gets of the callback's answers (blue/bt_main.c), handlers and queue together.
use mathlib.Core.Path.{subst}
use hydroponic_closet.Prelude.{ℕ, ◌≡◌, ◌∙◌, refl, true, List, [], All, map, replicate, arith}
use hydroponic_closet.Bt.State.{Packet, Session, done}
use hydroponic_closet.Bt.Handler.{serve}
use hydroponic_closet.Bt.Transport.{Queue, send_buffer_size, payload, send_round, Link, run}
use hydroponic_closet.Bt.Transport.Delivery.{alternate, all_delivered}
use hydroponic_closet.Bt.Framing.Obex.{Returned}
use hydroponic_closet.Bt.Framing.Traffic.{IsSound, Sound, serve-Sound}

-- What was delivered is the payloads of well-formed entries, in order.
pub record IsDelivered (queued delivered : List (List ℕ)) : Type 0 where
  pub well_formed : All IsSound queued
  pub in_order : delivered ≡ map payload queued

served-All :
    (s t : Session) (packets : List (Packet × ℕ))
    → s.queued ≡ []
    → serve s packets ≡ done t
    → All IsSound t.queued
served-All s t packets none_queued served =
    let a : Sound s t = subst (Returned (Sound s)) served (serve-Sound packets s) in
    rw (a.grown, none_queued) a.kind

module _ (api : Queue) where
  open api use {Q, held}

  -- If the callback returns from the packets of a connection that finds the queue empty, and tries
  -- to queue each of its answers after a round of `send`, then behind SEND_BUFFER_SIZE rounds more
  -- the controller, if it takes a packet in each round, has been handed the payloads of all
  -- answers in order, and each answer is a well-formed packet or has an empty payload.
  pub answers_delivered :
      (s t : Session) (packets : List (Packet × ℕ)) (l : Link api)
      → s.queued ≡ []
      → serve s packets ≡ done t
      → l.host ≡ t.queued
      → held l.queue ≡ []
      → l.delivered ≡ []
      → IsDelivered t.queued
          (run api
            (replicate send_buffer_size (send_round true))
            (run api (alternate l.host) l)).delivered
  answers_delivered s t packets l none_queued served handed empty nothing = record {
    well_formed = served-All s t packets none_queued served;
    in_order = all_delivered api l (rw empty (omega arith)) ∙ rw (empty, nothing, handed) refl;
  }
