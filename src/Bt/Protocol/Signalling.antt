-- ===== src/Bt/Protocol/Signalling.antt =====
-- A run of packets on the signalling channel (`host_rcv_pkt` in blue/bt_main.c) keeps to the protocol.
use hydroponic_closet.Prelude.{ℕ, ◌≡◌, refl, ap, ◌∙◌, List, [], ◌∷◌, All, u16, arith}
use hydroponic_closet.Bt.State.{Packet, Session, done, overrun, hang, word}
use hydroponic_closet.Bt.Signal.{l2cap_signal}
use hydroponic_closet.Bt.Handler.{host_rcv_pkt, l2cap_cmd_handler, serve}
use hydroponic_closet.Bt.Protocol.{respond}
use hydroponic_closet.Bt.Protocol.Wire.{request_of}
use hydroponic_closet.Bt.Protocol.Refines.{channels_of, after_step, l2cap_signal-refines}

-- The protocol over a run of packets.
abbrev pub keeps_to : Session → List (Packet × ℕ) → Session
keeps_to s [] = s
keeps_to s ((packet, len) ∷ rest) =
    keeps_to (after_step packet s (respond (request_of packet len) (channels_of s))) rest

-- An ACL packet on the signalling channel.
abbrev pub IsSignalling : Packet × ℕ → Type 0
IsSignalling (packet, len) = (packet 0 ≡ 0x02) × (u16 (word packet 8 7) ≡ 0x01)

pub signalled :
    (s : Session) (packet : Packet) (len : ℕ)
    → IsSignalling (packet, len)
    → host_rcv_pkt s packet len ≡ done (l2cap_signal s packet len)
unfolding host_rcv_pkt l2cap_cmd_handler
signalled s packet len h = ground arith

-- Whatever packets come in on the signalling channel, one after the other: the callback returns from
-- all of them, the globals for the channels and the queue end up as the protocol says, with the
-- messages in complete frames behind what was queued before, and no other global changes.
pub serve-refines :
    (packets : List (Packet × ℕ)) (s : Session)
    → All IsSignalling packets
    → serve s packets ≡ done (keeps_to s packets)
unfolding serve
serve-refines [] s h = refl
serve-refines ((packet, len) ∷ rest) s h =
    ap (λ o. elim o [ done t ↦ serve t rest | overrun ↦ overrun | hang ↦ hang ])
      (signalled s packet len h.0 ∙ ap done (l2cap_signal-refines s packet len))
    ∙ serve-refines rest _ h.1
