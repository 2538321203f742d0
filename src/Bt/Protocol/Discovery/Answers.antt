-- ===== src/Bt/Protocol/Discovery/Answers.antt =====
-- What `l2cap_cmd_handler` (blue/bt_main.c) answers to service discovery.
use mathlib.Core.List.{append-nil}
use hydroponic_closet.Prelude.{
  ℕ, ◌≡◌, refl, sym, ◌++◌, map, Bool-cases, inl, inr, ◌&&◌, ◌||◌, ◌==◌, u16,
}
use hydroponic_closet.Bt.Stream.{zeroed, overlay}
use hydroponic_closet.Bt.State.{Packet, Session, word}
use hydroponic_closet.Bt.Sdp.{services, device_id, sdp_request}
use hydroponic_closet.Bt.Transport.{payload}
use hydroponic_closet.Bt.Framing.Command.{queued_one}
use hydroponic_closet.Bt.Protocol.Discovery.{
  element_bytes, obex_service, device_service, record_frame, found_records,
}

services_lem :
    (packet : Packet) (cid : ℕ)
    → payload (overlay (services (u16 (word packet 2 1)) cid packet) zeroed.cells)
      ≡ record_frame packet cid obex_service
unfolding services payload overlay zeroed element_bytes
services_lem packet cid = refl

device_id_lem :
    (packet : Packet) (cid : ℕ)
    → payload (overlay (device_id (u16 (word packet 2 1)) cid packet) zeroed.cells)
      ≡ record_frame packet cid device_service
unfolding device_id payload overlay zeroed element_bytes
device_id_lem packet cid = refl

-- The packets that are queued in answer to service discovery hold the records that were asked for.
pub sdp_request-answers :
    (s : Session) (packet : Packet)
    → map payload (sdp_request s packet).queued
      ≡ map payload s.queued ++ found_records packet s.src_cid
unfolding sdp_request found_records
sdp_request-answers s packet =
    let none_sent = sym (append-nil (map payload s.queued)) in
    elim (Bool-cases (packet 9 == 0x06)) [
      | inr e ↦ rw e none_sent
      | inl e ↦
          elim (Bool-cases
            (packet 17 == 0x01 && packet 18 == 0x00 || packet 17 == 0x11 && packet 18 == 0x05)) [
              | inl f ↦ rw (e, f) (queued_one s _ _ (services_lem packet s.src_cid))
              | inr f ↦ elim (Bool-cases (packet 17 == 0x12 && packet 18 == 0x00)) [
                | inl g ↦ rw (e, f, g) (queued_one s _ _ (device_id_lem packet s.src_cid))
                | inr g ↦ rw (e, f, g) none_sent
              ]
            ]
    ]
