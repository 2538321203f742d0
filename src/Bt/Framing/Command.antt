-- ===== src/Bt/Framing/Command.antt =====
-- What `hci_event_handler` has the controller do.
use mathlib.Core.List.{map-append, append-nil}
use hydroponic_closet.Prelude.{
  ℕ, Bool, true, false, ◌≡◌, refl, sym, List, [], ◌∷◌, ◌++◌, map, replicate, u8, ◌==◌,
  if◌then◌else◌,
}
use hydroponic_closet.Bt.Stream.{zeroed, overlay}
use hydroponic_closet.Bt.State.{Packet, Session, queue_packet}
use hydroponic_closet.Bt.Signal.{reply}
use hydroponic_closet.Bt.Hci.{pin, conn_answer, pin_answer, hci_event_handler}
use hydroponic_closet.Bt.Transport.{payload}
use hydroponic_closet.Bt.Framing.Format.{command}

-- The six bytes of the device address in an event.
abbrev pub address : Packet → List ℕ
address packet =
    u8 (packet 3)
    ∷ u8 (packet 4)
    ∷ u8 (packet 5)
    ∷ u8 (packet 6)
    ∷ u8 (packet 7)
    ∷ u8 (packet 8)
    ∷ []

-- What is sent in answer to an event.
abbrev pub answers : ℕ → Packet → List (List ℕ)
answers connected packet =
    if packet 1 == 0x04
    then command (if connected == 0 then 0x0409 else 0x040a) (address packet ++ 1 ∷ []) ∷ []
    else if packet 1 == 0x16
    then command 0x040d (address packet ++ 4 ∷ pin ++ replicate 12 0) ∷ []
    else []

pub conn_answer_lem :
    (opcode : ℕ) (packet : Packet)
    → payload (overlay (conn_answer opcode packet) zeroed.cells)
      ≡ command opcode (address packet ++ 1 ∷ [])
unfolding conn_answer payload overlay zeroed
conn_answer_lem opcode packet = refl

pub pin_answer_lem :
    (packet : Packet)
    → payload (overlay (pin_answer packet) zeroed.cells)
      ≡ command 0x040d (address packet ++ 4 ∷ pin ++ replicate 12 0)
unfolding pin_answer payload overlay zeroed
pin_answer_lem packet = refl

-- One more packet.
pub queued_one :
    (s : Session) (entry bs : List ℕ)
    → payload entry ≡ bs
    → map payload (queue_packet entry s).queued ≡ map payload s.queued ++ bs ∷ []
unfolding queue_packet
queued_one s entry bs e = rw (map-append payload s.queued (entry ∷ []), e)

module _ (s : Session) (packet : Packet) where
  -- The same with the three tests as given.
  answered :
      (request accept code : Bool)
      → map payload
          (if request
            then (if accept
                then reply (conn_answer 0x0409 packet) s
                else reply (conn_answer 0x040a packet) s)
            else if code
            then reply (pin_answer packet) s
            else s).queued
        ≡ map payload s.queued
          ++ (if request
              then command (if accept then 0x0409 else 0x040a) (address packet ++ 1 ∷ []) ∷ []
              else if code
              then command 0x040d (address packet ++ 4 ∷ pin ++ replicate 12 0) ∷ []
              else [])
  answered true true code = queued_one s _ _ (conn_answer_lem 0x0409 packet)
  answered true false code = queued_one s _ _ (conn_answer_lem 0x040a packet)
  answered false accept true = queued_one s _ _ (pin_answer_lem packet)
  answered false accept false = sym (append-nil (map payload s.queued))

  -- A connection request is answered by a command that accepts the connection with the address in
  -- the event, as the slave, or, if `connected` is not 0, by one that rejects it; a request for the
  -- pairing code by a command with the address, the length of the code and the code, padded with
  -- zeros to 23 bytes; no other event is answered. These are the payloads that are queued, behind
  -- those of before.
  pub hci_event_handler_lem :
      map payload (hci_event_handler s packet).queued
      ≡ map payload s.queued ++ answers s.connected packet
  unfolding hci_event_handler
  hci_event_handler_lem = answered (packet 1 == 0x04) (s.connected == 0) (packet 1 == 0x16)
