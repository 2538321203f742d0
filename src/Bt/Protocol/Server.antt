-- ===== src/Bt/Protocol/Server.antt =====
-- The Bluetooth side of the closet (`host_rcv_pkt` of blue/bt_main.c) as a server: channels, a file
-- and the packets that the controller is to get, without arrays, buffers and offsets.
pub mod Kept
pub mod Taken
pub mod Steps
pub mod Delivered
use Prim.{Unit}
use hydroponic_closet.Prelude.{
  ℕ, ◌<◌, ◌≡◌, ◌≢◌, ◌⊎◌, List, [], ◌∷◌, ◌++◌, map, bit_and, u16, ◌==◌, if◌then◌else◌,
}
use hydroponic_closet.Bt.State.{Packet, word}
use hydroponic_closet.Bt.Transport.{payload}
use hydroponic_closet.Bt.Receive.Room.{Fitting}
use hydroponic_closet.Bt.Receive.Object.{ReceivedFile, receive_all, items_in}
use hydroponic_closet.Bt.Protocol.{Channels, Message, respond}
use hydroponic_closet.Bt.Protocol.Wire.{entry, request_of}
use hydroponic_closet.Bt.Framing.Command
use hydroponic_closet.Bt.Protocol.Discovery.{found_records}
use hydroponic_closet.Bt.Protocol.Obex.{frame_of, answers}

pub record Server : Type 0 where
  pub channels : Channels
  pub file : ReceivedFile
  pub connected : ℕ
  pub identifier : ℕ  -- of the OBEX connection
  pub sent : List (List ℕ)

abbrev pub after_signal : Packet → Server → Channels × List Message → Server
after_signal packet v (c, messages) = record v {
  channels = c;
  sent =
      v.sent ++ map payload (map (entry (u16 (word packet 2 1)) (u16 (word packet 8 7))) messages);
}

abbrev pub after_transfer : Packet → ℕ → Server → Server
after_transfer packet len v = record v {
  file = receive_all v.file (items_in packet len);
  sent =
      v.sent
      ++ map (frame_of (u16 (word packet 2 1)) v.channels.peer) (answers packet len v.identifier);
}

-- Of the events of the controller, requests for a connection or for the pairing code are answered.
-- Of the ACL packets, those on the signalling channel are requests of the protocol, those on the
-- OBEX channel belong to a file transfer, and any other is for service discovery.
abbrev pub step : Server → Packet × ℕ → Server
step v (packet, len) =
    if packet 0 == 0x04
    then record v { sent = v.sent ++ Command.answers v.connected packet }
    else if packet 0 == 0x02
    then (if u16 (word packet 8 7) == 0x01
        then after_signal packet v (respond (request_of packet len) v.channels)
        else if u16 (word packet 8 7) == v.channels.obex
        then after_transfer packet len v
        else record v { sent = v.sent ++ found_records packet v.channels.peer })
    else v

abbrev pub steps : Server → List (Packet × ℕ) → Server
steps v [] = v
steps v (x ∷ xs) = steps (step v x) xs

-- A packet outside the OBEX channel, or one of bytes on it that is no PUT or whose headers are a
-- chain of known ones to its end, with room for a name of less than `n` bytes, for contents of less
-- than `m` and for the answers.
pub data IsRequest (n m : ℕ) (v : Server) : Packet × ℕ → Type 0 where
  elsewhere :
      {packet : Packet} {len : ℕ}
      → (packet 0 ≢ 0x02)
        ⊎ (u16 (word packet 8 7) ≡ 0x01)
        ⊎ (u16 (word packet 8 7) ≢ v.channels.obex)
      → IsRequest n m v (packet, len)
  transfer :
      {packet : Packet} {len : ℕ}
      → packet 0 ≡ 0x02
      → u16 (word packet 8 7) ≢ 0x01
      → u16 (word packet 8 7) ≡ v.channels.obex
      → ((j : ℕ) → packet j < 256)
      → (bit_and (packet 11) 0b01111111 ≢ 2) ⊎ Fitting packet len n m 14 300
      → IsRequest n m v (packet, len)

-- Each packet of a run is such at its time.
abbrev pub AreRequests : ℕ → ℕ → Server → List (Packet × ℕ) → Type 0
AreRequests n m v [] = Unit
AreRequests n m v (x ∷ xs) = IsRequest n m v x × AreRequests n m (step v x) xs
