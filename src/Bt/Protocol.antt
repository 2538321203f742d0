-- ===== src/Bt/Protocol.antt =====
-- The signalling channel of `l2cap_cmd_handler` (blue/bt_main.c) as a protocol: requests, messages
-- in answer and the channels that both ends have agreed on, without the layout of a packet.
pub mod Wire
pub mod Refines
pub mod Signalling
pub mod Obex
pub mod Discovery
pub mod Server
use hydroponic_closet.Prelude.{ℕ, ◌+◌, Bool, List, [], ◌∷◌, u8, u16, if◌then◌else◌}

-- The channels: the peer's, the one that is assigned next, that of OBEX, and the transfer size.
pub record Channels : Type 0 where
  pub peer : ℕ
  pub next : ℕ
  pub obex : ℕ
  pub mtu : ℕ

-- What a configuration request asks for: a transfer size, a mode of the channel, or both.
pub data Wanted : Type 0 where
  size_only size_and_mode : ℕ → Wanted
  basic_mode retransmission_mode : Wanted
  not_understood : Wanted

-- Each with its identifier.
pub data PeerRequest : Type 0 where
  features_request channels_request : ℕ → PeerRequest
  connection_request : ℕ → Bool → ℕ → PeerRequest  -- is it for OBEX?, the peer's channel
  configuration_request : ℕ → Wanted → PeerRequest
  configuration_response : ℕ → PeerRequest
  disconnection_request : ℕ → ℕ → ℕ → PeerRequest  -- the closet's channel, the peer's
  ignored : PeerRequest

-- Retransmission and flow control of a channel.
pub record Flow : Type 0 where
  pub mode : ℕ  -- 0 basic, 3 retransmission
  pub window : ℕ
  pub transmissions : ℕ
  pub retransmission_timeout : ℕ  -- milliseconds
  pub monitor_timeout : ℕ
  pub unit_size : ℕ  -- the longest segment

pub data Setting : Type 0 where
  transfer_size : ℕ → Setting
  flow : Flow → Setting

pub data Message : Type 0 where
  features_response channels_response : ℕ → Message
  connection_response : ℕ → ℕ → ℕ → Message  -- accepted: the closet's channel, the peer's
  ask_configuration : ℕ → ℕ → List Setting → Message
  answer_configuration : ℕ → ℕ → List Setting → Message  -- with the result "success"
  disconnection_response : ℕ → ℕ → ℕ → Message
  blank : Message

-- What the closet asks for itself.
abbrev pub obex_flow : Flow
obex_flow = record {
  mode = 3;
  window = 63;
  transmissions = 3;
  retransmission_timeout = 2000;
  monitor_timeout = 12000;
  unit_size = 1012;
}

abbrev pub basic_flow : Flow
basic_flow = record {
  mode = 0;
  window = 0;
  transmissions = 0;
  retransmission_timeout = 0;
  monitor_timeout = 0;
  unit_size = 0;
}

-- What it grants to the peer.
abbrev pub granted_flow : Flow
granted_flow = record {
  mode = 3;
  window = 10;
  transmissions = 20;
  retransmission_timeout = 2000;
  monitor_timeout = 12000;
  unit_size = 1010;
}

-- A peer that names a mode only is not answered, but asked in turn.
abbrev pub configure : ℕ → Wanted → Channels → Channels × List Message
configure i (size_only n) c =
    (record c { mtu = u16 n }, answer_configuration i c.peer (transfer_size n ∷ []) ∷ [])
configure i (size_and_mode n) c = (
  record c { mtu = u16 n },
  answer_configuration i c.peer (transfer_size (u16 n) ∷ flow granted_flow ∷ []) ∷ [],
)
configure i basic_mode c =
    (record c { mtu = 1024 }, ask_configuration i c.peer (transfer_size 1024 ∷ []) ∷ [])
configure i retransmission_mode c = (
  record c { mtu = 1024 },
  ask_configuration i c.peer (transfer_size 1024 ∷ flow granted_flow ∷ []) ∷ [],
)
configure i not_understood c = (c, blank ∷ [])

-- A channel is given to each peer that asks, and configured by the closet at once. The number of
-- the OBEX channel is kept as a byte.
abbrev pub open_channel : ℕ → Bool → ℕ → Channels → Channels × List Message
open_channel i for_obex peer c = (
  record {
    peer = peer;
    next = u16 (c.next + 1);
    obex = if for_obex then u8 c.next else c.obex;
    mtu = c.mtu;
  },
  connection_response i c.next peer
      ∷ ask_configuration (u8 (i + 1)) peer (flow (if for_obex then obex_flow else basic_flow) ∷ [])
      ∷ [],
)

abbrev pub respond : PeerRequest → Channels → Channels × List Message
respond (features_request i) c = (c, features_response i ∷ [])
respond (channels_request i) c = (c, channels_response i ∷ [])
respond (connection_request i for_obex peer) c = open_channel i for_obex peer c
respond (configuration_request i wanted) c = configure i wanted c
respond (configuration_response i) c = (c, answer_configuration i c.peer [] ∷ [])
respond (disconnection_request i mine theirs) c = (c, disconnection_response i mine theirs ∷ [])
respond ignored c = (c, [])
