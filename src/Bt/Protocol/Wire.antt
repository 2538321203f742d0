-- ===== src/Bt/Protocol/Wire.antt =====
-- The messages and requests of the signalling channel as bytes, as the Bluetooth specification lays
-- them out.
use hydroponic_closet.Prelude.{
  ℕ, List, [], ◌∷◌, ◌++◌, Option, none, some, ◌&&◌, u8, u16, ltb, ◌==◌, if◌then◌else◌,
}
use hydroponic_closet.Bt.Codes.{
  l2cap_cmd, l2cap_cmd_conf_req, l2cap_cmd_conf_res, l2cap_cmd_conn_req, l2cap_cmd_disconn_req,
  l2cap_cmd_info_req,
}
use hydroponic_closet.Bt.Stream.{zeroed, overlay}
use hydroponic_closet.Bt.State.{Packet, word}
use hydroponic_closet.Bt.Config.{requested_mtu}
use hydroponic_closet.Bt.Signal.{is_obex}
use hydroponic_closet.Bt.Framing.Format.{le16, signal_packet}
use hydroponic_closet.Bt.Protocol.{
  Wanted, size_only, size_and_mode, basic_mode, retransmission_mode, not_understood, PeerRequest,
  features_request, channels_request, connection_request, configuration_request,
  configuration_response, disconnection_request, ignored, Setting, transfer_size, flow, Message,
  features_response, channels_response, connection_response, ask_configuration,
  answer_configuration, disconnection_response, blank,
}

-- A setting is its type, its length and its value.
abbrev pub setting_bytes : Setting → List ℕ
setting_bytes (transfer_size n) = 1 ∷ 2 ∷ le16 n
setting_bytes (flow f) =
    4 ∷ 9 ∷ f.mode ∷ f.window ∷ f.transmissions ∷ le16 f.retransmission_timeout
    ++ le16 f.monitor_timeout
    ++ le16 f.unit_size

abbrev pub settings_bytes : List Setting → List ℕ
settings_bytes [] = []
settings_bytes (x ∷ xs) = setting_bytes x ++ settings_bytes xs

-- The parts of a signalling command.
pub record Command : Type 0 where
  pub code : ℕ
  pub identifier : ℕ
  pub params : List ℕ

-- Type 2, success, and the mask 0x02b8 of the features; type 3, success, and the mask 0x86 of the
-- fixed channels.
abbrev pub command_of : Message → Option Command
command_of (features_response i) =
    some
      (record { code = 0x0b; identifier = i; params = le16 2 ++ le16 0 ++ le16 0x02b8 ++ le16 0 })
command_of (channels_response i) = some (record {
  code = 0x0b;
  identifier = i;
  params = le16 3 ++ le16 0 ++ le16 0x86 ++ le16 0 ++ le16 0 ++ le16 0;
})
command_of (connection_response i mine theirs) =
    some (record {
      code = 0x03;
      identifier = i;
      params = le16 mine ++ le16 theirs ++ le16 0 ++ le16 0;
    })
command_of (ask_configuration i theirs xs) =
    some
      (record { code = 0x04; identifier = i; params = le16 theirs ++ le16 0 ++ settings_bytes xs })
command_of (answer_configuration i theirs xs) = some (record {
  code = 0x05;
  identifier = i;
  params = le16 theirs ++ le16 0 ++ le16 0 ++ settings_bytes xs;
})
command_of (disconnection_response i mine theirs) =
    some (record { code = 0x07; identifier = i; params = le16 mine ++ le16 theirs })
command_of blank = none

abbrev pub packet_bytes : ℕ → ℕ → Option Command → List ℕ
packet_bytes flags cid none = []
packet_bytes flags cid (some c) = signal_packet flags cid c.code c.identifier c.params

-- The entry of the queue for a message, in a frame with the given flags on the given channel.
abbrev pub entry : ℕ → ℕ → Message → List ℕ
entry flags cid m = overlay (packet_bytes flags cid (command_of m)) zeroed.cells

-- What a configuration request wants: option 1 is the transfer size, option 4 the mode.
abbrev pub wanted : Packet → ℕ → Wanted
wanted packet len =
    if packet 17 == 1 && ltb len 22
    then size_only (requested_mtu packet)
    else if packet 17 == 1 && packet 21 == 4
    then size_and_mode (requested_mtu packet)
    else if packet 17 == 4 && packet 19 == 0
    then basic_mode
    else if packet 17 == 4 && packet 19 == 3
    then retransmission_mode
    else not_understood

-- What a packet on the signalling channel asks for.
unfoldable pub request_of : Packet → ℕ → PeerRequest
request_of packet len =
    let i = u8 (packet 10) in
    if packet 9 == l2cap_cmd l2cap_cmd_info_req
    then (if packet 13 == 2
        then features_request i
        else if packet 13 == 3
        then channels_request i
        else ignored)
    else if packet 9 == l2cap_cmd l2cap_cmd_conn_req
    then connection_request i (is_obex packet) (u16 (word packet 16 15))
    else if packet 9 == l2cap_cmd l2cap_cmd_conf_req
    then configuration_request i (wanted packet len)
    else if packet 9 == l2cap_cmd l2cap_cmd_conf_res
    then configuration_response i
    else if packet 9 == l2cap_cmd l2cap_cmd_disconn_req
    then disconnection_request i (word packet 14 13) (word packet 16 15)
    else ignored
