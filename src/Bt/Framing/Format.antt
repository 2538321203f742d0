-- ===== src/Bt/Framing/Format.antt =====
-- The layout of a packet, with each length computed from what follows it.
use hydroponic_closet.Prelude.{ℕ, ◌+◌, ◌/◌, ◌≡◌, List, [], ◌∷◌, ◌++◌, All, length, u8}
use hydroponic_closet.Bt.Stream.{zeroed, overlay}
use hydroponic_closet.Bt.State.{Session}

abbrev pub be16 : ℕ → List ℕ
be16 n = u8 (n / 256) ∷ u8 n ∷ []

abbrev pub le16 : ℕ → List ℕ
le16 n = u8 n ∷ u8 (n / 256) ∷ []

-- An L2CAP frame on a channel: length, channel, payload.
abbrev pub l2cap_frame : ℕ → List ℕ → List ℕ
l2cap_frame cid payload = le16 (length payload) ++ le16 cid ++ payload

-- The packet around it: length of the rest, packet type 2, flags, length of the frame.
abbrev pub acl_packet : ℕ → List ℕ → List ℕ
acl_packet flags frame = be16 (length frame + 5) ++ 2 ∷ le16 flags ++ le16 (length frame) ++ frame

-- A command on the signalling channel: code, identifier, length, parameters.
abbrev pub signal : ℕ → ℕ → List ℕ → List ℕ
signal code identifier params = code ∷ identifier ∷ le16 (length params) ++ params

-- The packet of a signalling command.
abbrev pub signal_packet : ℕ → ℕ → ℕ → ℕ → List ℕ → List ℕ
signal_packet flags cid code identifier params =
    acl_packet flags (l2cap_frame cid (signal code identifier params))

-- An HCI command: packet type 1, operation code, length, parameters.
abbrev pub command : ℕ → List ℕ → List ℕ
command opcode params = 1 ∷ le16 opcode ++ u8 (length params) ∷ params

-- An entry of the queue that starts with the packet of a signalling command, zeros behind it.
pub record IsSignal (flags cid : ℕ) (entry : List ℕ) : Type 0 where
  pub code : ℕ
  pub identifier : ℕ
  pub params : List ℕ
  pub layout : entry ≡ overlay (signal_packet flags cid code identifier params) zeroed.cells

-- The queue grew by entries of one kind.
pub record Added (Kind : List ℕ → Type 0) (before after : Session) : Type 0 where
  pub entries : List (List ℕ)
  pub grown : after.queued ≡ before.queued ++ entries
  pub kind : All Kind entries
