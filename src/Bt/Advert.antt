-- ===== src/Bt/Advert.antt =====
-- The advertising task of bt_main.c, `btAdvtTask`, with the static buffer that its commands share.
pub mod Order
use hydroponic_closet.Prelude.{ℕ, ◌+◌, Bool, List, [], ◌∷◌, ◌++◌, ◌==◌, if◌then◌else◌, replicate}
use hydroponic_closet.Bt.Stream.{overlay}
use hydroponic_closet.Bt.Hci.{make_cmd_reset, make_cmd_change_local_name, make_cmd_set_scan_mode}

-- The device's name, "SBC2302_A".
abbrev pub tag : List ℕ
tag = b'S' ∷ b'B' ∷ b'C' ∷ b'2' ∷ b'3' ∷ b'0' ∷ b'2' ∷ b'_' ∷ b'A' ∷ []

pub record Advert : Type 0 where
  pub cmd_cnt : ℕ
  pub hci_cmd_buf : List ℕ  -- all MAX_CMD_LEN cells
  pub queued : List (List ℕ)  -- the packets handed to queue_packet, the oldest first

-- The task at its start: the buffer is static, so it holds zeros.
abbrev pub advert_start : Advert
advert_start = record { cmd_cnt = 0; hci_cmd_buf = replicate 300 0; queued = [] }

-- Writes a command to the start of the buffer and queues the buffer: hci_cmd_send_reset,
-- hci_cmd_send_change_local_name and hci_cmd_send_set_scan_mode.
unfoldable pub hci_cmd_send : List ℕ → Advert → Advert
hci_cmd_send command a =
    let buf = overlay command a.hci_cmd_buf in
    record a { hci_cmd_buf = buf; queued = a.queued ++ buf ∷ [] }

-- One round of the loop, told whether the controller takes packets.
unfoldable pub advertise : Bool → Advert → Advert
advertise send_avail a =
    if send_avail
    then (if a.cmd_cnt == 0
        then record (hci_cmd_send make_cmd_reset a) { cmd_cnt = a.cmd_cnt + 1 }
        else if a.cmd_cnt == 1
        then record (hci_cmd_send (make_cmd_change_local_name tag) a) { cmd_cnt = a.cmd_cnt + 1 }
        else if a.cmd_cnt == 2
        then record (hci_cmd_send (make_cmd_set_scan_mode 3) a) { cmd_cnt = a.cmd_cnt + 1 }
        else a)
    else a

unfoldable pub bt_advt_task : List Bool → Advert → Advert
bt_advt_task [] a = a
bt_advt_task (send_avail ∷ rest) a = bt_advt_task rest (advertise send_avail a)
