-- ===== src/Bt/Codes.antt =====
-- The packet types, events, commands and opcodes of src/main/include/blue/bt_main.h.
use hydroponic_closet.Prelude.{ℕ, ◌*◌, ◌^◌, bit_or}

-- HCI_GRP_HOST_CONT_BASEBAND_CMDS, 0x03 << 10
abbrev pub hci_grp_host_cont_baseband_cmds : ℕ
hci_grp_host_cont_baseband_cmds = 0x03 * 2 ^ 10

abbrev pub hci_reset : ℕ
hci_reset = bit_or 0x0003 hci_grp_host_cont_baseband_cmds

abbrev pub hci_change_local_name : ℕ
hci_change_local_name = bit_or 0x0013 hci_grp_host_cont_baseband_cmds

-- HCI_SCAN_ENABLE, 0x03 << 10
abbrev pub hci_scan_enable : ℕ
hci_scan_enable = 0x03 * 2 ^ 10

abbrev pub hci_set_scan_mode : ℕ
hci_set_scan_mode = bit_or 0x001a hci_scan_enable

-- hci_packet_t
pub data HciPacket : Type 0 where
  h4_type_command h4_type_acl h4_type_sco h4_type_event : HciPacket

abbrev pub hci_packet : HciPacket → ℕ
hci_packet h4_type_command = 1
hci_packet h4_type_acl = 2
hci_packet h4_type_sco = 3
hci_packet h4_type_event = 4

-- hci_event_t
pub data HciEvent : Type 0 where
  hci_evt_inquiry_complete hci_evt_inquiry_res hci_evt_conn_complete hci_evt_conn_req : HciEvent
  hci_evt_disconn_complete hci_evt_auth_complete hci_evt_name_req_complete : HciEvent
  hci_evt_encrypt_change_complete hci_evt_link_key_change_complete : HciEvent
  hci_evt_master_link_key_chg_complete hci_evt_read_rem_feat_complete : HciEvent
  hci_evt_read_rem_ver_complete hci_evt_qos_setup_complete hci_evt_cmd_complete : HciEvent
  hci_evt_cmd_stat hci_evt_hardware_err hci_evt_data_flushed hci_evt_role_change : HciEvent
  hci_evt_num_pack_sent hci_evt_mode_change hci_evt_ret_link_keys hci_evt_pin_code_req : HciEvent
  hci_evt_link_key_req hci_evt_link_key_notif hci_evt_lo_cmd hci_evt_data_buff_overflow : HciEvent
  hci_evt_max_slots_change hci_evt_read_clk_offset_complete hci_evt_conn_pack_type_chg : HciEvent
  hci_evt_qos_violation hci_evt_page_scan_mode_chg hci_evt_page_scan_rep_mode_chg : HciEvent
  hci_flow_specification_comp_evt hci_inquiry_rssi_result_evt : HciEvent
  hci_read_rmt_ext_features_comp_evt hci_esco_connection_comp_evt : HciEvent
  hci_esco_connection_changed_evt hci_sniff_sub_rate_evt hci_extended_inquiry_result_evt : HciEvent
  hci_encryption_key_refresh_comp_evt hci_io_capability_request_evt : HciEvent
  hci_io_capability_response_evt hci_user_confirmation_request_evt : HciEvent
  hci_user_passkey_request_evt hci_remote_oob_data_request_evt : HciEvent
  hci_simple_pairing_complete_evt hci_link_super_tout_changed_evt : HciEvent
  hci_enhanced_flush_complete_evt hci_user_passkey_notify_evt hci_keypress_notify_evt : HciEvent
  hci_rmt_host_sup_feat_notify_evt : HciEvent

abbrev pub hci_event : HciEvent → ℕ
hci_event hci_evt_inquiry_complete = 0x01
hci_event hci_evt_inquiry_res = 0x02
hci_event hci_evt_conn_complete = 0x03
hci_event hci_evt_conn_req = 0x04
hci_event hci_evt_disconn_complete = 0x05
hci_event hci_evt_auth_complete = 0x06
hci_event hci_evt_name_req_complete = 0x07
hci_event hci_evt_encrypt_change_complete = 0x08
hci_event hci_evt_link_key_change_complete = 0x09
hci_event hci_evt_master_link_key_chg_complete = 0x0a
hci_event hci_evt_read_rem_feat_complete = 0x0b
hci_event hci_evt_read_rem_ver_complete = 0x0c
hci_event hci_evt_qos_setup_complete = 0x0d
hci_event hci_evt_cmd_complete = 0x0e
hci_event hci_evt_cmd_stat = 0x0f
hci_event hci_evt_hardware_err = 0x10
hci_event hci_evt_data_flushed = 0x11
hci_event hci_evt_role_change = 0x12
hci_event hci_evt_num_pack_sent = 0x13
hci_event hci_evt_mode_change = 0x14
hci_event hci_evt_ret_link_keys = 0x15
hci_event hci_evt_pin_code_req = 0x16
hci_event hci_evt_link_key_req = 0x17
hci_event hci_evt_link_key_notif = 0x18
hci_event hci_evt_lo_cmd = 0x19
hci_event hci_evt_data_buff_overflow = 0x1a
hci_event hci_evt_max_slots_change = 0x1b
hci_event hci_evt_read_clk_offset_complete = 0x1c
hci_event hci_evt_conn_pack_type_chg = 0x1d
hci_event hci_evt_qos_violation = 0x1e
hci_event hci_evt_page_scan_mode_chg = 0x1f
hci_event hci_evt_page_scan_rep_mode_chg = 0x20
hci_event hci_flow_specification_comp_evt = 0x21
hci_event hci_inquiry_rssi_result_evt = 0x22
hci_event hci_read_rmt_ext_features_comp_evt = 0x23
hci_event hci_esco_connection_comp_evt = 0x2c
hci_event hci_esco_connection_changed_evt = 0x2d
hci_event hci_sniff_sub_rate_evt = 0x2e
hci_event hci_extended_inquiry_result_evt = 0x2f
hci_event hci_encryption_key_refresh_comp_evt = 0x30
hci_event hci_io_capability_request_evt = 0x31
hci_event hci_io_capability_response_evt = 0x32
hci_event hci_user_confirmation_request_evt = 0x33
hci_event hci_user_passkey_request_evt = 0x34
hci_event hci_remote_oob_data_request_evt = 0x35
hci_event hci_simple_pairing_complete_evt = 0x36
hci_event hci_link_super_tout_changed_evt = 0x38
hci_event hci_enhanced_flush_complete_evt = 0x39
hci_event hci_user_passkey_notify_evt = 0x3b
hci_event hci_keypress_notify_evt = 0x3c
hci_event hci_rmt_host_sup_feat_notify_evt = 0x3d

-- l2cap_cmd_t
pub data L2capCmd : Type 0 where
  l2cap_cmd_reject l2cap_cmd_conn_req l2cap_cmd_conn_res l2cap_cmd_conf_req : L2capCmd
  l2cap_cmd_conf_res l2cap_cmd_disconn_req l2cap_cmd_disconn_res l2cap_cmd_echo_req : L2capCmd
  l2cap_cmd_echo_res l2cap_cmd_info_req l2cap_cmd_info_res : L2capCmd

abbrev pub l2cap_cmd : L2capCmd → ℕ
l2cap_cmd l2cap_cmd_reject = 0x01
l2cap_cmd l2cap_cmd_conn_req = 0x02
l2cap_cmd l2cap_cmd_conn_res = 0x03
l2cap_cmd l2cap_cmd_conf_req = 0x04
l2cap_cmd l2cap_cmd_conf_res = 0x05
l2cap_cmd l2cap_cmd_disconn_req = 0x06
l2cap_cmd l2cap_cmd_disconn_res = 0x07
l2cap_cmd l2cap_cmd_echo_req = 0x08
l2cap_cmd l2cap_cmd_echo_res = 0x09
l2cap_cmd l2cap_cmd_info_req = 0x0a
l2cap_cmd l2cap_cmd_info_res = 0x0b

-- sdp_type_t
pub data SdpType : Type 0 where
  sdp_att_req sdp_att_res : SdpType

abbrev pub sdp_type : SdpType → ℕ
sdp_type sdp_att_req = 0x06
sdp_type sdp_att_res = 0x07
