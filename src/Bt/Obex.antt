-- ===== src/Bt/Obex.antt =====
-- The frames that `obex_ftp` of bt_main.c sends. Each is written up to its check sequence, which
-- is computed over the buffer from offset 7 and written behind it.
use hydroponic_closet.Bt.Codes.{h4_type_acl, hci_packet}
use hydroponic_closet.Prelude.{ℕ, ◌+◌, ◌*◌, ◌/◌, ◌%◌, List, ◌++◌, Option, none, some, take, drop}
use hydroponic_closet.Crc.{crc16}
use hydroponic_closet.Bt.Stream.{uint8_to_stream, uint16_to_stream, Buffer, contents, write}

infixl 5 ◌>>=◌
abbrev pub ◌>>=◌ : Option Buffer → (Buffer → Option Buffer) → Option Buffer
none >>= f = none
some b >>= f = f b

-- fcs = crc16(0, &cmd_buf[7], n); UINT16_TO_STREAM(buf, fcs);
unfoldable pub write_fcs : ℕ → Buffer → Option Buffer
write_fcs n b = write (uint16_to_stream (crc16 0 (take n (drop 7 (contents b))))) b

-- The acknowledgement that follows every eighth packet.
unfoldable pub ack_head : ℕ → ℕ → ℕ → List ℕ
ack_head acl_flags src_cid tx =
    uint8_to_stream (13 / 256)
    ++ uint8_to_stream (13 % 256)
    ++ uint8_to_stream (hci_packet h4_type_acl)
    ++ uint16_to_stream acl_flags
    ++ uint16_to_stream 8
    ++ uint16_to_stream 4
    ++ uint16_to_stream src_cid
    ++ uint8_to_stream 0x01
    ++ uint8_to_stream tx

unfoldable pub write_ack : ℕ → ℕ → ℕ → Buffer → Option Buffer
write_ack acl_flags src_cid tx b = do c ← write (ack_head acl_flags src_cid tx) b; write_fcs 6 c

-- MAX_OBEX_PACK
abbrev pub max_obex_pack : ℕ
max_obex_pack = 500

-- The answer to an OBEX connect.
unfoldable pub connect_head : ℕ → ℕ → ℕ → List ℕ
connect_head acl_flags src_cid obex_conn_id =
    uint8_to_stream (25 / 256)
    ++ uint8_to_stream (25 % 256)
    ++ uint8_to_stream (hci_packet h4_type_acl)
    ++ uint16_to_stream acl_flags
    ++ uint16_to_stream 20
    ++ uint16_to_stream 16
    ++ uint16_to_stream src_cid
    ++ uint8_to_stream 0x00
    ++ uint8_to_stream 0x01
    ++ uint8_to_stream 0xa0
    ++ uint8_to_stream 0
    ++ uint8_to_stream 0x0c
    ++ uint8_to_stream 0x10
    ++ uint8_to_stream 0x00
    ++ uint8_to_stream (max_obex_pack / 256)
    ++ uint8_to_stream (max_obex_pack % 256)
    ++ uint8_to_stream 0xcb
    ++ uint16_to_stream 0x00
    ++ uint8_to_stream (obex_conn_id / 256)
    ++ uint8_to_stream (obex_conn_id % 256)

unfoldable pub write_connect : ℕ → ℕ → ℕ → Buffer → Option Buffer
write_connect acl_flags src_cid obex_conn_id b = do
  c ← write (connect_head acl_flags src_cid obex_conn_id) b
  write_fcs 18 c

-- The answer to the header that asks for single response mode.
unfoldable pub srm_head : ℕ → ℕ → ℕ → ℕ → List ℕ
srm_head acl_flags src_cid obex_reqseq obex_txseq =
    uint8_to_stream (18 / 256)
    ++ uint8_to_stream (18 % 256)
    ++ uint8_to_stream (hci_packet h4_type_acl)
    ++ uint16_to_stream acl_flags
    ++ uint16_to_stream 13
    ++ uint16_to_stream 9
    ++ uint16_to_stream src_cid
    ++ uint8_to_stream (obex_reqseq * 2)
    ++ uint8_to_stream (obex_txseq / 2 + 1)
    ++ uint8_to_stream 0x90
    ++ uint8_to_stream 0x00
    ++ uint8_to_stream 0x05
    ++ uint8_to_stream 0x97
    ++ uint8_to_stream 0x01

unfoldable pub write_srm : ℕ → ℕ → ℕ → ℕ → Buffer → Option Buffer
write_srm acl_flags src_cid obex_reqseq obex_txseq b = do
  c ← write (srm_head acl_flags src_cid obex_reqseq obex_txseq) b
  write_fcs 11 c

-- The answer to the end of the body.
unfoldable pub end_head : ℕ → ℕ → ℕ → ℕ → List ℕ
end_head acl_flags src_cid obex_reqseq obex_txseq =
    uint8_to_stream (16 / 256)
    ++ uint8_to_stream (16 % 256)
    ++ uint8_to_stream (hci_packet h4_type_acl)
    ++ uint16_to_stream acl_flags
    ++ uint16_to_stream 11
    ++ uint16_to_stream 7
    ++ uint16_to_stream src_cid
    ++ uint8_to_stream (obex_reqseq * 2)
    ++ uint8_to_stream (obex_txseq / 2 + 1)
    ++ uint8_to_stream 0xa0
    ++ uint8_to_stream 0x00
    ++ uint8_to_stream 0x03

unfoldable pub write_end : ℕ → ℕ → ℕ → ℕ → Buffer → Option Buffer
write_end acl_flags src_cid obex_reqseq obex_txseq b = do
  c ← write (end_head acl_flags src_cid obex_reqseq obex_txseq) b
  write_fcs 9 c
