-- ===== src/Bt/Put.antt =====
-- The loop of `obex_ftp` (bt_main.c) over the headers of an OBEX PUT.
use hydroponic_closet.Prelude.{
  ℕ, zero, suc, ◌+◌, ◌*◌, Bool, true, false, List, Option, none, some, length, set, ltb, ◌==◌,
  if◌then◌else◌, u16, u32,
}
use hydroponic_closet.Bt.Stream.{Buffer}
use hydroponic_closet.Bt.State.{Packet, Session}
use hydroponic_closet.Bt.Obex.{write_srm, write_end}

-- for (j = from; j < stop; j += stride) buffer[x++] = packet[j]; the result is the array and `x`.
-- `none` is a write past the end of the array. Each round moves `j` on, so `stop` rounds do.
unfoldable pub copy_bytes : ℕ → ℕ → Packet → ℕ → ℕ → ℕ → List ℕ → Option (List ℕ × ℕ)
copy_bytes zero stride packet j stop x buffer = some (buffer, x)
copy_bytes (suc rounds) stride packet j stop x buffer =
    let rest =
      copy_bytes rounds stride packet (j + stride) stop (x + 1) (set buffer x (packet j)) in
    if ltb j stop then (if ltb x (length buffer) then rest else none) else some (buffer, x)

-- buffer[x] = 0
unfoldable pub end_string : Option (List ℕ × ℕ) → Option (List ℕ)
end_string none = none
end_string (some (buffer, x)) = if ltb x (length buffer) then some (set buffer x 0) else none

-- The variables of the loop. `frame` is the command buffer.
pub record Put : Type 0 where
  pub session : Session
  pub frame : Buffer
  pub send : Bool
  pub i : ℕ

-- The locals that the loop reads.
pub record Header : Type 0 where
  pub acl_flags : ℕ
  pub obex_reqseq : ℕ
  pub obex_txseq : ℕ

-- The length of the header at `i`.
abbrev pub head_len : Packet → ℕ → ℕ
head_len packet i = u16 (packet (i + 1) * 256 + packet (i + 2))

-- Header 0x01, the file name: every other byte, the low halves of its 16-bit characters.
unfoldable pub put_name : Packet → Put → Option Put
put_name packet p =
    let stop = head_len packet p.i + p.i in
    elim (end_string (copy_bytes stop 2 packet (p.i + 4) stop 0 p.session.buffer_1)) [
      | none ↦ none
      | some b ↦ some (record p { session = record (p.session) { buffer_1 = b }; i = stop })
    ]

-- One round of file_len = (file_len << 8) + packet[i + j].
abbrev shift_in : ℕ → ℕ → ℕ
shift_in file_len byte = u32 (file_len * 256 + byte)

-- Header 0xc3, the file size.
unfoldable pub put_size : Packet → Put → Put
put_size packet p =
    let n = shift_in p.session.file_len (packet (p.i + 1)) in
    let n = shift_in n (packet (p.i + 2)) in
    let n = shift_in n (packet (p.i + 3)) in
    let n = shift_in n (packet (p.i + 4)) in
    record p { session = record (p.session) { file_len = n }; i = p.i + 5 }

-- Header 0x48, a part of the file.
unfoldable pub put_body : Packet → Put → Option Put
put_body packet p =
    let stop = head_len packet p.i + p.i in
    elim (end_string (copy_bytes stop 1 packet (p.i + 3) stop 0 p.session.buffer_2)) [
      | none ↦ none
      | some b ↦ some (record p { session = record (p.session) { buffer_2 = b }; i = stop })
    ]

-- A frame that was written, to be sent after the loop.
unfoldable pub put_reply : Option Buffer → ℕ → Put → Option Put
put_reply none n p = none
put_reply (some b) n p = some (record p { frame = b; send = true; i = p.i + n })

-- One round of the loop, on the header's first byte.
unfoldable pub put_step : Header → Packet → Put → Option Put
put_step h packet p =
    let c = packet p.i in
    let cid = p.session.src_cid in
    if c == 0xcb
    then some (record p { i = p.i + 5 })
    else if c == 0x01
    then put_name packet p
    else if c == 0xc3
    then some (put_size packet p)
    else if c == 0x48
    then put_body packet p
    else if c == 0x42
    then some (record p { i = p.i + head_len packet p.i })
    else if c == 0x97
    then put_reply (write_srm h.acl_flags cid h.obex_reqseq h.obex_txseq p.frame) 2 p
    else if c == 0x49
    then put_reply (write_end h.acl_flags cid h.obex_reqseq h.obex_txseq p.frame) 3 p
    else some p

-- How the loop ends, if it does.
pub data PutEnd : Type 0 where
  finished : Put → PutEnd
  overflow endless : PutEnd

-- for (int i = 14; i < len - 2;), with `rounds` left; `endless` means that they were not enough.
unfoldable pub put_loop : ℕ → Header → Packet → ℕ → Put → PutEnd
put_loop zero h packet len p = endless
put_loop (suc rounds) h packet len p = elim (ltb (p.i + 2) len) [
  | false ↦ finished p
  | true ↦ elim (put_step h packet p) [ none ↦ overflow | some q ↦ put_loop rounds h packet len q ]
]
