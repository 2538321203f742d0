-- ===== src/Bt/Protocol/Obex.antt =====
-- The answers of `obex_ftp` (blue/bt_main.c) to OBEX requests, without the command buffer.
pub mod Sent
pub mod Loop
pub mod Queue
pub mod Answers
use hydroponic_closet.Prelude.{
  ℕ, zero, suc, ◌+◌, ◌*◌, ◌/◌, ◌%◌, List, [], ◌∷◌, ◌++◌, Option, none, some, drop, u8, u16, ltb,
  ◌==◌, bit_and, if◌then◌else◌,
}
use hydroponic_closet.Bt.State.{Packet, Session, word}
use hydroponic_closet.Bt.Framing.Format.{be16, acl_packet}
use hydroponic_closet.Bt.Framing.Checked.{checked_frame}
use hydroponic_closet.Bt.Receive.Rounds.{advance}

-- The last two carry the numbers of the request's frame.
pub data Answer : Type 0 where
  acknowledged : ℕ → Answer  -- by the number of the next frame
  accepted : ℕ → Answer  -- a connect, with the identifier of the connection
  go_on success : ℕ → ℕ → Answer

-- The control field and what follows it: nothing, or an OBEX response with its length. The answer to
-- a connect holds the version, the largest packet, 500, and the header with the identifier; the one
-- that lets the peer go on, the header for single response mode.
abbrev pub info_of : Answer → List ℕ
info_of (acknowledged n) = 0x01 ∷ u8 n ∷ []
info_of (accepted id) =
    0x00 ∷ 0x01 ∷ 0xa0 ∷ be16 12
    ++ 0x10 ∷ 0x00 ∷ be16 500
    ++ 0xcb ∷ 0 ∷ 0 ∷ u8 (id / 256) ∷ u8 (id % 256) ∷ []
info_of (go_on reqseq txseq) =
    u8 (reqseq * 2) ∷ u8 (txseq / 2 + 1) ∷ 0x90 ∷ be16 5 ++ 0x97 ∷ 0x01 ∷ []
info_of (success reqseq txseq) = u8 (reqseq * 2) ∷ u8 (txseq / 2 + 1) ∷ 0xa0 ∷ be16 3

-- The packet with its length in front, and as the controller gets it.
abbrev pub packet_of : ℕ → ℕ → Answer → List ℕ
packet_of flags cid a = acl_packet flags (checked_frame cid (info_of a))

abbrev pub frame_of : ℕ → ℕ → Answer → List ℕ
frame_of flags cid a = drop 2 (packet_of flags cid a)

-- A header that wants an answer: the one for single response mode, and the end of the body.
unfoldable pub reply_at : ℕ → ℕ → Packet → ℕ → Option Answer
reply_at reqseq txseq packet i =
    if packet i == 0x97
    then some (go_on reqseq txseq)
    else if packet i == 0x49
    then some (success reqseq txseq)
    else none

abbrev pub first_of : Option Answer → Option Answer → Option Answer
first_of none y = y
first_of (some x) y = some x

-- The answer to the first of the headers from `i` on that wants one.
unfoldable pub reply_to : ℕ → ℕ → ℕ → Packet → ℕ → ℕ → Option Answer
reply_to zero reqseq txseq packet len i = none
reply_to (suc rounds) reqseq txseq packet len i =
    let rest = reply_to rounds reqseq txseq packet len (i + advance packet i) in
    if ltb (i + 2) len then first_of (reply_at reqseq txseq packet i) rest else none

abbrev pub all_of : Option Answer → List Answer
all_of none = []
all_of (some a) = a ∷ []

-- Every eighth frame is acknowledged. A connect is accepted, and a PUT gets one answer at most.
unfoldable pub answers : Packet → ℕ → ℕ → List Answer
answers packet len conn_id =
    let reqseq = bit_and (packet 10) 0b00111111 in
    let txseq = bit_and (packet 9) 0b01111110 in
    (if (txseq / 2 + 1) % 8 == 0 then acknowledged (txseq / 2 + 1) ∷ [] else [])
    ++ (if bit_and (packet 9) 1 == 0
        then (if bit_and (packet 11) 0b01111111 == 0x00
            then accepted conn_id ∷ []
            else if bit_and (packet 11) 0b01111111 == 0x02
            then all_of (reply_to (suc len) reqseq txseq packet len 14)
            else [])
        else [])
