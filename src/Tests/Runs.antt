-- ===== src/Tests/Runs.antt =====
-- Runs of the handlers.
use hydroponic_closet.Prelude.{ℕ, ◌≡◌, refl, List, [], ◌∷◌, ◌++◌, replicate}
use hydroponic_closet.Tests.Packets.{put_request, fresh, packet_of}
use hydroponic_closet.Crc.{crc16_byte, crc16}
use hydroponic_closet.Crc.Table.{crc16_table}
use hydroponic_closet.Bt.Stream.{zeroed, contents, write, overlay}
use hydroponic_closet.Bt.State.{Packet, Session, Outcome, done, hang, set_dir, queue_packet}
use hydroponic_closet.Bt.Obex.{write_fcs, write_end, end_head}
use hydroponic_closet.Bt.Put.{
  copy_bytes, end_string, put_name, put_body, put_reply, put_step, put_loop,
}
use hydroponic_closet.Bt.Handler.{obex_ack, after_put, obex_put, obex_command, obex_ftp}

-- `obex_ftp` with all that it calls.
unfoldable pub receive : Session → Packet → ℕ → Outcome
unfolding obex_ftp obex_ack obex_command obex_put after_put put_loop put_step put_name put_body
    put_reply copy_bytes end_string write_end end_head write_fcs write contents overlay zeroed
    queue_packet crc16 crc16_byte crc16_table set_dir
receive = obex_ftp

abbrev pub connected : Session
connected = record fresh { src_cid = 0x50; obex_cid = 0x41 }

abbrev file_name : Outcome → List ℕ
file_name (done s) = s.buffer_1
file_name _ = []

abbrev file_body : Outcome → List ℕ
file_body (done s) = s.buffer_2
file_body _ = []

stored_name : file_name (receive connected put_request 31) ≡ b'o' ∷ b'k' ∷ replicate 6 0
unfolding receive
stored_name = refl

stored_body : file_body (receive connected put_request 31) ≡ b'h' ∷ b'i' ∷ replicate 6 0
unfolding receive
stored_body = refl

-- A byte that starts no header keeps the loop at its place.
unknown_header : receive connected (packet_of (replicate 11 0 ++ 2 ∷ [])) 40 ≡ hang
unfolding receive
unknown_header = refl
