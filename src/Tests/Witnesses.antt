-- ===== src/Tests/Witnesses.antt =====
-- The theorems at concrete inputs.
use hydroponic_closet.Prelude.{ℕ, replicate, ◌≡◌, refl, List, [], ◌∷◌, arith}
use hydroponic_closet.Tests.Packets.{put_request, fresh}
use hydroponic_closet.Tests.Runs.{connected, receive}
use hydroponic_closet.Crc.{crc16}
use hydroponic_closet.Crc.Bitwise.{crc_bitwise, crc16-eq-bitwise}
use hydroponic_closet.Bt.State.{Session, Outcome, done}
use hydroponic_closet.Bt.Handler.{Partial, header, obex_put}
use hydroponic_closet.Bt.Transport.{Link, run}
use hydroponic_closet.Bt.Transport.Delivery.{alternate}
use hydroponic_closet.Tests.ListQueue.{list_queue, link}
use hydroponic_closet.Bt.Receive.Rounds.{Headers, end, next, obex_put-done_Headers}

abbrev check_digits : List ℕ
check_digits = b'1' ∷ b'2' ∷ b'3' ∷ []

crc16-eq-bitwise_example : crc16 0 check_digits ≡ crc_bitwise 0 check_digits
crc16-eq-bitwise_example = crc16-eq-bitwise 0 check_digits (omega arith)

-- The start of the loop.
abbrev at_start : Partial
at_start = record { session = connected; frame = record { written = []; cells = replicate 300 0 } }

put_chain : Headers put_request 31 14
put_chain = next 14 (omega arith) (omega arith) (
    next 21 (omega arith) (omega arith)
      (next 26 (omega arith) (omega arith) (end 29 (omega arith))))

abbrev session_of : Outcome → Session
session_of (done s) = s
session_of _ = fresh

obex_put-done_Headers_example : Headers put_request 31 14
unfolding receive
obex_put-done_Headers_example =
    obex_put-done_Headers (header put_request) put_request 31 at_start
      (session_of (obex_put (header put_request) put_request 31 at_start)) refl

-- A request for a connection, which names channel 0x41 for OBEX, and then the PUT.
abbrev attempts_of : Session → Link list_queue
attempts_of t = run list_queue (alternate t.queued) (record link { host = t.queued; advert = [] })
