-- ===== src/Tests/Transfers.antt =====
-- The theorems on signalling, file transfers and the checksum at concrete inputs.
use Prim.{tt}
use hydroponic_closet.Prelude.{
  ℕ, ◌≡◌, refl, true, inl, inl, inr, List, [], ◌∷◌, ◌++◌, ◌<◌, All, arith, replicate,
}
use hydroponic_closet.Crc.{crc16, crc16_byte}
use hydroponic_closet.Crc.Table.{crc16_table}
use hydroponic_closet.Crc.Detect.{with_fcs, crc16-accepts}
use hydroponic_closet.Bt.State.{Session, set_dir, done, overrun}
use hydroponic_closet.Bt.Handler.{obex_ftp, serve}
use hydroponic_closet.Bt.Receive.Overruns.{here, obex_ftp-overruns}
use hydroponic_closet.Bt.Protocol.Signalling.{keeps_to, serve-refines}
use hydroponic_closet.Bt.Framing.Obex.{Returned}
use hydroponic_closet.Bt.Receive.Room.{Fitting, last, then_more}
use hydroponic_closet.Bt.Receive.Ranges.{IsInRange, serve-IsInRange}
use hydroponic_closet.Bt.Receive.Object.{items}
use hydroponic_closet.Bt.Receive.Copy.{gather}
use hydroponic_closet.Closet.Credentials.{c_string}
use hydroponic_closet.Bt.Transport.{send_buffer_size, send_round, run}
use hydroponic_closet.Bt.Transport.Delivery.{alternate}
use hydroponic_closet.Bt.Protocol.Wire.{request_of}
use hydroponic_closet.Bt.Protocol.Server.{IsRequest, elsewhere, AreRequests, steps}
use hydroponic_closet.Bt.Protocol.Server.Taken.{server_of}
use hydroponic_closet.Bt.Protocol.Server.Steps.{serve-steps}
use hydroponic_closet.Bt.Protocol.Server.Delivered.{sent_delivered}
use hydroponic_closet.Tests.ListQueue.{list_queue, link}
use hydroponic_closet.Tests.Packets.{
  connect_request, put_bytes, put_request, fresh, conf_request, packet_of-lt,
}

-- A frame of two bytes comes in with the checksum 0x4594.
abbrev digits : List ℕ
digits = b'1' ∷ b'2' ∷ []

crc16-accepts_example : b'1' ∷ b'2' ∷ 0x94 ∷ 0x45 ∷ [] ≡ with_fcs digits
unfolding crc16 crc16_byte crc16_table
crc16-accepts_example =
    crc16-accepts digits (b'1' ∷ []) (0x45 ∷ []) b'2' 0x94 b'2' 0x94 (omega arith) (omega arith)
      refl refl

abbrev set_up : List ((ℕ → ℕ) × ℕ)
set_up = (connect_request, 17) ∷ (conf_request, 21) ∷ []

serve-refines_example : serve fresh set_up ≡ done (keeps_to fresh set_up)
serve-refines_example = serve-refines set_up fresh ((refl, refl), ((refl, refl), tt))

serve-IsInRange_example : Returned (IsInRange 8 8) (serve fresh (set_up ++ (put_request, 31) ∷ []))
unfolding set_dir
serve-IsInRange_example =
    serve-IsInRange (replicate 8 0) (replicate 8 0) (set_up ++ (put_request, 31) ∷ [])

pub put_fits : Fitting put_request 31 8 8 14 300
put_fits =
    then_more 14 300 (omega arith) (omega arith) (inr (omega arith), inl (omega arith))
      (omega arith)
      (then_more 21 300 (omega arith) (omega arith) (inl (omega arith), inr (omega arith))
        (omega arith)
        (then_more 26 300 (omega arith) (omega arith) (inl (omega arith), inl (omega arith))
          (omega arith) (last 29 282 (omega arith))))

put_bytes-lt : All (λ b. b < 256) put_bytes
put_bytes-lt = omega arith

-- The name "ok" and the text "hi" arrive.
abbrev whole : List ((ℕ → ℕ) × ℕ)
whole = set_up ++ (put_request, 31) ∷ []

are_requests : AreRequests 8 8 (server_of fresh) whole
unfolding request_of set_dir
are_requests = (
  elsewhere (inr (inl refl)),
  (
    elsewhere (inr (inl refl)),
    (
      IsRequest.transfer refl (omega arith) refl (packet_of-lt put_bytes put_bytes-lt)
          (inr put_fits),
      tt,
    ),
  ),
)

file_received :
    (steps (server_of fresh) whole).file
    ≡ record { name = b'o' ∷ b'k' ∷ []; text = b'h' ∷ b'i' ∷ []; size = 4294967295 }
unfolding request_of set_dir items gather c_string
file_received = refl

serve-steps_example :
    (t : Session) × (serve fresh whole ≡ done t) × (server_of t ≡ steps (server_of fresh) whole)
unfolding set_dir
serve-steps_example = serve-steps whole fresh are_requests

sent_delivered_example :
    (t : Session) × (serve fresh whole ≡ done t)
    × ((run list_queue (replicate send_buffer_size (send_round true)) (
          run list_queue
            (alternate t.queued)
            (record link { host = t.queued; advert = [] }))).delivered
        ≡ (steps (server_of fresh) whole).sent)
unfolding set_dir
sent_delivered_example =
    sent_delivered list_queue whole fresh (record link { advert = [] }) are_requests refl refl

-- The same PUT with two bytes for the name.
abbrev narrow : Session
narrow = set_dir (replicate 2 0) (replicate 8 0)

obex_ftp-overruns_example : obex_ftp narrow put_request 31 ≡ overrun
unfolding set_dir
obex_ftp-overruns_example =
    obex_ftp-overruns put_request 31 2 8 (here 14 (omega arith) (inl (refl, omega arith))) narrow
      refl refl refl refl
