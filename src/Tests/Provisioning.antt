-- ===== src/Tests/Provisioning.antt =====
-- A peer provisions the closet, at a concrete input.
use Prim.{tt}
use hydroponic_closet.Prelude.{
  ℕ, ◌≡◌, refl, true, inl, inr, List, [], ◌∷◌, ◌++◌, some, none, Option, arith,
}
use hydroponic_closet.Bt.State.{Packet, set_dir}
use hydroponic_closet.Bt.Start.{
  idle, inited, running, Init, init_bt, start_bt, leave_idle, enable_bt, report, start_tasks,
  init_queue,
}
use hydroponic_closet.Nvs.{init_bt_nvs}
use hydroponic_closet.Bt.Receive.Copy.{gather}
use hydroponic_closet.Bt.Receive.Room.{Fitting, last, then_more}
use hydroponic_closet.Bt.Receive.Object.{items}
use hydroponic_closet.Bt.Protocol.Wire.{request_of}
use hydroponic_closet.Bt.Protocol.Server.{IsRequest, elsewhere}
use hydroponic_closet.Closet.Credentials.{c_string, same_string, poll, wifi_config}
use hydroponic_closet.Bt.Handler.{serve}
use hydroponic_closet.App.{App, online, initial, app_main, wait_for_file}
use hydroponic_closet.App.Provisioned.{app_main-provisioned}
use hydroponic_closet.Tests.Packets.{connect_request, conf_request, packet_of, packet_of-lt}
use hydroponic_closet.Tests.WifiFile.{wide, content, scan}
use hydroponic_closet.Tests.Rounds.{at_once, full, before_file, after_file}

-- A PUT of "wifi.config" with "SSID: n PASS: p", on the channel 0x41.
abbrev config_bytes : List ℕ
config_bytes =
    0x02
      ∷ 0x80
      ∷ 0x20
      ∷ 54
      ∷ 0
      ∷ 50
      ∷ 0
      ∷ 0x41
      ∷ 0
      ∷ 0
      ∷ 0
      ∷ 0x82
      ∷ 0
      ∷ 48
      ∷ 0x01
      ∷ 0
      ∷ 27
      ∷ wide wifi_config
    ++ 0 ∷ 0 ∷ 0x48 ∷ 0 ∷ 18 ∷ content

abbrev config_packet : Packet
config_packet = packet_of config_bytes

config_fits : Fitting config_packet 59 128 1024 14 300
config_fits =
    then_more 14 300 (omega arith) (omega arith) (inr (omega arith), inl (omega arith))
      (omega arith)
      (then_more 41 300 (omega arith) (omega arith) (inl (omega arith), inr (omega arith))
        (omega arith) (last 59 300 (omega arith)))

abbrev transfer : List (Packet × ℕ)
transfer = (connect_request, 17) ∷ (conf_request, 21) ∷ (config_packet, 59) ∷ []

abbrev at_start : App at_once scan true
at_start = initial at_once scan true idle

abbrev started : Option (Init at_once) → Init at_once
started none = record { calls = []; ending = running; controller = idle }
started (some i) = i

app_main-provisioned_example :
    (b : App at_once scan true) × (app_main at_once scan true
        (record before_file { deliveries = [] ∷ transfer ∷ [] } ∷ after_file ∷ [])
        at_start
      ≡ online b)
    × (b.credentials ≡ record { ssid = b'n' ∷ []; pass = b'p' ∷ [] })
    × (b.controller ≡ inited)
unfolding initial set_dir init_bt init_bt_nvs start_bt leave_idle enable_bt report start_tasks
    init_queue items c_string gather request_of wait_for_file serve poll same_string
app_main-provisioned_example =
    app_main-provisioned at_once scan true at_start
      (record before_file { deliveries = [] ∷ transfer ∷ [] }) after_file []
      (started (init_bt at_once full true true 1 idle)) ([] ∷ []) at_start.session transfer []
      (record { ssid = b'n' ∷ []; pass = b'p' ∷ [] }) (record { none_received = refl; off = refl })
      refl refl refl refl refl
      (
        elsewhere (inr (inl refl)),
        (
          elsewhere (inr (inl refl)),
          (
            IsRequest.transfer refl (omega arith) refl (packet_of-lt config_bytes (omega arith))
                (inr config_fits),
            tt,
          ),
        ),
      )
      refl refl (omega arith) (omega arith) (λ _. refl) refl
