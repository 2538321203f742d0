-- ===== src/Tests/Rounds.antt =====
-- The theorems on the start of Bluetooth, the Wi-Fi connection and the main loop at concrete inputs.
use Prim.{tt}
use hydroponic_closet.Prelude.{
  ◌≡◌, ◌≢◌, refl, true, false, List, [], ◌∷◌, ◌++◌, some, arith, replicate, ◌&&◌, if◌then◌else◌,
}
use hydroponic_closet.Nvs.{esp_ok, no_free_pages, Nvs, init_bt_nvs}
use hydroponic_closet.Bt.State.{Packet, set_dir}
use hydroponic_closet.Bt.Handler.{l2cap_cmd_handler, host_rcv_pkt, serve}
use hydroponic_closet.Bt.Start.{
  Status, idle, inited, enabled, is_enabled, Controller, StartResult, create_send, create_advert,
  Init, start_bt, init_bt, leave_idle, enable_bt, report, start_tasks, init_queue,
}
use hydroponic_closet.Bt.Start.Ready.{reading, start_bt_returns}
use hydroponic_closet.Bt.Start.Tasks.{tasks, tasks-init_bt}
use hydroponic_closet.Closet.Station.{
  sta_start, sta_disconnected, sta_got_ip, Station, connect, handle_all, wait_for_bits,
  wifi_sta_event_handler, on_disconnected, request,
}
use hydroponic_closet.Closet.Credentials.{
  Credentials, wifi_config, c_string, same_string, strcpy, sta_config, set_credentials, poll,
}
use hydroponic_closet.Closet.Wifi.{returned, wifi_init_sta, sta_setup, sta_steps}
use hydroponic_closet.Closet.Wifi.Attempts.{
  Fails, one_loss, wifi_init_sta_again, wifi_init_sta_joins,
}
use hydroponic_closet.Esp.{perform}
use hydroponic_closet.App.{
  missing, regular, Round, App, Next, again, online, stopped, initial, connect_wifi, read_file,
  load_credentials, wait_for_file, after_init_bt, branch, app_round, app_main,
}
use hydroponic_closet.App.Origin.{IsFromPeer, online-IsFromPeer}
use hydroponic_closet.App.Received.{NextKeeps, app_main-NextKeeps}
use hydroponic_closet.App.StoredFile.{app_main-ne-online}
use hydroponic_closet.Tests.Packets.{packet_of}
use hydroponic_closet.Tests.WifiFile.{wide, content, scan}
use hydroponic_closet.Tests.Runs.{receive}

-- A controller of which each call takes effect at once.
abbrev pub at_once : Controller
at_once = record {
  S = Status;
  status = λ s. s;
  wait = λ s. s;
  init = λ _. inited;
  enable = λ _. enabled;
  disable = λ _. inited;
  enable_ok = λ _. true;
  stays = λ s _. refl;
  enables = λ s _. refl;
  leaves = λ s _. refl;
}

start_bt_returns_example :
    (r : StartResult at_once) × (start_bt at_once 1 idle ≡ some r) × (r.ok ≡ is_enabled r.state)
unfolding reading
start_bt_returns_example = start_bt_returns at_once 1 0 idle (omega arith) refl

-- A full storage that can be erased.
abbrev pub full : Nvs
full = record { first = no_free_pages; second = esp_ok; erases = true }

tasks-init_bt_example :
    (i : Init at_once) × (init_bt at_once full true true 1 idle ≡ some i)
    × (tasks i.calls ≡ (
        if (init_bt_nvs full).goes_on && is_enabled i.controller && true
        then create_send ∷ create_advert ∷ []
        else []))
unfolding reading
tasks-init_bt_example = tasks-init_bt at_once full true true 1 0 idle (omega arith) refl

abbrev down : Station
down = record {
  s_retry_num = 0;
  connected_bit = false;
  fail_bit = false;
  wifi_ok = false;
  requests = [];
}

abbrev home : Credentials
home = record { ssid = b'n' ∷ []; pass = b'p' ∷ b'w' ∷ [] }

-- After four losses.
abbrev tired : Station
tired = record {
  s_retry_num = 3;
  connected_bit = false;
  fail_bit = true;
  wifi_ok = false;
  requests = replicate 3 connect;
}

attempt : wifi_init_sta 32 64 (λ _. true) (replicate 4 sta_disconnected) home down ≡ returned tired
unfolding wifi_init_sta sta_config set_credentials strcpy perform sta_setup sta_steps handle_all
    wait_for_bits wifi_sta_event_handler on_disconnected request
attempt = refl

wifi_init_sta_again_example :
    Fails 2 tired (wifi_init_sta 32 64 (λ _. true) (one_loss 2 1) home tired)
wifi_init_sta_again_example =
    wifi_init_sta_again 32 64 (λ _. true) (replicate 4 sta_disconnected) home down (λ _. true) 2 1
      tired (omega arith) attempt refl

wifi_init_sta_joins_example :
    (t : Station) × (wifi_init_sta 32 64 (λ _. true) (sta_start ∷ sta_got_ip ∷ []) home down
      ≡ returned t)
    × (t.wifi_ok ≡ true)
wifi_init_sta_joins_example =
    wifi_init_sta_joins 32 64 (λ _. true) (sta_start ∷ sta_got_ip ∷ []) home down (omega arith)
      (omega arith) (λ _. refl) refl

-- A PUT of "wifi.config" with "SSID: n PASS: p", on the channel that `obex_cid` names at first.
abbrev config_packet : Packet
config_packet = packet_of (
    0x02
      ∷ 0x80
      ∷ 0x20
      ∷ 54
      ∷ 0
      ∷ 50
      ∷ 0
      ∷ 0
      ∷ 0
      ∷ 0
      ∷ 0
      ∷ 0x82
      ∷ 0
      ∷ 48
      ∷ 0x01
      ∷ 0
      ∷ 27
      ∷ wide wifi_config
    ++ 0 ∷ 0 ∷ 0x48 ∷ 0 ∷ 18 ∷ content)

abbrev pub before_file : Round
before_file = record {
  succeeds = λ _. true;
  events = [];
  storage = full;
  created = true;
  readings = 1;
  file = missing;
  deliveries = [] ∷ ((config_packet, 61) ∷ []) ∷ [];
}

abbrev pub after_file : Round
after_file = record before_file { events = sta_start ∷ sta_got_ip ∷ []; deliveries = [] }

abbrev pub online_app : Next at_once scan true → App at_once scan true
online_app (online a) = a
online_app (again a) = a
online_app stopped = initial at_once scan true idle

-- `app_main` with all that it calls.
unfoldable pub run_app : List Round → Next at_once scan true
unfolding app_main app_round connect_wifi branch after_init_bt load_credentials read_file
    wait_for_file init_bt init_bt_nvs start_bt leave_idle enable_bt report start_tasks init_queue
    serve host_rcv_pkt l2cap_cmd_handler receive poll c_string same_string wifi_init_sta sta_config
    set_credentials strcpy perform sta_setup sta_steps handle_all wait_for_bits
    wifi_sta_event_handler on_disconnected request initial set_dir
run_app rs = app_main at_once scan true rs (initial at_once scan true idle)

pub gets_online :
    app_main at_once scan true (before_file ∷ after_file ∷ []) (initial at_once scan true idle)
    ≡ online (online_app (run_app (before_file ∷ after_file ∷ [])))
unfolding run_app
gets_online = refl

online-IsFromPeer_example :
    IsFromPeer at_once scan true idle
      (before_file ∷ after_file ∷ [])
      (online_app (run_app (before_file ∷ after_file ∷ []))).credentials
online-IsFromPeer_example =
    online-IsFromPeer at_once scan true idle (before_file ∷ after_file ∷ [])
      (online_app (run_app (before_file ∷ after_file ∷ []))) gets_online

-- Three rounds in which fscanf assigns both credentials.
abbrev stored_rounds : List Round
stored_rounds = replicate 3 (record before_file { file = regular 2 home })

app_main-ne-online_example :
    app_main at_once scan true stored_rounds (initial at_once scan true idle)
    ≢ online (initial at_once scan true idle)
app_main-ne-online_example =
    app_main-ne-online at_once scan true stored_rounds idle (initial at_once scan true idle)
      (refl, (refl, (refl, tt)))

abbrev holding : App at_once scan true
holding = record (initial at_once scan true idle) { credentials = home; credentials_recived = true }

app_main-NextKeeps_example :
    NextKeeps at_once scan true holding (app_main at_once scan true (after_file ∷ []) holding)
app_main-NextKeeps_example = app_main-NextKeeps at_once scan true (after_file ∷ []) holding refl
