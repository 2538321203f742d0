-- ===== src/Closet/Wifi.antt =====
-- How src/main/include/wifi/wifi_def.c starts the Wi-Fi driver: `wifi_init_sta` as a whole, and
-- `wifi_init_softap` with its event handler. What the calls report is a parameter.
pub mod Attempts
use hydroponic_closet.Prelude.{
  ℕ, Bool, true, false, List, [], ◌∷◌, Option, none, some, length, ◌==◌, if◌then◌else◌,
}
use hydroponic_closet.Esp.{Step, plain, checked, perform}
use hydroponic_closet.Closet.Station.{Event, Station, handle_all, wait_for_bits}
use hydroponic_closet.Closet.Options.{
  AuthMode, wifi_auth_open, wifi_auth_wpa2_psk, wifi_auth_wpa3_psk, PweMethod, wpa3_sae_pwe_both,
}
use hydroponic_closet.Closet.Credentials.{Credentials, StaConfig, sta_config, set_credentials}

-- The configuration of the access point.
pub record ApConfig : Type 0 where
  pub ssid : List ℕ
  pub ssid_len : ℕ
  pub channel : ℕ
  pub password : List ℕ
  pub max_connection : ℕ
  pub authmode : AuthMode
  pub sae_pwe_h2e : Option PweMethod  -- `none` if it is not written
  pub pmf_required : Bool  -- pmf_cfg.required

pub data WifiCall : Type 0 where
  event_group_create : WifiCall  -- xEventGroupCreate
  netif_init : WifiCall  -- esp_netif_init
  create_default_wifi_sta create_default_wifi_ap : WifiCall  -- esp_netif_create_default_wifi_...
  wifi_init : WifiCall  -- esp_wifi_init(&cfg), with the default configuration
  register_any_id register_got_ip : WifiCall  -- wifi_sta_event_handler for each kind of event
  register_ap : WifiCall  -- wifi_ap_event_handler
  set_mode_sta set_mode_ap : WifiCall  -- esp_wifi_set_mode
  set_sta_config : StaConfig → WifiCall  -- esp_wifi_set_config(WIFI_IF_STA, ...)
  set_ap_config : ApConfig → WifiCall  -- esp_wifi_set_config(WIFI_IF_AP, ...)
  wifi_start : WifiCall  -- esp_wifi_start

-- The calls of `wifi_init_sta` before the copies of the credentials, and behind them up to the wait.
-- The call that creates the default interface stands under no ESP_ERROR_CHECK, but aborts the
-- program itself on an error, a second interface among them.
unfoldable pub sta_setup : List (Step WifiCall)
sta_setup =
    plain event_group_create
    ∷ checked create_default_wifi_sta
    ∷ checked wifi_init
    ∷ checked register_any_id
    ∷ checked register_got_ip
    ∷ []

unfoldable pub sta_steps : StaConfig → List (Step WifiCall)
sta_steps config = checked set_mode_sta ∷ checked (set_sta_config config) ∷ checked wifi_start ∷ []

-- How `wifi_init_sta` ends: a copy of the credentials passes the end of its field, a check fails
-- and aborts the program, neither bit is set so far, or it returns.
pub data StaEnd : Type 0 where
  overrun aborted waiting : StaEnd
  returned : Station → StaEnd

-- A new event group has no bit set. Nothing else that the handler keeps is changed.
abbrev pub new_event_group : Station → Station
new_event_group s = record s { connected_bit = false; fail_bit = false }

abbrev pub after_wait : Option Station → StaEnd
after_wait none = waiting
after_wait (some s) = returned s

-- `wifi_init_sta` behind the copies of the credentials. `succeeds` is what the calls report,
-- `events` the calls of the event handler before the wait ends. Each call of `wifi_init_sta`
-- registers the handler once more; an event for which it is called several times then stands in
-- the list as often.
abbrev pub behind_copies : (ℕ → Bool) → List Event → Station → Option StaConfig → StaEnd
behind_copies succeeds events s none = overrun
behind_copies succeeds events s (some config) =
    if (perform succeeds 5 (sta_steps config)).goes_on
    then after_wait (wait_for_bits (handle_all (new_event_group s) events))
    else aborted

unfoldable pub wifi_init_sta : ℕ → ℕ → (ℕ → Bool) → List Event → Credentials → Station → StaEnd
wifi_init_sta ssid_size password_size succeeds events credentials s =
    if (perform succeeds 0 sta_setup).goes_on
    then behind_copies succeeds events s
        (set_credentials (sta_config ssid_size password_size) credentials)
    else aborted

-- EXAMPLE_ESP_SERVER_SSID, "esp6838", and the other three
abbrev pub server_ssid : List ℕ
server_ssid = b'e' ∷ b's' ∷ b'p' ∷ b'6' ∷ b'8' ∷ b'3' ∷ b'8' ∷ []

abbrev pub server_pass : List ℕ
server_pass = []

abbrev pub server_channel : ℕ
server_channel = 1

abbrev pub max_sta_conn : ℕ
max_sta_conn = 4

-- CONFIG_ESP_WIFI_SOFTAP_SAE_SUPPORT decides on the mode that the configuration is written with;
-- an empty password replaces it.
unfoldable pub ap_config : Bool → ApConfig
ap_config sae_support = record {
  ssid = server_ssid;
  ssid_len = length server_ssid;
  channel = server_channel;
  password = server_pass;
  max_connection = max_sta_conn;
  authmode =
      if length server_pass == 0
      then wifi_auth_open
      else if sae_support
      then wifi_auth_wpa3_psk
      else wifi_auth_wpa2_psk;
  sae_pwe_h2e = if sae_support then some wpa3_sae_pwe_both else none;
  pmf_required = true;
}

unfoldable pub wifi_init_softap : Bool → List (Step WifiCall)
wifi_init_softap sae_support =
    checked netif_init
    ∷ checked create_default_wifi_ap
    ∷ checked wifi_init
    ∷ checked register_ap
    ∷ checked set_mode_ap
    ∷ checked (set_ap_config (ap_config sae_support))
    ∷ checked wifi_start
    ∷ []

-- The events that the access point's handler knows, with the address and the number of the
-- station, and what it writes to the log.
pub data ApEvent : Type 0 where
  ap_sta_connected ap_sta_disconnected : List ℕ → ℕ → ApEvent
  ap_other : ApEvent

pub data ApLog : Type 0 where
  join leave : List ℕ → ℕ → ApLog

unfoldable pub wifi_ap_event_handler : ApEvent → List ApLog
wifi_ap_event_handler (ap_sta_connected mac aid) = join mac aid ∷ []
wifi_ap_event_handler (ap_sta_disconnected mac aid) = leave mac aid ∷ []
wifi_ap_event_handler ap_other = []
