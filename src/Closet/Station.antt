-- ===== src/Closet/Station.antt =====
-- src/main/include/wifi/wifi_def.c: the station's event handler and the end of `wifi_init_sta`.
use hydroponic_closet.Prelude.{
  ℕ, ◌+◌, Bool, true, List, [], ◌∷◌, ◌++◌, Option, none, some, ltb, if◌then◌else◌,
}

-- The events that the handler is registered for.
pub data Event : Type 0 where
  sta_start sta_disconnected sta_got_ip other : Event

-- What the handler asks of the system.
pub data Request : Type 0 where
  connect restart : Request

pub record Station : Type 0 where
  pub s_retry_num : ℕ
  pub connected_bit : Bool  -- WIFI_CONNECTED_BIT of the event group
  pub fail_bit : Bool  -- WIFI_FAIL_BIT
  pub wifi_ok : Bool
  pub requests : List Request  -- the oldest first

-- EXAMPLE_ESP_MAXIMUM_RETRY
abbrev pub maximum_retry : ℕ
maximum_retry = 3

unfoldable pub request : Request → Station → Station
request r s = record s { requests = s.requests ++ r ∷ [] }

-- WIFI_EVENT_STA_DISCONNECTED
unfoldable pub on_disconnected : Station → Station
unfolding request
on_disconnected s =
    if ltb s.s_retry_num maximum_retry
    then record (request connect s) { s_retry_num = s.s_retry_num + 1 }
    else (let t = record s { fail_bit = true } in if s.wifi_ok then request restart t else t)

unfoldable pub wifi_sta_event_handler : Station → Event → Station
unfolding request on_disconnected
wifi_sta_event_handler s sta_start = request connect s
wifi_sta_event_handler s sta_disconnected = on_disconnected s
wifi_sta_event_handler s sta_got_ip = record s { s_retry_num = 0; connected_bit = true }
wifi_sta_event_handler s other = s

unfoldable pub handle_all : Station → List Event → Station
handle_all s [] = s
handle_all s (e ∷ es) = handle_all (wifi_sta_event_handler s e) es

-- The end of `wifi_init_sta`. xEventGroupWaitBits returns once one of the two bits is set: `none`
-- stands for waiting on.
unfoldable pub wait_for_bits : Station → Option Station
wait_for_bits s =
    if s.connected_bit
    then some (record s { wifi_ok = true })
    else if s.fail_bit
    then some s
    else none

-- `wifi_ok` points to the caller's variable from now on, which holds `value`.
abbrev pub set_wifi_ok_addr : Bool → Station → Station
set_wifi_ok_addr value s = record s { wifi_ok = value }
