-- ===== src/Closet/Options.antt =====
-- The build options of src/main/include/wifi/wifi_def.h, and the modes of the Wi-Fi library that they
-- choose. `wifi_init_sta` names its modes itself and uses none of these.
use hydroponic_closet.Prelude.{ℕ, List, []}

-- wifi_auth_mode_t, as far as the program names it.
pub data AuthMode : Type 0 where
  wifi_auth_open wifi_auth_wep wifi_auth_wpa_psk wifi_auth_wpa2_psk : AuthMode
  wifi_auth_wpa_wpa2_psk wifi_auth_wpa3_psk wifi_auth_wpa2_wpa3_psk wifi_auth_wapi_psk : AuthMode

-- wifi_sae_pwe_method_t, likewise.
pub data PweMethod : Type 0 where
  wpa3_sae_pwe_hunt_and_peck wpa3_sae_pwe_hash_to_element wpa3_sae_pwe_both : PweMethod

-- CONFIG_ESP_WPA3_SAE_PWE_...
pub data PweOption : Type 0 where
  hunt_and_peck hash_to_element both : PweOption

-- CONFIG_ESP_WIFI_AUTH_...
pub data AuthOption : Type 0 where
  open_net wep wpa_psk wpa2_psk wpa_wpa2_psk wpa3_psk wpa2_wpa3_psk wapi_psk : AuthOption

unfoldable pub esp_wifi_sae_mode : PweOption → PweMethod
esp_wifi_sae_mode hunt_and_peck = wpa3_sae_pwe_hunt_and_peck
esp_wifi_sae_mode hash_to_element = wpa3_sae_pwe_hash_to_element
esp_wifi_sae_mode both = wpa3_sae_pwe_both

-- `pw_id` is CONFIG_ESP_WIFI_PW_ID.
unfoldable pub example_h2e_identifier : List ℕ → PweOption → List ℕ
example_h2e_identifier pw_id hunt_and_peck = []
example_h2e_identifier pw_id hash_to_element = pw_id
example_h2e_identifier pw_id both = pw_id

unfoldable pub esp_wifi_scan_auth_mode_threshold : AuthOption → AuthMode
esp_wifi_scan_auth_mode_threshold open_net = wifi_auth_open
esp_wifi_scan_auth_mode_threshold wep = wifi_auth_wep
esp_wifi_scan_auth_mode_threshold wpa_psk = wifi_auth_wpa_psk
esp_wifi_scan_auth_mode_threshold wpa2_psk = wifi_auth_wpa2_psk
esp_wifi_scan_auth_mode_threshold wpa_wpa2_psk = wifi_auth_wpa_wpa2_psk
esp_wifi_scan_auth_mode_threshold wpa3_psk = wifi_auth_wpa3_psk
esp_wifi_scan_auth_mode_threshold wpa2_wpa3_psk = wifi_auth_wpa2_wpa3_psk
esp_wifi_scan_auth_mode_threshold wapi_psk = wifi_auth_wapi_psk
