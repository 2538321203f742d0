-- ===== src/Closet/Credentials.antt =====
-- The Wi-Fi credentials: the loop of `app_main` (src/main/main.cpp) that waits for the file, and the
-- copies that `wifi_init_sta` (src/main/include/wifi/wifi_def.c) makes of them.
pub mod Received
use hydroponic_closet.Prelude.{
  ℕ, ◌+◌, Bool, true, false, ◌&&◌, ◌==◌, List, [], ◌∷◌, ◌++◌, Option, none, some, length, drop, set,
  replicate, ltb, if◌then◌else◌,
}
use hydroponic_closet.Closet.Options.{AuthMode, wifi_auth_open, PweMethod, wpa3_sae_pwe_both}

-- The C string at the start of an array.
unfoldable pub c_string : List ℕ → List ℕ
c_string [] = []
c_string (b ∷ bs) = if b == 0 then [] else b ∷ c_string bs

-- strcmp of two strings is 0
unfoldable pub same_string : List ℕ → List ℕ → Bool
same_string [] [] = true
same_string [] (y ∷ ys) = false
same_string (x ∷ xs) [] = false
same_string (x ∷ xs) (y ∷ ys) = x == y && same_string xs ys

pub record Credentials : Type 0 where
  pub ssid : List ℕ
  pub pass : List ℕ

-- "wifi.config"
abbrev pub wifi_config : List ℕ
wifi_config = b'w' ∷ b'i' ∷ b'f' ∷ b'i' ∷ b'.' ∷ b'c' ∷ b'o' ∷ b'n' ∷ b'f' ∷ b'i' ∷ b'g' ∷ []

-- What a round of the loop leaves: the credentials that it found, if it did, and the two arrays.
pub record Poll : Type 0 where
  pub found : Option Credentials
  pub fi : List ℕ
  pub content : List ℕ

-- `scan` is sscanf with the format "SSID: %s PASS: %s", `none` if it does not assign both. The first
-- bytes of both arrays are cleared in any case.
unfoldable pub poll : (List ℕ → Option Credentials) → List ℕ → List ℕ → Poll
poll scan fi content = record {
  found = if same_string (c_string fi) wifi_config then scan (c_string content) else none;
  fi = set fi 0 0;
  content = set content 0 0;
}

-- strcpy into a field: `none` is a write past its end.
unfoldable pub strcpy : List ℕ → List ℕ → Option (List ℕ)
strcpy field s =
    if ltb (length s) (length field) then some (s ++ 0 ∷ drop (length s + 1) field) else none

-- The station's configuration. The sizes of the fields `ssid` and `password` are the Wi-Fi
-- library's.
pub record StaConfig : Type 0 where
  pub ssid : List ℕ
  pub password : List ℕ
  pub authmode : AuthMode  -- threshold.authmode
  pub sae_pwe_h2e : PweMethod
  pub sae_h2e_identifier : List ℕ

-- The configuration that `wifi_init_sta` starts from, for fields of these sizes.
unfoldable pub sta_config : ℕ → ℕ → StaConfig
sta_config ssid_size password_size = record {
  ssid = replicate ssid_size 0;
  password = replicate password_size 0;
  authmode = wifi_auth_open;
  sae_pwe_h2e = wpa3_sae_pwe_both;
  sae_h2e_identifier = [];
}

unfoldable pub set_credentials : StaConfig → Credentials → Option StaConfig
set_credentials config c = elim (strcpy config.ssid c.ssid) [
  | none ↦ none
  | some a ↦ elim (strcpy config.password c.pass) [
    | none ↦ none
    | some b ↦ some (record config { ssid = a; password = b })
  ]
]
