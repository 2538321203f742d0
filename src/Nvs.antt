-- ===== src/Nvs.antt =====
-- The start of the flash storage, with which `init_bt` (src/main/include/blue/bt_main.c) and
-- `app_main` (src/main/main.cpp) begin.
use hydroponic_closet.Prelude.{Bool, true, false, ◌||◌, [], ◌∷◌, if◌then◌else◌}
use hydroponic_closet.Esp.{Performed}

-- What nvs_flash_init reports.
pub data NvsResult : Type 0 where
  esp_ok no_free_pages new_version_found other_error : NvsResult

-- nvs_flash_init and nvs_flash_erase.
pub data NvsCall : Type 0 where
  nvs_flash_init nvs_flash_erase : NvsCall

-- What the storage answers to the first and the second nvs_flash_init, and whether it can be erased.
pub record Nvs : Type 0 where
  pub first : NvsResult
  pub second : NvsResult
  pub erases : Bool

abbrev pub is_ok : NvsResult → Bool
is_ok esp_ok = true
is_ok _ = false

-- ret == ESP_ERR_NVS_NO_FREE_PAGES
abbrev pub is_full : NvsResult → Bool
is_full no_free_pages = true
is_full _ = false

-- ret == ESP_ERR_NVS_NEW_VERSION_FOUND
abbrev pub is_newer : NvsResult → Bool
is_newer new_version_found = true
is_newer _ = false

-- The first attempt, and behind an erase the second.
abbrev pub erase_and_retry : Nvs → Performed NvsCall
erase_and_retry nvs =
    if nvs.erases
    then record { made = nvs_flash_init ∷ nvs_flash_erase ∷ nvs_flash_init ∷ []; goes_on = true }
    else record { made = nvs_flash_init ∷ nvs_flash_erase ∷ []; goes_on = false }

-- In `init_bt`: only a full storage is erased, and the last result is checked.
unfoldable pub init_bt_nvs : Nvs → Performed NvsCall
init_bt_nvs nvs =
    if is_full nvs.first
    then (let p = erase_and_retry nvs in
        if p.goes_on then record p { goes_on = is_ok nvs.second } else p)
    else record { made = nvs_flash_init ∷ []; goes_on = is_ok nvs.first }

-- In `app_main`: one of another version is erased too, and the last result is not checked.
unfoldable pub app_main_nvs : Nvs → Performed NvsCall
app_main_nvs nvs =
    if is_full nvs.first || is_newer nvs.first
    then erase_and_retry nvs
    else record { made = nvs_flash_init ∷ []; goes_on = true }
