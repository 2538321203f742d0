-- ===== src/Bt/Start.antt =====
-- The start of the Bluetooth stack: `init_queue`, `start_bt` and `init_bt` of bt_main.c. The
-- controller's library is a parameter.
pub mod Ready
pub mod Tasks
use hydroponic_closet.Prelude.{
  ℕ, zero, suc, ◌≡◌, Bool, true, false, List, [], ◌∷◌, ◌++◌, Option, none, some, if◌then◌else◌,
}
use hydroponic_closet.Esp.{Performed}
use hydroponic_closet.Nvs.{Nvs, NvsCall, init_bt_nvs}

-- ESP_BT_CONTROLLER_STATUS_...
pub data Status : Type 0 where
  idle inited enabled : Status

abbrev pub is_idle : Status → Bool
is_idle idle = true
is_idle _ = false

abbrev pub is_inited : Status → Bool
is_inited inited = true
is_inited _ = false

abbrev pub is_enabled : Status → Bool
is_enabled enabled = true
is_enabled _ = false

-- The controller's library: its state, what esp_bt_controller_get_status reports in it, how it
-- moves on by itself up to the next call, and the calls that change it. `enable_ok` tells
-- whether `enable` reports ESP_OK. A status other than `idle` stays until the next such call, and a
-- controller that is `inited` stays so or, just if `enable` reports ESP_OK, is `enabled`.
pub record Controller : Type 1 where
  pub S : Type 0
  pub status : S → Status
  pub wait : S → S
  pub init : S → S
  pub enable : S → S
  pub disable : S → S
  pub enable_ok : S → Bool
  pub stays : (s : S) → is_idle (status s) ≡ false → status (wait s) ≡ status s
  pub enables : (s : S) → is_inited (status s) ≡ true → is_enabled (status (enable s)) ≡ enable_ok s
  pub leaves : (s : S) → is_inited (status s) ≡ true → is_idle (status (enable s)) ≡ false

-- The calls of `init_bt` besides the controller's.
pub data BtCall : Type 0 where
  nvs : NvsCall → BtCall
  mem_release : BtCall  -- esp_bt_controller_mem_release(ESP_BT_MODE_BLE)
  register_callback : BtCall  -- esp_vhci_host_register_callback(&vhci_host_cb)
  create_queue : BtCall  -- xQueueCreateStatic
  restart : BtCall  -- esp_restart
  create_send create_advert : BtCall  -- xTaskCreate for `send` and for `btAdvtTask`

-- `created` tells whether xQueueCreateStatic delivers a queue.
unfoldable pub init_queue : Bool → Performed BtCall
init_queue created =
    if created
    then record { made = create_queue ∷ []; goes_on = true }
    else record { made = create_queue ∷ restart ∷ []; goes_on = false }

abbrev pub nvs_calls : List NvsCall → List BtCall
nvs_calls [] = []
nvs_calls (c ∷ cs) = nvs c ∷ nvs_calls cs

-- How `init_bt` ends: with both tasks, without them since `start_bt` failed, or not at all since a
-- failed check or `init_queue` restarts the chip.
pub data InitEnd : Type 0 where
  running not_started reset : InitEnd

module _ (api : Controller) where
  open api use {S, status, wait, init, enable, enable_ok}

  -- while (esp_bt_controller_get_status() == ESP_BT_CONTROLLER_STATUS_IDLE);
  -- The state behind the first reading that ends it, `none` if `fuel` readings do not.
  unfoldable pub leave_idle : ℕ → S → Option S
  leave_idle zero s = none
  leave_idle (suc fuel) s =
      let rest = leave_idle fuel (wait s) in if is_idle (status s) then rest else some (wait s)

  pub record StartResult : Type 0 where
    pub ok : Bool  -- the result of `start_bt`
    pub state : S

  -- The last `if` of `start_bt`.
  unfoldable pub report : S → StartResult
  report s = record { ok = is_enabled (status s); state = wait s }

  -- Its third `if` and what follows.
  unfoldable pub enable_bt : S → StartResult
  enable_bt s =
      if is_inited (status s)
      then (if enable_ok (wait s)
          then report (enable (wait s))
          else record { ok = false; state = enable (wait s) })
      else report (wait s)

  -- `fuel` bounds the readings of the loop.
  unfoldable pub start_bt : ℕ → S → Option StartResult
  start_bt fuel s =
      if is_enabled (status s)
      then some (record { ok = true; state = wait s })
      else if is_idle (status (wait s))
      then (elim (leave_idle fuel (init (wait (wait s)))) [
        | none ↦ none
        | some t ↦ some (enable_bt t)
      ])
      else some (enable_bt (wait (wait s)))

  pub record Init : Type 0 where
    pub calls : List BtCall
    pub ending : InitEnd
    pub controller : S

  -- Behind `start_bt`, whose result is `ok`.
  unfoldable pub start_tasks : Bool → Bool → List BtCall → S → Init
  start_tasks ok created calls s =
      if ok
      then (let q = init_queue created in
          if q.goes_on
          then record {
            calls = calls ++ (register_callback ∷ q.made ++ create_send ∷ create_advert ∷ []);
            ending = running;
            controller = s;
          }
          else record {
            calls = calls ++ register_callback ∷ q.made;
            ending = reset;
            controller = s;
          })
      else record { calls = calls; ending = not_started; controller = s }

  -- `release` is CONFIG_BTDM_CTRL_MODE_BR_EDR_ONLY.
  unfoldable pub init_bt : Nvs → Bool → Bool → ℕ → S → Option Init
  init_bt storage release created fuel s =
      let p = init_bt_nvs storage in
      let calls = nvs_calls p.made ++ (if release then mem_release ∷ [] else []) in
      if p.goes_on
      then (elim (start_bt fuel s) [
        | none ↦ none
        | some r ↦ some (start_tasks r.ok created calls r.state)
      ])
      else some (record { calls = nvs_calls p.made; ending = reset; controller = s })
