-- ===== src/Bt/Start/Tasks.antt =====
-- What `init_bt` (bt_main.c) has started when it returns.
use hydroponic_closet.Prelude.{
  ℕ, ◌<◌, ◌≡◌, refl, sym, Bool, true, false, ◌&&◌, List, [], ◌∷◌, ◌++◌, some, if◌then◌else◌,
  Bool-cases, inl, inr,
}
use hydroponic_closet.Nvs.{Nvs, NvsCall, init_bt_nvs}
use hydroponic_closet.Bt.Start.{
  Controller, is_idle, is_enabled, BtCall, nvs, mem_release, register_callback, create_queue,
  restart, create_send, create_advert, nvs_calls, init_queue, start_tasks, Init, init_bt,
}
use hydroponic_closet.Bt.Start.Ready.{reading, start_bt_returns}

-- The tasks among what was created.
unfoldable pub tasks : List BtCall → List BtCall
tasks [] = []
tasks (create_send ∷ cs) = create_send ∷ tasks cs
tasks (create_advert ∷ cs) = create_advert ∷ tasks cs
tasks (_ ∷ cs) = tasks cs

-- Calls that create no task leave the tasks among those behind them.
tasks_quiet : (cs ds : List BtCall) → tasks cs ≡ [] → tasks (cs ++ ds) ≡ tasks ds
unfolding tasks
tasks_quiet [] ds h = refl
tasks_quiet (create_send ∷ cs) ds h = cc
tasks_quiet (create_advert ∷ cs) ds h = cc
tasks_quiet (nvs c ∷ cs) ds h = tasks_quiet cs ds h
tasks_quiet (mem_release ∷ cs) ds h = tasks_quiet cs ds h
tasks_quiet (register_callback ∷ cs) ds h = tasks_quiet cs ds h
tasks_quiet (create_queue ∷ cs) ds h = tasks_quiet cs ds h
tasks_quiet (restart ∷ cs) ds h = tasks_quiet cs ds h

tasks-nvs_calls : (cs : List NvsCall) → tasks (nvs_calls cs) ≡ []
unfolding tasks
tasks-nvs_calls [] = refl
tasks-nvs_calls (c ∷ cs) = tasks-nvs_calls cs

abbrev calls_before : Nvs → Bool → List BtCall
calls_before storage release =
    nvs_calls (init_bt_nvs storage).made ++ (if release then mem_release ∷ [] else [])

tasks-calls_before : (storage : Nvs) (release : Bool) → tasks (calls_before storage release) ≡ []
unfolding tasks
tasks-calls_before storage true =
    tasks_quiet (nvs_calls (init_bt_nvs storage).made) (mem_release ∷ [])
      (tasks-nvs_calls (init_bt_nvs storage).made)
tasks-calls_before storage false =
    tasks_quiet (nvs_calls (init_bt_nvs storage).made) []
      (tasks-nvs_calls (init_bt_nvs storage).made)

module _ (api : Controller) where
  open api use {S, status, wait, init}

  -- The tasks behind `start_bt`, whose result is `ok`, if there were none before.
  tasks-start_tasks :
      (ok created : Bool) (calls : List BtCall) (s : S)
      → tasks calls ≡ []
      → tasks (start_tasks api ok created calls s).calls
        ≡ (if ok && created then create_send ∷ create_advert ∷ [] else [])
  unfolding start_tasks init_queue tasks
  tasks-start_tasks true true calls s h =
      tasks_quiet calls
        (register_callback ∷ (create_queue ∷ []) ++ create_send ∷ create_advert ∷ []) h
  tasks-start_tasks true false calls s h =
      tasks_quiet calls (register_callback ∷ create_queue ∷ restart ∷ []) h
  tasks-start_tasks false created calls s h = h

  start_tasks_controller :
      (ok created : Bool) (calls : List BtCall) (s : S)
      → (start_tasks api ok created calls s).controller ≡ s
  unfolding start_tasks init_queue
  start_tasks_controller true true calls s = refl
  start_tasks_controller true false calls s = refl
  start_tasks_controller false created calls s = refl

  -- If the controller, once initialised, leaves the idle status within the readings allowed,
  -- init_bt comes to an end. The tasks that it has created are the one that sends and then the one
  -- that advertises if the storage is ready, the controller enabled and the queue created, and
  -- none otherwise.
  pub tasks-init_bt :
      (storage : Nvs) (release created : Bool) (fuel k : ℕ) (s : S)
      → k < fuel
      → is_idle (status (reading api k (init (wait (wait s))))) ≡ false
      → (i : Init api) × (init_bt api storage release created fuel s ≡ some i)
        × (tasks i.calls ≡ (
            if (init_bt_nvs storage).goes_on && is_enabled (status i.controller) && created
            then create_send ∷ create_advert ∷ []
            else []))
  unfolding init_bt
  tasks-init_bt storage release created fuel k s h e =
      elim (Bool-cases (init_bt_nvs storage).goes_on) [
        | inl g ↦
            (let (r, q, o) = start_bt_returns api fuel k s h e in
              rw (g, q)
                (
                  _,
                  refl,
                  rw
                      (
                        start_tasks_controller r.ok created (calls_before storage release) r.state,
                        sym o,
                      )
                      (tasks-start_tasks r.ok created (calls_before storage release) r.state
                        (tasks-calls_before storage release)),
                ))
        | inr g ↦ rw (g) (_, refl, tasks-nvs_calls (init_bt_nvs storage).made)
      ]
