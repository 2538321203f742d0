-- ===== src/Bt/Start/Ready.antt =====
-- When `start_bt` (bt_main.c) returns, and with what.
use hydroponic_closet.Prelude.{
  ℕ, zero, suc, ◌<◌, ◌≡◌, refl, sym, ap, ◌∙◌, true, false, none, some, inl, inr, Bool-cases, arith,
}
use hydroponic_closet.Bt.Start.{
  Status, idle, inited, enabled, Controller, is_idle, is_inited, is_enabled, leave_idle,
  StartResult, report, enable_bt, start_bt,
}

enabled_busy : (x : Status) → is_enabled x ≡ true → is_idle x ≡ false
enabled_busy idle h = cc
enabled_busy inited h = refl
enabled_busy enabled h = refl

idle_off : (x : Status) → is_idle x ≡ true → is_enabled x ≡ false
idle_off idle h = refl
idle_off inited h = refl
idle_off enabled h = cc

module _ (api : Controller) where
  open api use {S, status, wait, init, enable, enable_ok, stays, enables, leaves}

  -- The state at the k-th of the next readings.
  unfoldable pub reading : ℕ → S → S
  reading zero s = s
  reading (suc k) s = reading k (wait s)

  leave_idle-some :
      (fuel k : ℕ) (s : S)
      → k < fuel
      → is_idle (status (reading k s)) ≡ false
      → (t : S) × (leave_idle api fuel s ≡ some t) × (is_idle (status t) ≡ false)
  unfolding leave_idle reading
  leave_idle-some zero k s h e = elim h [ ]
  leave_idle-some (suc fuel) zero s h e = rw (e) (wait s, refl, ap is_idle (stays s e) ∙ e)
  leave_idle-some (suc fuel) (suc k) s h e = elim (Bool-cases (is_idle (status s))) [
    | inl b ↦ rw (b) (leave_idle-some fuel k (wait s) (omega arith) e)
    | inr b ↦ rw (b) (wait s, refl, ap is_idle (stays s b) ∙ b)
  ]

  leave_idle-none :
      (fuel : ℕ) (s : S)
      → ((k : ℕ) → is_idle (status (reading k s)) ≡ true)
      → leave_idle api fuel s ≡ none
  unfolding leave_idle reading
  leave_idle-none zero s h = refl
  leave_idle-none (suc fuel) s h = rw (h 0) (leave_idle-none fuel (wait s) (λ k. h (suc k)))

  report_lem :
      (s : S)
      → is_idle (status s) ≡ false
      → (report api s).ok ≡ is_enabled (status (report api s).state)
  unfolding report
  report_lem s h = rw (stays s h) refl

  enable_bt_lem :
      (s : S)
      → is_idle (status s) ≡ false
      → (enable_bt api s).ok ≡ is_enabled (status (enable_bt api s).state)
  unfolding enable_bt
  enable_bt_lem s h = elim (Bool-cases (is_inited (status s))) [
    | inl b ↦
        (let i = ap is_inited (stays s h) ∙ b in
          elim (Bool-cases (enable_ok (wait s))) [
            | inl ok ↦ rw (b, ok) (report_lem (enable (wait s)) (leaves (wait s) i))
            | inr ok ↦ rw (b, ok) (sym (enables (wait s) i ∙ ok))
          ])
    | inr b ↦ rw (b) (report_lem (wait s) (ap is_idle (stays s h) ∙ h))
  ]

  -- If the controller, once initialised, leaves the idle status within the readings allowed,
  -- start_bt returns, whatever status it began from; and it returns true exactly if the controller
  -- is enabled then.
  pub start_bt_returns :
      (fuel k : ℕ) (s : S)
      → k < fuel
      → is_idle (status (reading k (init (wait (wait s))))) ≡ false
      → (r : StartResult api) × (start_bt api fuel s ≡ some r)
        × (r.ok ≡ is_enabled (status r.state))
  unfolding start_bt
  start_bt_returns fuel k s h e = elim (Bool-cases (is_enabled (status s))) [
    | inl b ↦ rw (b) (_, refl, sym (ap is_enabled (stays s (enabled_busy _ b)) ∙ b))
    | inr b ↦ elim (Bool-cases (is_idle (status (wait s)))) [
      | inl c ↦
          (let (t, q, i) = leave_idle-some fuel k (init (wait (wait s))) h e in
            rw (b, c, q) (_, refl, enable_bt_lem t i))
      | inr c ↦
          rw (b, c) (_, refl, enable_bt_lem (wait (wait s)) (ap is_idle (stays (wait s) c) ∙ c))
    ]
  ]

  -- If the controller is idle and its initialisation fails, so that it stays idle, start_bt never
  -- returns: no number of readings is enough.
  pub start_bt_waits :
      (fuel : ℕ) (s : S)
      → is_idle (status s) ≡ true
      → is_idle (status (wait s)) ≡ true
      → ((k : ℕ) → is_idle (status (reading k (init (wait (wait s))))) ≡ true)
      → start_bt api fuel s ≡ none
  unfolding start_bt
  start_bt_waits fuel s a b h = rw (idle_off _ a, b, leave_idle-none fuel _ h) refl
