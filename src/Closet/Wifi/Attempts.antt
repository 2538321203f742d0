-- ===== src/Closet/Wifi/Attempts.antt =====
-- One call of `wifi_init_sta` (src/main/include/wifi/wifi_def.c) and the next.
use hydroponic_closet.Prelude.{
  ℕ, zero, suc, ap, sym, ◌∙◌, replicate, ◌<◌, ◌≤◌, ◌≡◌, refl, ◌≢◌, Bool, true, false, List, [], ◌∷◌,
  ◌++◌, Option, none, some, length, length-replicate, inl, inr, ◌⊎◌, if_both, arith, if◌then◌else◌,
}
use mathlib.Core.List.{append-nil, append_assoc}
use hydroponic_closet.Esp.{perform, perform_all}
use hydroponic_closet.Closet.Station.{
  Event, sta_start, sta_disconnected, Station, maximum_retry, connect, on_disconnected, handle_all,
  wait_for_bits, wifi_sta_event_handler,
}
use hydroponic_closet.Closet.Retry.{
  IsBounded, handle_all-IsBounded, is_online, connected-handle_all,
}
use hydroponic_closet.Closet.Credentials.{
  Credentials, StaConfig, sta_config, set_credentials, strcpy,
}
use hydroponic_closet.Closet.Wifi.{
  sta_setup, sta_steps, StaEnd, aborted, returned, new_event_group, after_wait, behind_copies,
  wifi_init_sta,
}

copies_fit :
    (config : StaConfig) (c : Credentials)
    → length c.ssid < length config.ssid
    → length c.pass < length config.password
    → set_credentials config c ≢ none
unfolding set_credentials strcpy
copies_fit config c h k e = ground arith

-- A station that goes on without a connection has used up its retries.
used_up :
    (s t : Station) → IsBounded s → wait_for_bits s ≡ some t → t.wifi_ok ≡ false → t.s_retry_num ≡ 3
unfolding wait_for_bits
used_up s t v e off = ground (arith, v.used_up)

-- The handler is called `k` times for the start of the station and `suc n` times for one loss.
abbrev pub one_loss : ℕ → ℕ → List Event
one_loss k n = replicate k sta_start ++ replicate (suc n) sta_disconnected

-- How a station without retries comes out of this.
abbrev pub given_up : ℕ → Station → Station
given_up k t = record t {
  connected_bit = false;
  fail_bit = true;
  requests = t.requests ++ replicate k connect;
}

handle_all-starts :
    (k : ℕ) (s : Station) (es : List Event)
    → handle_all s (replicate k sta_start ++ es)
      ≡ handle_all (record s { requests = s.requests ++ replicate k connect }) es
unfolding handle_all wifi_sta_event_handler
handle_all-starts zero s es =
    ap (λ r. handle_all (record s { requests = r }) es) (sym (append-nil s.requests))
handle_all-starts (suc k) s es =
    handle_all-starts k (record s { requests = s.requests ++ connect ∷ [] }) es
    ∙ ap (λ r. handle_all (record s { requests = r }) es)
        (append_assoc s.requests (connect ∷ []) (replicate k connect))

-- Without retries left, each further loss does the same.
handle_all-losses :
    (n : ℕ) (s : Station)
    → s.s_retry_num ≡ 3
    → s.wifi_ok ≡ false
    → handle_all s (replicate (suc n) sta_disconnected) ≡ record s { fail_bit = true }
unfolding handle_all wifi_sta_event_handler on_disconnected
handle_all-losses zero s e off = rw (e, off) refl
handle_all-losses (suc n) s e off =
    rw (e, off)
      (handle_all-losses n (record s { s_retry_num = 3; wifi_ok = false; fail_bit = true }) refl
        refl)

-- Behind checks that all passed.
went_through :
    (ok : Bool) (e : StaEnd) (t : Station)
    → (if ok then e else aborted) ≡ returned t
    → (ok ≡ true) × (e ≡ returned t)
went_through true e t h = (refl, h)
went_through false e t h = cc

end_of_wait : (o : Option Station) (t : Station) → after_wait o ≡ returned t → o ≡ some t
end_of_wait none t e = cc
end_of_wait (some s) t e = cc

loses_at_once :
    (k n : ℕ) (t : Station)
    → t.s_retry_num ≡ 3
    → t.wifi_ok ≡ false
    → wait_for_bits (handle_all (new_event_group t) (one_loss k n)) ≡ some (given_up k t)
unfolding wait_for_bits
loses_at_once k n t e off =
    rw
      (
        handle_all-starts k (new_event_group t) (replicate (suc n) sta_disconnected),
        handle_all-losses n
            (record (new_event_group t) { requests = t.requests ++ replicate k connect }) e off,
      )
      refl

-- The program is aborted, or the attempt ends without a connection.
abbrev pub Fails : ℕ → Station → StaEnd → Type 0
Fails k t e = (e ≡ aborted) ⊎ (e ≡ returned (given_up k t))

module _ (succeeds : ℕ → Bool) (es : List Event) (s : Station) where
  next_attempt-Fails :
      (again : ℕ → Bool) (k n : ℕ) (o : Option StaConfig) (t : Station)
      → s.s_retry_num ≤ 3
      → behind_copies succeeds es s o ≡ returned t
      → t.wifi_ok ≡ false
      → Fails k t (behind_copies again (one_loss k n) t o)
  next_attempt-Fails again k n none t h e off = cc
  next_attempt-Fails again k n (some config) t h e off =
      let (_, w) =
        went_through (perform succeeds 5 (sta_steps config)).goes_on
          (after_wait (wait_for_bits (handle_all (new_event_group s) es))) t e in
      let v =
        handle_all-IsBounded es (new_event_group s) (record { capped = h; used_up = inl refl }) in
      if_both (Fails k t) (perform again 5 (sta_steps config)).goes_on
        (λ _. inr (ap after_wait (loses_at_once k n t (used_up _ t v (end_of_wait _ t w) off) off)))
        (λ _. inl refl)

  joins :
      (o : Option StaConfig)
      → o ≢ none
      → ((k : ℕ) → succeeds k ≡ true)
      → is_online es ≡ true
      → (t : Station) × (behind_copies succeeds es s o ≡ returned t) × (t.wifi_ok ≡ true)
  unfolding wait_for_bits
  joins none n h on = elim (n refl) [ ]
  joins (some config) n h on =
      rw
        (
          perform_all succeeds 5 (sta_steps config) h,
          connected-handle_all (new_event_group s) es,
          on,
        )
        (_, refl, refl)

module _ (ssid_size password_size : ℕ) (succeeds : ℕ → Bool) (es : List Event) (c : Credentials)
    (s : Station) where
  -- If wifi_init_sta returns without a connection and is called again with the same credentials,
  -- then, whatever its calls report this time, and however often the handler, registered once more,
  -- is called for the start of the station and then for one loss: either a call aborts the program,
  -- or this one loss ends the new attempt without a connection, since the retries of the first one
  -- still count.
  pub wifi_init_sta_again :
      (again : ℕ → Bool) (k n : ℕ) (t : Station)
      → s.s_retry_num ≤ maximum_retry
      → wifi_init_sta ssid_size password_size succeeds es c s ≡ returned t
      → t.wifi_ok ≡ false
      → Fails k t (wifi_init_sta ssid_size password_size again (one_loss k n) c t)
  unfolding wifi_init_sta
  wifi_init_sta_again again k n t h e off =
      let (_, w) =
        went_through (perform succeeds 0 sta_setup).goes_on
          (behind_copies succeeds es s (set_credentials (sta_config ssid_size password_size) c)) t
          e in
      if_both (Fails k t) (perform again 0 sta_setup).goes_on
        (λ _.
          next_attempt-Fails succeeds es s again k n
            (set_credentials (sta_config ssid_size password_size) c) t h w off)
        (λ _. inl refl)

  -- If the credentials are shorter than their fields, all calls report success and the events say
  -- that an address was given, wifi_init_sta returns and reports the connection.
  pub wifi_init_sta_joins :
      length c.ssid < ssid_size
      → length c.pass < password_size
      → ((k : ℕ) → succeeds k ≡ true)
      → is_online es ≡ true
      → (t : Station) × (wifi_init_sta ssid_size password_size succeeds es c s ≡ returned t)
        × (t.wifi_ok ≡ true)
  unfolding wifi_init_sta sta_config
  wifi_init_sta_joins a b h on = rw (perform_all succeeds 0 sta_setup h) (
      joins succeeds es s (set_credentials (sta_config ssid_size password_size) c)
        (copies_fit (sta_config ssid_size password_size) c
          (rw (length-replicate {A = ℕ} ssid_size 0) a)
          (rw (length-replicate {A = ℕ} password_size 0) b))
        h on)
