-- ===== src/Closet/Retry.antt =====
-- How often the station tries again, and when it gives up.
use mathlib.Core.List.{append_assoc}
use hydroponic_closet.Prelude.{
  ℕ, suc, ◌+◌, ◌≤◌, ◌<◌, ◌≡◌, refl, Bool, true, false, List, [], ◌∷◌, ◌++◌, some, arith, replicate,
  if◌then◌else◌, ◌⊎◌, ◌||◌, ◌∙◌, ap, sym,
}
use hydroponic_closet.Closet.Station.{
  Event, sta_start, sta_disconnected, sta_got_ip, other, connect, restart, Station, maximum_retry,
  wifi_sta_event_handler, handle_all, wait_for_bits,
}

-- The station before the first event.
abbrev pub idle : Station
idle = record {
  s_retry_num = 0;
  connected_bit = false;
  fail_bit = false;
  wifi_ok = false;
  requests = [];
}

-- The retries never pass the maximum, and the station gives up only when they are used up.
pub record IsBounded (s : Station) : Type 0 where
  pub capped : s.s_retry_num ≤ maximum_retry
  pub used_up : (s.fail_bit ≡ false) ⊎ (s.connected_bit ≡ true) ⊎ (s.s_retry_num ≡ maximum_retry)

step-IsBounded : (s : Station) (e : Event) → IsBounded s → IsBounded (wifi_sta_event_handler s e)
unfolding wifi_sta_event_handler
step-IsBounded s e v = ground arith

-- Whatever events come in, a station stays within the bounds: at most three retries, and if the
-- bit for failure is set without that for a connection, all three are used up.
pub handle_all-IsBounded :
    (es : List Event) (s : Station) → IsBounded s → IsBounded (handle_all s es)
unfolding handle_all
handle_all-IsBounded [] s v = v
handle_all-IsBounded (e ∷ es) s v =
    handle_all-IsBounded es (wifi_sta_event_handler s e) (step-IsBounded s e v)

one_retry :
    (s : Station)
    → s.s_retry_num < 3
    → wifi_sta_event_handler s sta_disconnected
      ≡ record s { s_retry_num = s.s_retry_num + 1; requests = s.requests ++ connect ∷ [] }
unfolding wifi_sta_event_handler
one_retry s h = ground arith

three_retries :
    (s : Station)
    → s.s_retry_num ≡ 0
    → handle_all s (replicate 3 sta_disconnected)
      ≡ record s { s_retry_num = 3; requests = s.requests ++ replicate 3 connect }
unfolding handle_all
three_retries s h =
    let q = s.requests in
    let s1 : Station = record s { s_retry_num = s.s_retry_num + 1; requests = q ++ connect ∷ [] } in
    let s2 : Station = record s1 {
      s_retry_num = s1.s_retry_num + 1;
      requests = s1.requests ++ connect ∷ [];
    } in
    ap (λ t. lose (lose t)) (one_retry s (omega arith))
    ∙ ap lose (one_retry s1 (omega arith))
    ∙ one_retry s2 (omega arith)
    ∙ ground (
      arith,
      append_assoc q (connect ∷ []) (connect ∷ []),
      append_assoc q (connect ∷ connect ∷ []) (connect ∷ []),
    )
  where
    lose : Station → Station
    lose t = wifi_sta_event_handler t sta_disconnected

-- What a loss costs once the retries are used up.
abbrev pub given_up : Station → Station
given_up s =
    if s.wifi_ok
    then record s { fail_bit = true; requests = s.requests ++ restart ∷ [] }
    else record s { fail_bit = true }

no_retry :
    (s : Station) → s.s_retry_num ≡ 3 → wifi_sta_event_handler s sta_disconnected ≡ given_up s
unfolding wifi_sta_event_handler
no_retry s h = ground arith

-- From a station with no retry counted, the first three losses in a row each ask
-- for a new connection and nothing else, and the fourth sets the bit for failure; it asks for a
-- restart exactly if the program was told that it is online.
pub fourth_loss :
    (s : Station)
    → s.s_retry_num ≡ 0
    → (handle_all s (replicate 3 sta_disconnected)
        ≡ record s { s_retry_num = 3; requests = s.requests ++ replicate 3 connect })
      × (handle_all s (replicate 4 sta_disconnected)
          ≡ given_up (handle_all s (replicate 3 sta_disconnected)))
unfolding handle_all
fourth_loss s h = (
  three_retries s h,
  ap (λ t. wifi_sta_event_handler t sta_disconnected) (three_retries s h)
      ∙ no_retry _ refl
      ∙ ap given_up (sym (three_retries s h)),
)

-- An address was given, and how often the connection was lost.
abbrev pub is_online : List Event → Bool
is_online [] = false
is_online (sta_got_ip ∷ es) = true
is_online (_ ∷ es) = is_online es

abbrev pub losses : List Event → ℕ
losses [] = 0
losses (sta_disconnected ∷ es) = suc (losses es)
losses (_ ∷ es) = losses es

wifi_ok-handle_all : (s : Station) (es : List Event) → (handle_all s es).wifi_ok ≡ s.wifi_ok
unfolding handle_all wifi_sta_event_handler
wifi_ok-handle_all s [] = refl
wifi_ok-handle_all s (sta_start ∷ es) = wifi_ok-handle_all (wifi_sta_event_handler s sta_start) es
wifi_ok-handle_all s (sta_disconnected ∷ es) =
    ground (arith, wifi_ok-handle_all (wifi_sta_event_handler s sta_disconnected) es)
wifi_ok-handle_all s (sta_got_ip ∷ es) = wifi_ok-handle_all (wifi_sta_event_handler s sta_got_ip) es
wifi_ok-handle_all s (other ∷ es) = wifi_ok-handle_all s es

pub connected-handle_all :
    (s : Station) (es : List Event)
    → (handle_all s es).connected_bit ≡ (s.connected_bit || is_online es)
unfolding handle_all wifi_sta_event_handler
connected-handle_all s [] = ground arith
connected-handle_all s (sta_start ∷ es) =
    connected-handle_all (wifi_sta_event_handler s sta_start) es
connected-handle_all s (sta_disconnected ∷ es) =
    ground (arith, connected-handle_all (wifi_sta_event_handler s sta_disconnected) es)
connected-handle_all s (sta_got_ip ∷ es) =
    ground (arith, connected-handle_all (wifi_sta_event_handler s sta_got_ip) es)
connected-handle_all s (other ∷ es) = connected-handle_all s es

-- The losses that have been used up.
abbrev spent : Station → ℕ
spent s = if s.fail_bit then 4 else s.s_retry_num

spent-handle_all :
    (s : Station) (es : List Event)
    → s.s_retry_num ≤ 3
    → spent (handle_all s es) ≤ spent s + losses es
unfolding handle_all wifi_sta_event_handler
spent-handle_all s [] h = omega arith
spent-handle_all s (sta_start ∷ es) h = spent-handle_all (wifi_sta_event_handler s sta_start) es h
spent-handle_all s (sta_disconnected ∷ es) h =
    ground (arith, spent-handle_all (wifi_sta_event_handler s sta_disconnected) es)
spent-handle_all s (sta_got_ip ∷ es) h =
    ground (arith, spent-handle_all (wifi_sta_event_handler s sta_got_ip) es)
spent-handle_all s (other ∷ es) h = spent-handle_all s es h

-- When `wifi_init_sta` goes on after any events since the start, it reports a connection exactly
-- if an address was given, and without one at least four losses came before.
pub wait_for_bits_lem :
    (es : List Event) (t : Station)
    → wait_for_bits (handle_all idle es) ≡ some t
    → (t.wifi_ok ≡ is_online es) × ((is_online es ≡ true) ⊎ (4 ≤ losses es))
unfolding wait_for_bits
wait_for_bits_lem es t e =
    ground
      (arith, connected-handle_all idle es, spent-handle_all idle es, wifi_ok-handle_all idle es)
