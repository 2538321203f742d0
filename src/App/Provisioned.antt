-- ===== src/App/Provisioned.antt =====
-- From the packets of a peer to the Wi-Fi connection: two rounds of the main loop (src/main/main.cpp)
-- and the Bluetooth callback (blue/bt_main.c) in between.
use hydroponic_closet.Prelude.{
  ℕ, ◌<◌, ◌≡◌, refl, ap, ◌∙◌, Bool, true, List, [], ◌∷◌, ◌++◌, Option, none, some, length,
}
use hydroponic_closet.Bt.State.{Packet, Session, Outcome, done, overrun, hang}
use hydroponic_closet.Bt.Handler.{serve}
use hydroponic_closet.Bt.Receive.Object.{received_file}
use hydroponic_closet.Bt.Protocol.Server.{Server, steps, AreRequests}
use hydroponic_closet.Bt.Protocol.Server.Taken.{server_of}
use hydroponic_closet.Bt.Protocol.Server.Steps.{serve-steps}
use hydroponic_closet.Bt.Start.{Controller, Init, init_bt}
use hydroponic_closet.Closet.Station.{Station}
use hydroponic_closet.Closet.Credentials.{Credentials, wifi_config, poll}
use hydroponic_closet.Closet.Credentials.Received.{same_string_refl}
use hydroponic_closet.Closet.Wifi.Attempts.{wifi_init_sta_joins}
use hydroponic_closet.Closet.Retry.{is_online}
use hydroponic_closet.App.Without.{IsWithout, app_round_without}
use hydroponic_closet.App.{
  missing, found, still_waiting, after_poll, after_callback, wait_for_file, poll_arrays,
  keep_arrays, Round, App, again, online, connect_wifi, load_credentials, runs_on, after_init_bt,
  branch, app_round, app_main,
}

module _ (api : Controller) (scan : List ℕ → Option Credentials) (release : Bool) where
  open api use {disable}

  -- The arrays hold a file from which the loop takes the credentials.
  wait_for_file-taken :
      (packets : List (Packet × ℕ)) (rest : List (List (Packet × ℕ))) (s t : Session)
      (c : Credentials)
      → serve s packets ≡ done t
      → (received_file t).name ≡ wifi_config
      → scan (received_file t).text ≡ some c
      → wait_for_file scan (packets ∷ rest) s ≡ found c (keep_arrays (poll_arrays scan t) t)
  unfolding wait_for_file poll
  wait_for_file-taken packets rest s t c e n x = rw (e, n, same_string_refl wifi_config, x) refl

  module _ (v : Session) (looks more : List (List (Packet × ℕ)))
      (onward : (u : Session)
        → wait_for_file scan looks u ≡ still_waiting v
        → wait_for_file scan (looks ++ more) u ≡ wait_for_file scan more v) where
    after_poll-onward :
        (o : Option Credentials) (u : Session)
        → after_poll (wait_for_file scan looks) o u ≡ still_waiting v
        → after_poll (wait_for_file scan (looks ++ more)) o u ≡ wait_for_file scan more v
    after_poll-onward none u e = onward u e
    after_poll-onward (some c) u e = cc

    after_callback-onward :
        (o : Outcome)
        → after_callback scan (wait_for_file scan looks) o ≡ still_waiting v
        → after_callback scan (wait_for_file scan (looks ++ more)) o ≡ wait_for_file scan more v
    after_callback-onward (done u) e = after_poll-onward _ _ e
    after_callback-onward overrun e = cc
    after_callback-onward hang e = cc

  -- Behind looks that found nothing.
  wait_for_file-onward :
      (looks more : List (List (Packet × ℕ))) (s v : Session)
      → wait_for_file scan looks s ≡ still_waiting v
      → wait_for_file scan (looks ++ more) s ≡ wait_for_file scan more v
  unfolding wait_for_file
  wait_for_file-onward [] more s v e = let same : s ≡ v = cc in ap (wait_for_file scan more) same
  wait_for_file-onward (packets ∷ looks) more s v e =
      after_callback-onward v looks more (λ u. wait_for_file-onward looks more u v)
        (serve s packets) e

  taken : Init api → Credentials → Session → App api scan release → App api scan release
  taken i c t a = record {
    credentials = c;
    credentials_recived = true;
    station = a.station;
    session = t;
    controller = disable i.controller;
    bt_calls = a.bt_calls ++ i.calls;
  }

  module _ (r : Round) (a : App api scan release) (without : IsWithout api scan release a)
      (i : Init api)
      (started : init_bt api r.storage release r.created r.readings a.controller ≡ some i)
      (runs : runs_on api scan release i.ending ≡ true) (none_stored : r.file ≡ missing)
      (packets : List (Packet × ℕ)) (rest : List (List (Packet × ℕ)))
      (looks : List (List (Packet × ℕ))) (v : Session)
      (delivered : r.deliveries ≡ looks ++ packets ∷ rest)
      (waited : wait_for_file scan looks a.session ≡ still_waiting v) (t : Session)
      (c : Credentials) (served : serve v packets ≡ done t)
      (name : (received_file t).name ≡ wifi_config)
      (text : scan (received_file t).text ≡ some c) where
    first_round :
        app_round api scan release r a ≡ again (taken i c (keep_arrays (poll_arrays scan t) t) a)
    unfolding taken after_init_bt load_credentials
    first_round =
        rw
          (
            app_round_without api scan release r a without,
            started,
            runs,
            none_stored,
            delivered,
            wait_for_file-onward looks (packets ∷ rest) a.session v waited,
            wait_for_file-taken packets rest v t c served name text,
          )
          refl

  second_round :
      (r : Round) (b : App api scan release)
      → b.credentials_recived ≡ true
      → length b.credentials.ssid < 32
      → length b.credentials.pass < 64
      → ((k : ℕ) → r.succeeds k ≡ true)
      → is_online r.events ≡ true
      → (d : Station) × (app_round api scan release r b ≡ online (record b { station = d }))
  unfolding app_round connect_wifi branch
  second_round r b recived ssid pass succeeds joined =
      let (d, e, on) =
        wifi_init_sta_joins 32 64 r.succeeds r.events b.credentials b.station ssid pass succeeds
          joined in
      (d, rw (recived, e, on) refl)

  -- A round of the main loop begins without credentials, init_bt returns and there is no
  -- configuration file, so the closet waits for a file of the peer. Its looks at the arrays, if
  -- any, have found none, and before the next look the callback is handed all of the following
  -- packets, each of which, if it comes on the OBEX channel of its time, consists of bytes and is
  -- no PUT or a chain of known headers with room for what it holds. If the server has received a
  -- file named "wifi.config" then, and sscanf finds in its text credentials that are shorter than
  -- the fields of the configuration, and if in the next round of the main loop the calls of the
  -- Wi-Fi library succeed and the events say that an address was given: whatever rounds were to
  -- follow, the closet is online then, with these credentials and the Bluetooth controller switched
  -- off.
  pub app_main-provisioned :
      (a : App api scan release) (r r' : Round) (rs : List Round) (i : Init api)
      (looks : List (List (Packet × ℕ))) (v : Session) (packets : List (Packet × ℕ))
      (rest : List (List (Packet × ℕ))) (c : Credentials)
      → IsWithout api scan release a
      → init_bt api r.storage release r.created r.readings a.controller ≡ some i
      → runs_on api scan release i.ending ≡ true
      → r.file ≡ missing
      → r.deliveries ≡ looks ++ packets ∷ rest
      → wait_for_file scan looks a.session ≡ still_waiting v
      → AreRequests (length v.buffer_1) (length v.buffer_2) (server_of v) packets
      → (steps (server_of v) packets).file.name ≡ wifi_config
      → scan (steps (server_of v) packets).file.text ≡ some c
      → length c.ssid < 32
      → length c.pass < 64
      → ((k : ℕ) → r'.succeeds k ≡ true)
      → is_online r'.events ≡ true
      → (b : App api scan release) × (app_main api scan release (r ∷ r' ∷ rs) a ≡ online b)
        × (b.credentials ≡ c)
        × (b.controller ≡ disable i.controller)
  unfolding app_main taken
  app_main-provisioned a r r' rs i looks v packets rest c without started runs none_stored delivered
        waited requests name text ssid pass succeeds joined =
      let (t, served, same) = serve-steps packets v requests in
      let first =
        first_round r a without i started runs none_stored packets rest looks v delivered waited t c
          served (ap (λ (x : Server). x.file.name) same ∙ name)
          (ap (λ (x : Server). scan x.file.text) same ∙ text) in
      let (d, second) =
        second_round r' (taken i c (keep_arrays (poll_arrays scan t) t) a) refl ssid pass succeeds
          joined in
      (
        record (taken i c (keep_arrays (poll_arrays scan t) t) a) { station = d },
        rw (first, second) refl,
        refl,
        refl,
      )
