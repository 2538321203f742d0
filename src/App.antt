-- ===== src/App.antt =====
-- The main loop of `app_main` (src/main/main.cpp) until the closet is online: the Wi-Fi connection,
-- the start of Bluetooth, and the two ways to the credentials.
pub mod StartUp
pub mod Online
pub mod Invariant
pub mod Without
pub mod Origin
pub mod StoredFile
pub mod Received
pub mod Interleaved
pub mod Program
pub mod Provisioned
use hydroponic_closet.Prelude.{
  ℕ, Bool, true, false, List, [], ◌∷◌, ◌++◌, Option, none, some, replicate, ◌==◌, if◌then◌else◌,
}
use hydroponic_closet.Nvs.{Nvs}
use hydroponic_closet.Bt.State.{Packet, Session, Outcome, set_dir, done, overrun, hang}
use hydroponic_closet.Bt.Handler.{serve}
use hydroponic_closet.Bt.Start.{
  Controller, BtCall, InitEnd, running, not_started, reset, Init, init_bt,
}
use hydroponic_closet.Closet.Station.{Event, Station, set_wifi_ok_addr}
use hydroponic_closet.Closet.Retry.{idle}
use hydroponic_closet.Closet.Credentials.{Credentials, Poll, poll}
use hydroponic_closet.Closet.Wifi.{StaEnd, aborted, waiting, returned, wifi_init_sta}

-- What stat and fscanf find at wifi_conf. For a file, how many items fscanf assigns with the format
-- "SSID: %s PASS: %s", and what `ssid` and `pass` hold then.
pub data File : Type 0 where
  missing directory : File
  regular : ℕ → Credentials → File

-- The loop that waits for a file of the peer. Between two rounds the Bluetooth callback is handed
-- packets, and writes into the two arrays.
pub data Wait : Type 0 where
  found : Credentials → Session → Wait
  still_waiting : Session → Wait
  lost : Wait  -- the callback wrote past the end of an array or never returns

-- A round of the loop, once the callback has returned.
abbrev pub poll_arrays : (List ℕ → Option Credentials) → Session → Poll
poll_arrays scan s = poll scan s.buffer_1 s.buffer_2

-- *fi = *content = '\0';
abbrev pub keep_arrays : Poll → Session → Session
keep_arrays p s = record s { buffer_1 = p.fi; buffer_2 = p.content }

-- `next` is the next round of the loop.
abbrev pub after_poll : (Session → Wait) → Option Credentials → Session → Wait
after_poll next none s = next s
after_poll next (some c) s = found c s

abbrev pub after_callback : (List ℕ → Option Credentials) → (Session → Wait) → Outcome → Wait
after_callback scan next (done s) =
    let p = poll_arrays scan s in after_poll next p.found (keep_arrays p s)
after_callback scan next overrun = lost
after_callback scan next hang = lost

unfoldable pub wait_for_file :
    (List ℕ → Option Credentials) → List (List (Packet × ℕ)) → Session → Wait
wait_for_file scan [] s = still_waiting s
wait_for_file scan (packets ∷ rest) s =
    after_callback scan (wait_for_file scan rest) (serve s packets)

-- What a round of the main loop meets.
pub record Round : Type 0 where
  pub succeeds : ℕ → Bool  -- what the calls of `wifi_init_sta` report
  pub events : List Event  -- the calls of the event handler while it waits
  pub storage : Nvs
  pub created : Bool  -- is the send queue created?
  pub readings : ℕ  -- how often the controller's status is read at most
  pub file : File
  pub deliveries : List (List (Packet × ℕ))  -- for each round of the loop that waits for a file

-- `scan` is sscanf with the format of the file, `release` CONFIG_BTDM_CTRL_MODE_BR_EDR_ONLY. The
-- fields for the credentials are of 32 and 64 bytes.
module _ (api : Controller) (scan : List ℕ → Option Credentials) (release : Bool) where
  open api use {S, disable}

  pub record App : Type 0 where
    pub credentials : Credentials  -- `ssid` and `pass`
    pub credentials_recived : Bool
    pub station : Station  -- its `wifi_ok` is the variable of main.cpp
    pub session : Session  -- its arrays are `fi` and `content`
    pub controller : S
    pub bt_calls : List BtCall

  -- A round ends with the next one to come, in the loop for an online closet, or not at all.
  pub data Next : Type 0 where
    again online : App → Next
    stopped : Next

  unfoldable pub initial : S → App
  initial s = record {
    credentials = record { ssid = []; pass = [] };
    credentials_recived = false;
    station = set_wifi_ok_addr false idle;
    session = set_dir (replicate 128 0) (replicate 1024 0);
    controller = s;
    bt_calls = [];
  }

  -- if(credentials_recived) wifi_init_sta(ssid,pass);
  -- `none` if it does not return.
  abbrev pub after_sta : App → StaEnd → Option App
  after_sta a (returned s) = some (record a { station = s })
  after_sta a StaEnd.overrun = none
  after_sta a aborted = none
  after_sta a waiting = none

  unfoldable pub connect_wifi : Round → App → Option App
  connect_wifi r a =
      if a.credentials_recived
      then after_sta a (wifi_init_sta 32 64 r.succeeds r.events a.credentials a.station)
      else some a

  -- The file's credentials arrive, and Bluetooth is switched off.
  abbrev pub after_waiting : Wait → App → Next
  after_waiting (found c t) a = again (record a {
    credentials = c;
    credentials_recived = true;
    session = t;
    controller = disable a.controller;
  })
  after_waiting (still_waiting t) a = stopped
  after_waiting lost a = stopped

  -- `ok` is the truth value of a comparison.
  unfoldable pub read_file : ℕ → Credentials → App → App
  read_file assigned c a =
      let ok = if assigned == 2 then 1 else 0 in
      let b : App = record a { credentials = c } in
      if ok == 2 then record b { credentials_recived = true } else b

  unfoldable pub load_credentials : Round → File → App → Next
  load_credentials r missing a = after_waiting (wait_for_file scan r.deliveries a.session) a
  load_credentials r directory a = again a
  load_credentials r (regular assigned c) a = again (read_file assigned c a)

  abbrev pub runs_on : InitEnd → Bool
  runs_on running = true
  runs_on not_started = true
  runs_on reset = false

  -- Behind `init_bt`.
  unfoldable pub after_init_bt : Round → Option (Init api) → App → Next
  after_init_bt r none a = stopped
  after_init_bt r (some i) a =
      if runs_on i.ending
      then load_credentials r r.file
          (record a { controller = i.controller; bt_calls = a.bt_calls ++ i.calls })
      else stopped

  -- The `if` on `wifi_ok`.
  unfoldable pub branch : Round → App → Next
  branch r a =
      if a.station.wifi_ok
      then online a
      else if a.credentials_recived
      then again a
      else after_init_bt r (init_bt api r.storage release r.created r.readings a.controller) a

  abbrev pub after_connect : Round → Option App → Next
  after_connect r none = stopped
  after_connect r (some a) = branch r a

  unfoldable pub app_round : Round → App → Next
  app_round r a = after_connect r (connect_wifi r a)

  abbrev pub after_round : (App → Next) → Next → Next
  after_round next (again a) = next a
  after_round next (online a) = online a
  after_round next stopped = stopped

  -- The rounds of `while(1)`.
  unfoldable pub app_main : List Round → App → Next
  app_main [] a = again a
  app_main (r ∷ rs) a = after_round (app_main rs) (app_round r a)
