-- ===== src/Tests/Waiting.antt =====
-- The theorems on the loop that waits for the credentials at concrete inputs.
use hydroponic_closet.Prelude.{inl, ◌≡◌, ◌≢◌, refl, true, false, [], ◌∷◌, ◌++◌, some, arith, set}
use hydroponic_closet.Bt.State.{Session, set_dir, queue_packet}
use hydroponic_closet.Bt.Hci.{hci_event_handler}
use hydroponic_closet.Bt.Handler.{host_rcv_pkt, serve}
use hydroponic_closet.Closet.Credentials.{c_string, same_string, Credentials, wifi_config, poll}
use hydroponic_closet.App.{found, wait_for_file}
use hydroponic_closet.App.Interleaved.{
  Step, at_text, at_content, at_delay, left, Loop, entered, advance, Runs,
}
use hydroponic_closet.App.Interleaved.Provenance.{IsFromNamed, left-IsFromNamed}
use hydroponic_closet.App.Interleaved.Quiet.{QuietRuns, statement, packet, stay, onward}
use hydroponic_closet.App.Interleaved.Quiet.Places.{QuietRuns-found}
use hydroponic_closet.App.Interleaved.Quiet.{log}
use hydroponic_closet.App.Interleaved.Lost.{statements, statements_lost, statements_taken}
use hydroponic_closet.App.Interleaved.Atomic.{left_with, Runs-statements, wait_for_file-Runs}
use hydroponic_closet.Tests.Commands.{pin_request}
use hydroponic_closet.Tests.WifiFile.{content, scan}

-- A file has been stored.
abbrev stored : Session
stored = set_dir (wifi_config ++ 0 ∷ []) (content ++ 0 ∷ [])

abbrev home : Credentials
home = record { ssid = b'n' ∷ []; pass = b'p' ∷ [] }

abbrev with_answer : Session
with_answer = hci_event_handler stored pin_request

-- A request for the pairing code comes in between strcmp and sscanf.
abbrev ended : Loop
ended = statements scan 5 (record (entered with_answer) { pc = at_text })

abbrev named_run : Runs scan (entered stored) ended
unfolding statements advance c_string same_string host_rcv_pkt set_dir
named_run =
    Runs-statements scan (entered stored) 5 (record (entered with_answer) { pc = at_text })
      (Runs.onward (Runs-statements scan (entered stored) 1 (entered stored) Runs.stay)
        (Step.packet pin_request 9 refl refl))

left-IsFromNamed_example :
    (ended.credentials_recived ≡ true)
    × (ended.enabled ≡ false)
    × (c : Credentials) × (ended.read ≡ some c)
    × IsFromNamed scan stored named_run c
unfolding statements advance c_string same_string host_rcv_pkt set_dir
left-IsFromNamed_example = left-IsFromNamed scan stored ended named_run refl

wait_for_file-Runs_example : Runs scan (entered stored) (
    left_with home
      (record stored { buffer_1 = set stored.buffer_1 0 0; buffer_2 = set stored.buffer_2 0 0 }))
unfolding wait_for_file serve poll c_string same_string set_dir
wait_for_file-Runs_example =
    wait_for_file-Runs scan ([] ∷ []) stored
      (record stored { buffer_1 = set stored.buffer_1 0 0; buffer_2 = set stored.buffer_2 0 0 })
      home refl

abbrev too_late : Loop
too_late = record (entered stored) { pc = at_content }

statements_lost_example :
    let m = statements scan 20 too_late in (m.pc ≢ left) × (m.credentials_recived ≡ false)
unfolding set_dir
statements_lost_example = statements_lost scan 20 too_late refl refl refl (omega arith)

abbrev in_time : Loop
in_time = record (entered stored) { pc = at_delay }

statements_taken_example :
    statements scan 7 in_time
    ≡ left_with home
        (record stored { buffer_1 = set stored.buffer_1 0 0; buffer_2 = set stored.buffer_2 0 0 })
unfolding set_dir c_string same_string
statements_taken_example = statements_taken scan in_time home refl refl refl refl

quiet_end : QuietRuns scan (entered stored) (statements scan 6 (entered with_answer))
unfolding statements host_rcv_pkt set_dir
quiet_end =
    onward
      (onward
        (onward
          (onward
            (onward (onward (onward stay (packet pin_request 9 (inl refl) refl refl)) statement)
              statement)
            statement)
          statement)
        statement)
      statement

QuietRuns-found_example :
    let l = statements scan 6 (entered with_answer) in
    (c : Credentials) × (l.read ≡ some c)
    × (wait_for_file scan (log scan quiet_end).rounds stored ≡ found c l.session)
unfolding statements advance c_string same_string set_dir hci_event_handler queue_packet
QuietRuns-found_example =
    QuietRuns-found scan stored (statements scan 6 (entered with_answer)) quiet_end refl
