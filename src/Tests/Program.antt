-- ===== src/Tests/Program.antt =====
-- A run of the whole program at concrete inputs.
use Prim.{tt}
use hydroponic_closet.Prelude.{◌≡◌, refl, true, [], ◌∷◌, some, arith}
use hydroponic_closet.Esp.{perform}
use hydroponic_closet.Nvs.{app_main_nvs}
use hydroponic_closet.Bt.Start.{idle}
use hydroponic_closet.App.StartUp.{start_up, config_steps, net_steps}
use hydroponic_closet.App.Program.{Outside, Run, run_program}
use hydroponic_closet.App.Program.Safe.{IsSafeRun, run_program-IsSafeRun}
use hydroponic_closet.Closet.Water.{config_water_flow_channel}
use hydroponic_closet.Closet.Fan.{config_fan}
use hydroponic_closet.Closet.Sensors.{config_i2c_channel}
use hydroponic_closet.Tests.WifiFile.{scan}
use hydroponic_closet.Tests.Telemetry.{clock, inputs}
use hydroponic_closet.Tests.Rounds.{
  at_once, full, before_file, after_file, online_app, run_app, gets_online,
}

-- The file comes in the first round, the address in the second, and two rounds online follow.
abbrev outside : Outside
outside = record {
  config_succeeds = λ _. true;
  net_succeeds = λ _. true;
  storage = full;
  rounds = before_file ∷ after_file ∷ [];
  online_inputs = inputs;
}

abbrev whole_run : Run at_once scan true
whole_run = run_program at_once scan true (b'x' ∷ []) clock 10 outside idle

run_gets_online :
    Run.reached whole_run ≡ some (online_app (run_app (before_file ∷ after_file ∷ [])))
unfolding run_program start_up perform config_steps net_steps config_water_flow_channel config_fan
    config_i2c_channel app_main_nvs
run_gets_online = rw gets_online refl

run_program-IsSafeRun_example : IsSafeRun idle (before_file ∷ after_file ∷ []) (b'x' ∷ []) whole_run
run_program-IsSafeRun_example =
    run_program-IsSafeRun at_once scan true (b'x' ∷ []) clock 10 outside idle
      (λ _. (omega arith, omega arith), (λ _. (omega arith, omega arith), tt))
