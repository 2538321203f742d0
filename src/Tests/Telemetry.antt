-- ===== src/Tests/Telemetry.antt =====
-- The theorem on telemetry at a concrete input.
use Prim.{tt}
use hydroponic_closet.Prelude.{ℕ, ◌+◌, Bool, true, false, List, [], ◌∷◌, All, arith}
use hydroponic_closet.Prelude.Int.{pos}
use hydroponic_closet.Closet.Sensors.{I2cRead}
use hydroponic_closet.Closet.Routines.{initial}
use hydroponic_closet.App.Online.{Online, online_loop}
use hydroponic_closet.App.Online.Reports.{IsReport, online_loop-IsReport}

abbrev pub clock : ℕ → ℕ
clock k = 110 + k

-- Two rounds, the first not connected yet; the sensors send 0x664c.
abbrev pub inputs : List ((I2cRead → ℕ × ℕ) × Bool)
inputs = (λ _. (0x66, 0x4c), false) ∷ (λ _. (0x66, 0x4c), true) ∷ []

abbrev just_online : Online
just_online = record { temperatura = pos 0; humedad = pos 0; sent = []; closet = initial clock 10 }

online_loop-IsReport_example :
    All (IsReport (b'x' ∷ [])) (online_loop (b'x' ∷ []) clock 10 inputs just_online).sent
online_loop-IsReport_example =
    online_loop-IsReport (b'x' ∷ []) clock 10 inputs just_online
      (λ _. (omega arith, omega arith), (λ _. (omega arith, omega arith), tt)) tt
