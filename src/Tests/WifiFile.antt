-- ===== src/Tests/WifiFile.antt =====
-- The theorems on the credentials at concrete inputs.
use hydroponic_closet.Prelude.{ℕ, List, [], ◌∷◌, Option, some, take, drop}
use hydroponic_closet.Closet.Credentials.{Credentials}

-- Low bytes of 16-bit characters.
abbrev pub wide : List ℕ → List ℕ
wide [] = []
wide (b ∷ bs) = 0 ∷ b ∷ wide bs

abbrev pub content : List ℕ
content =
    b'S' ∷ b'S' ∷ b'I' ∷ b'D' ∷ b':' ∷ b' ' ∷ b'n' ∷ b' ' ∷ b'P' ∷ b'A' ∷ b'S' ∷ b'S' ∷ b':' ∷ b' '
    ∷ b'p' ∷ []

-- Reads credentials of one character each.
abbrev pub scan : List ℕ → Option Credentials
scan s = some (record { ssid = take 1 (drop 6 s); pass = take 1 (drop 14 s) })
