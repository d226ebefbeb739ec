-- ===== src/Prelude/Bytes.antt =====
-- Byte strings: the UTF-8 of a text, comparison, and the hexadecimal text of bytes.
use Prim.Native.Nat.{ℕ, zero, suc, ◌+◌, ◌/◌, ◌%◌}
use Prim.Native.Char.{Char, code}
use Prim.Native.String.{String}
use mathlib.Core.Path.{◌≡◌, refl}
use mathlib.Core.Logic.{◌↔◌, ◌≢◌}
use mathlib.Core.Bool.{Bool, true, false, ◌&&◌}
use mathlib.Core.List.{List, [], ◌∷◌, ◌++◌}
use native.Mathlib.Omega.{arith}
use agent_gpu.Prelude.Lists.{All}
use agent_gpu.Prelude.Tests.{if◌then◌else◌, ltb, ◌==◌}

utf8 : ℕ → List ℕ
utf8 c =
    if ltb c 128
    then c ∷ []
    else if ltb c 2048
    then (192 + c / 64) ∷ (128 + c % 64) ∷ []
    else if ltb c 65536
    then (224 + c / 4096) ∷ (128 + (c / 64) % 64) ∷ (128 + c % 64) ∷ []
    else (240 + c / 262144) ∷ (128 + (c / 4096) % 64) ∷ (128 + (c / 64) % 64) ∷ (128 + c % 64) ∷ []

-- `[]byte(s)`
unfoldable pub bytes : String → List ℕ
unfolding utf8
bytes String.[] = []
bytes (String.◌∷◌ c s) = utf8 (code c) ++ bytes s

unfoldable pub bytes_eq : List ℕ → List ℕ → Bool
bytes_eq [] [] = true
bytes_eq [] (y ∷ ys) = false
bytes_eq (x ∷ xs) [] = false
bytes_eq (x ∷ xs) (y ∷ ys) = x == y && bytes_eq xs ys

pub bytes_eq_iff : (xs ys : List ℕ) → (bytes_eq xs ys ≡ true) ↔ (xs ≡ ys)
unfolding bytes_eq
bytes_eq_iff [] [] = (λ _. refl, λ _. refl)
bytes_eq_iff [] (y ∷ ys) = (λ h. cc, λ h. cc)
bytes_eq_iff (x ∷ xs) [] = (λ h. cc, λ h. cc)
bytes_eq_iff (x ∷ xs) (y ∷ ys) = ground (arith, bytes_eq_iff xs ys)

pick : ℕ → List Char → Char
pick i [] = "f"
pick zero (c ∷ cs) = c
pick (suc i) (c ∷ cs) = pick i cs

abbrev hex_digits : List Char
hex_digits =
    "0" ∷ "1" ∷ "2" ∷ "3" ∷ "4" ∷ "5" ∷ "6" ∷ "7" ∷ "8" ∷ "9" ∷ "a" ∷ "b" ∷ "c" ∷ "d" ∷ "e" ∷ []

hex_digit : ℕ → Char
unfolding pick
hex_digit d = pick d hex_digits

-- `hex.EncodeToString`
unfoldable pub hex : List ℕ → String
unfolding hex_digit
hex [] = ""
hex (b ∷ bs) = String.◌∷◌ (hex_digit (b / 16)) (String.◌∷◌ (hex_digit (b % 16)) (hex bs))

-- No character of the text has the code `u`.
abbrev pub Avoids : ℕ → String → Type 0
Avoids u String.[] = Unit {0}
Avoids u (String.◌∷◌ c s) = (code c ≢ u) × Avoids u s

pick_avoids :
    (u : ℕ) (i : ℕ) (cs : List Char) → b'f' ≢ u → All (λ c. code c ≢ u) cs → code (pick i cs) ≢ u
unfolding pick
pick_avoids u i [] h k = h
pick_avoids u zero (c ∷ cs) h k = k.0
pick_avoids u (suc i) (c ∷ cs) h k = pick_avoids u i cs h k.1

hex_digit_avoids : (d : ℕ) → code (hex_digit d) ≢ b'_'
unfolding hex_digit
hex_digit_avoids d = pick_avoids b'_' d hex_digits (omega arith) (omega arith)

pub hex-Avoids : (bs : List ℕ) → Avoids b'_' (hex bs)
unfolding hex
hex-Avoids [] = tt
hex-Avoids (b ∷ bs) = (hex_digit_avoids (b / 16), (hex_digit_avoids (b % 16), hex-Avoids bs))
