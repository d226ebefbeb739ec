-- ===== src/HttpApi/Page/Examples.antt =====
-- Seven items in pages of three.
use Prim.Native.String.{String}
use Prim.Native.String.compare
use text.Mathlib.Text.{is_eq}
use agent_gpu.Prelude.{
  ℕ, ℤ, pos, suc, ◌≡◌, refl, ap, Option, none, some, List, [], ◌∷◌, str_eq, false,
}
use agent_gpu.HttpApi.Page.{Codec, paginate, encode_cursor}
use agent_gpu.HttpApi.Page.Walk.{ReadsBack, walk, walk-all}

-- A codec in tally marks.
abbrev marks : ℕ → String
marks ℕ.zero = "|"
marks (suc n) = String.◌∷◌ "|" (marks n)

abbrev count_marks : String → ℕ
count_marks String.[] = 0
count_marks (String.◌∷◌ c s) = suc (count_marks s)

abbrev read_marks : String → Option ℤ
read_marks String.[] = none
read_marks (String.◌∷◌ c s) = some (pos (count_marks s))

abbrev codec : Codec
codec = record { encode = marks; decode = read_marks }

count_marks-marks : (n : ℕ) → count_marks (marks n) ≡ suc n
count_marks-marks ℕ.zero = refl
count_marks-marks (suc n) = ap suc (count_marks-marks n)

read_marks-marks : (n : ℕ) → read_marks (marks n) ≡ some (pos n)
read_marks-marks ℕ.zero = refl
read_marks-marks (suc n) = ap (λ k. some (pos k)) (count_marks-marks n)

marks_not_empty : (n : ℕ) → str_eq (marks n) "" ≡ false
marks_not_empty ℕ.zero = refl
marks_not_empty (suc n) = ap is_eq (compare.cons-nil "|" (marks n))

codec-ReadsBack : ReadsBack codec
codec-ReadsBack = record { not_empty = marks_not_empty; back = read_marks-marks }

abbrev seven : List ℕ
seven = 1 ∷ 2 ∷ 3 ∷ 4 ∷ 5 ∷ 6 ∷ 7 ∷ []

second_page : paginate codec seven 3 (pos 3) ≡ (4 ∷ 5 ∷ 6 ∷ [], some "|||||||")
unfolding paginate encode_cursor
second_page = refl

walk-all_example : walk 8 codec seven (some (pos 3)) "" ≡ some seven
walk-all_example = walk-all codec seven (some (pos 3)) codec-ReadsBack
