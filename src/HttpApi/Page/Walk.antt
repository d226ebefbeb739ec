-- ===== src/HttpApi/Page/Walk.antt =====
-- A client that follows the cursors.
use native.Mathlib.Decide.{dec_le}
use mathlib.Core.Option
use agent_gpu.Prelude.{
  ℕ, ℤ, pos, zero, suc, ◌+◌, ◌-◌, ◌≤◌, ◌<◌, ◌≡◌, refl, sym, ◌∙◌, ap, ltb, leb, String, str_eq, true,
  false, Option, none, some, List, [], ◌∷◌, ◌++◌, take, drop, length, length-drop, take-append-drop,
  drop-drop, take_all, arith, if◌then◌else◌,
}
use agent_gpu.HttpApi.Page.{Codec, encode_cursor, decode_cursor, parse_page_params, paginate}

-- What the code relies on: a cursor is not empty and reads back.
pub record ReadsBack (c : Codec) : Type 0 where
  pub not_empty : (n : ℕ) → str_eq (c.encode n) "" ≡ false
  pub back : (n : ℕ) → c.decode (c.encode n) ≡ some (pos n)

pub decode_cursor-encode_cursor :
    (c : Codec) (n : ℕ) → ReadsBack c → decode_cursor c (encode_cursor c n) ≡ n
unfolding decode_cursor encode_cursor
decode_cursor-encode_cursor c n r = rw (r.not_empty n, r.back n) refl

-- The size of the pages, between 1 and the maximum.
abbrev pub page_size : Codec → Option ℤ → ℕ
page_size c limit = (parse_page_params c limit "").0

page_size-pos : (c : Codec) (limit : Option ℤ) → 0 < page_size c limit
unfolding parse_page_params
page_size-pos c none = ground arith
page_size-pos c (some n) = ground arith

-- A page, and those after it if it has a cursor.
abbrev follow {ℓ} :
    {A : Type ℓ} → List A × Option String → (String → Option (List A)) → Option (List A)
follow (page, none) rest = some page
follow (page, some next) rest = Option.map (λ more. page ++ more) (rest next)

-- The pages from a cursor on, as many requests as the fuel allows: `none` when they do not suffice.
unfoldable pub walk {ℓ} : {A : Type ℓ} → ℕ → Codec → List A → Option ℤ → String → Option (List A)
walk zero c items limit cursor = none
walk (suc fuel) c items limit cursor =
    follow
      (paginate c items (parse_page_params c limit cursor).0
        (pos (parse_page_params c limit cursor).1))
      (walk fuel c items limit)

module _ {ℓ} {A : Type ℓ} where
  drop_past : (n : ℕ) (xs : List A) → length xs ≤ n → drop n xs ≡ []
  drop_past zero [] h = refl
  drop_past zero (x ∷ xs) h = absurd (omega arith)
  drop_past (suc n) [] h = refl
  drop_past (suc n) (x ∷ xs) h = drop_past n xs (omega arith)

  -- A page with the rest after it.
  page_rest : (size n : ℕ) (xs : List A) → take size (drop n xs) ++ drop (n + size) xs ≡ drop n xs
  page_rest size n xs =
      ap (λ r. take size (drop n xs) ++ r) (sym (drop-drop size n xs))
      ∙ take-append-drop size (drop n xs)

  module _ (c : Codec) (items : List A) (size offset : ℕ) where
    past_lem : length items ≤ offset → paginate c items size (pos offset) ≡ ([], none)
    unfolding paginate
    past_lem h = let e : leb (length items) offset ≡ true = ground arith in rw e refl

    last_lem :
        offset < length items
        → length items ≤ offset + size
        → paginate c items size (pos offset) ≡ (drop offset items, none)
    unfolding paginate
    last_lem h k =
        let e : leb (length items) offset ≡ false = ground arith in
        let at_end : (if ltb (length items) (offset + size) then length items else offset + size)
            ≡ length items =
          ground arith in
        let over : ltb (length items) (length items) ≡ false = ground arith in
        rw (e, at_end, over)
          (ap (λ p. (p, none))
            (take_all (length items - offset) (drop offset items)
              (omega (arith, length-drop offset items))))

    more_lem :
        offset + size < length items
        → 0 < size
        → paginate c items size (pos offset)
          ≡ (take size (drop offset items), some (encode_cursor c (offset + size)))
    unfolding paginate
    more_lem h k =
        let e : leb (length items) offset ≡ false = ground arith in
        let inside : ltb (length items) (offset + size) ≡ false = ground arith in
        let under : ltb (offset + size) (length items) ≡ true = ground arith in
        let width : offset + size - offset ≡ size = omega arith in rw (e, inside, under, width) refl

  walk_lem :
      (c : Codec) (items : List A) (limit : Option ℤ) (fuel : ℕ) (cursor : String)
      → ReadsBack c
      → length items - decode_cursor c cursor < fuel
      → walk fuel c items limit cursor ≡ some (drop (decode_cursor c cursor) items)
  unfolding walk parse_page_params
  walk_lem c items limit zero cursor r h = absurd (omega arith)
  walk_lem c items limit (suc fuel) cursor r h =
      let offset = decode_cursor c cursor in
      let size = page_size c limit in
      let go = λ (p : List A × Option String). follow p (walk fuel c items limit) in
      elim (dec_le (length items) offset) [
        | yes past ↦
            ap go (past_lem c items size offset past) ∙ ap some (sym (drop_past offset items past))
        | no before ↦ elim (dec_le (length items) (offset + size)) [
          | yes fits ↦ ap go (last_lem c items size offset (omega arith) fits)
          | no over ↦
              let next = encode_cursor c (offset + size) in
              let at_next : decode_cursor c next ≡ offset + size =
                decode_cursor-encode_cursor c (offset + size) r in
              let rest : walk fuel c items limit next ≡ some (drop (offset + size) items) =
                walk_lem c items limit fuel next r (omega (arith, at_next, page_size-pos c limit))
                ∙ ap (λ k. some (drop k items)) at_next in
              ap go (more_lem c items size offset (omega arith) (page_size-pos c limit))
              ∙ ap (Option.map (λ more. take size (drop offset items) ++ more)) rest
              ∙ ap some (page_rest size offset items)
        ]
      ]

-- A client that starts without a cursor and follows the one of each page gets every item once, in
-- order, whatever limit it asks for, and it ends: one more request than there are items is enough.
-- The cursors must read back.
pub walk-all {ℓ} :
    {A : Type ℓ} (c : Codec) (items : List A) (limit : Option ℤ)
    → ReadsBack c
    → walk (suc (length items)) c items limit "" ≡ some items
unfolding decode_cursor
walk-all c items limit r = walk_lem c items limit (suc (length items)) "" r (omega arith)
