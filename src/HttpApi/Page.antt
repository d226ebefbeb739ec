-- ===== src/HttpApi/Page.antt =====
-- internal/httpapi/pagination.go. The texts of a request and of a cursor are read and written by
-- strconv and encoding/base64, which are arguments; an int is as large as the lists of the program.
pub mod Walk
mod Examples
use agent_gpu.Prelude.{
  ℕ, ℤ, pos, negsuc, pos_part, ◌+◌, ◌-◌, ltb, leb, ltz, String, str_eq, Bool, true, false, Option,
  none, some, List, [], take, drop, length, if◌then◌else◌,
}

abbrev default_page_size : ℕ
default_page_size = 50

abbrev max_page_size : ℕ
max_page_size = 200

-- The codec of a cursor: `strconv.Itoa` under base64, and what `strconv.Atoi` makes of the decoded
-- text, `none` when either fails.
pub record Codec : Type 0 where
  pub encode : ℕ → String
  pub decode : String → Option ℤ

unfoldable pub encode_cursor : Codec → ℕ → String
encode_cursor c offset = c.encode offset

abbrev not_negative : Option ℤ → ℕ
not_negative none = 0
not_negative (some (negsuc n)) = 0
not_negative (some (pos n)) = n

unfoldable pub decode_cursor : Codec → String → ℕ
decode_cursor c cursor = if str_eq cursor "" then 0 else not_negative (c.decode cursor)

-- The limit that the query asks for, as `strconv.Atoi` reads it.
abbrev asked_limit : Option ℤ → ℕ
asked_limit none = default_page_size
asked_limit (some n) = if ltb 0 (pos_part n) then pos_part n else default_page_size

unfoldable pub parse_page_params : Codec → Option ℤ → String → ℕ × ℕ
unfolding decode_cursor
parse_page_params c limit cursor =
    let asked = asked_limit limit in
    (if ltb max_page_size asked then max_page_size else asked, decode_cursor c cursor)

unfoldable pub paginate {ℓ} : {A : Type ℓ} → Codec → List A → ℕ → ℤ → List A × Option String
unfolding encode_cursor
paginate c items limit asked =
    let n = length items in
    let offset = pos_part asked in
    if leb n offset
    then ([], none)
    else let end = if ltb n (offset + limit) then n else offset + limit in
      (
        take (end - offset) (drop offset items),
        if ltb end n then some (encode_cursor c end) else none,
      )
