-- ===== src/Json/Decode.antt =====
-- How encoding/json fills a struct: a member is found by its exact name or, failing that, by a
-- name that differs in case alone; `null` and a missing member leave the zero value; a value of
-- another kind is an error.
use a10_certctl.Base.{
  ℕ, ◌+◌, ◌-◌, ◌^◌, Bool, true, false, ◌&&◌, List, [], ◌∷◌, eqb, ltb, all, is_nil, not,
  if◌then◌else◌,
}
use a10_certctl.Base.Int.{ℤ, pos, negsuc}
use a10_certctl.Text.{Text, between, decimal_value}
use a10_certctl.Errors.{Error, failed, Result, ok, err, ◌>>=◌}
use a10_certctl.Json.{Json, Items, Fields}

-- The folding of encoding/json on the code points that can fold to an ASCII letter.
unfoldable pub fold_case : ℕ → ℕ
fold_case c =
    if between b'A' b'Z' c
    then c + 32
    else if eqb c 0x212a
    then b'k'
    else if eqb c 0x17f
    then b's'
    else c

unfoldable pub fold_eq : Text → Text → Bool
unfolding fold_case
fold_eq [] [] = true
fold_eq (c ∷ s) (d ∷ t) = eqb (fold_case c) (fold_case d) && fold_eq s t
fold_eq _ _ = false

-- The value that the struct's member `name` gets: members are stored in turn, so the last counts.
unfoldable pub last_member : Text → Json → Fields → Json
unfolding fold_eq
last_member name found Fields.end = found
last_member name found (Fields.field k v fs) =
    last_member name (if fold_eq k name then v else found) fs

abbrev pub member : Text → Fields → Json
member name fs = last_member name Json.null fs

unfoldable pub decode_text : Json → Result Text
decode_text Json.null = ok []
decode_text (Json.str s) = ok s
decode_text _ = err (failed "json: cannot unmarshal into a string")

-- A slice: each element by `decode`.
unfoldable pub decode_items : {A : Type 0} → (Json → Result A) → Items → Result (List A)
decode_items decode Items.nil = ok []
decode_items decode (Items.cons x xs) = do
  a ← decode x
  rest ← decode_items decode xs
  ok (a ∷ rest)

unfoldable pub decode_list : {A : Type 0} → (Json → Result A) → Json → Result (List A)
unfolding decode_items
decode_list decode Json.null = ok []
decode_list decode (Json.arr xs) = decode_items decode xs
decode_list decode _ = err (failed "json: cannot unmarshal into a slice")

-- A struct without a method of its own.
unfoldable pub decode_struct : {A : Type 0} → (Fields → Result A) → Json → Result A
decode_struct decode Json.null = decode Fields.end
decode_struct decode (Json.obj fs) = decode fs
decode_struct decode _ = err (failed "json: cannot unmarshal into a struct")

abbrev not_an_integer : Error
not_an_integer = failed "json: cannot unmarshal into an integer"

unfoldable pub integer_digits : Text → Bool
integer_digits n = not (is_nil n) && all (between b'0' b'9') n

-- A 64-bit integer, from the text of a number.
unfoldable pub integer_value : Text → Result ℤ
unfolding integer_digits decimal_value
integer_value [] = err not_an_integer
integer_value (c ∷ n) =
    if eqb c b'-'
    then (if integer_digits n && ltb (decimal_value n) (2 ^ 63 + 1)
        then ok (if eqb (decimal_value n) 0 then pos 0 else negsuc (decimal_value n - 1))
        else err not_an_integer)
    else if integer_digits (c ∷ n) && ltb (decimal_value (c ∷ n)) (2 ^ 63)
    then ok (pos (decimal_value (c ∷ n)))
    else err not_an_integer

unfoldable pub decode_int : Json → Result ℤ
unfolding integer_value
decode_int Json.null = ok (pos 0)
decode_int (Json.num n) = integer_value n
decode_int _ = err not_an_integer
