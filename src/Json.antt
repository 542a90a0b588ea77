-- ===== src/Json.antt =====
-- Decoded JSON values (`any` of encoding/json) and what pkg/a10 does with them:
-- `jsonValueContainsString` of pkg/a10/sync.go, `removeGeneratedA10Metadata` of pkg/a10/state.go,
-- `aXAPIBoolean` of pkg/a10/certificates.go, and the text that `json.Marshal` makes of a value.
-- A number is the text by which encoding/json prints its `float64`. The members of an object have
-- distinct names, as the keys of a Go map have.
pub mod Decode
pub mod Generated
use a10_certctl.Base.{
  ℕ, ◌+◌, ◌%◌, ◌/◌, Bool, true, false, ◌&&◌, ◌||◌, List, [], ◌∷◌, ◌++◌, eqb, ltb, if◌then◌else◌,
}
use a10_certctl.Text.{Text, ◌==◌, codes, between}
use a10_certctl.Errors.{failed, Result, ok, err}

mutual
  pub data Json : Type 0 where
    null : Json
    bool : Bool → Json
    num : Text → Json
    str : Text → Json
    arr : Items → Json
    obj : Fields → Json

  pub data Items : Type 0 where
    nil : Items
    cons : Json → Items → Items

  pub data Fields : Type 0 where
    end : Fields
    field : Text → Json → Fields → Fields

-- `jsonValueContainsString`
unfoldable mutual
  pub contains_string : Json → Text → Bool
  contains_string null target = false
  contains_string (bool b) target = false
  contains_string (num n) target = false
  contains_string (str s) target = s == target
  contains_string (arr xs) target = items_contain xs target
  contains_string (obj fs) target = fields_contain fs target

  pub items_contain : Items → Text → Bool
  items_contain nil target = false
  items_contain (cons x xs) target = contains_string x target || items_contain xs target

  pub fields_contain : Fields → Text → Bool
  fields_contain end target = false
  fields_contain (field k v fs) target = contains_string v target || fields_contain fs target

abbrev pub is_generated : Text → Bool
is_generated k = k == codes "uuid" || k == codes "a10-url"

-- `removeGeneratedA10Metadata`
unfoldable mutual
  pub remove_generated : Json → Json
  remove_generated null = null
  remove_generated (bool b) = bool b
  remove_generated (num n) = num n
  remove_generated (str s) = str s
  remove_generated (arr xs) = arr (remove_from_items xs)
  remove_generated (obj fs) = obj (remove_from_fields fs)

  pub remove_from_items : Items → Items
  remove_from_items nil = nil
  remove_from_items (cons x xs) = cons (remove_generated x) (remove_from_items xs)

  pub remove_from_fields : Fields → Fields
  remove_from_fields end = end
  remove_from_fields (field k v fs) =
      let rest = remove_from_fields fs in
      if is_generated k then rest else field k (remove_generated v) rest

-- `aXAPIBoolean`; an absent member is `null`. The float64 values that equal 0 print as 0 or -0.
unfoldable pub axapi_boolean : Json → Result Bool
axapi_boolean null = ok false
axapi_boolean (bool b) = ok b
axapi_boolean (num n) =
    if n == codes "0" || n == codes "-0"
    then ok false
    else if n == codes "1"
    then ok true
    else err (failed "expected boolean, 0, or 1")
axapi_boolean _ = err (failed "expected boolean, 0, or 1")

-- Texts in the order of Go's strings: the bytes of UTF-8 sort as the code points do.
unfoldable pub text_le : Text → Text → Bool
text_le [] t = true
text_le (c ∷ s) [] = false
text_le (c ∷ s) (d ∷ t) = ltb c d || (eqb c d && text_le s t)

hex_digit : ℕ → ℕ
hex_digit n = if ltb n 10 then 48 + n else 87 + n

-- \u and four hexadecimal digits
unicode_escape : ℕ → Text
unfolding hex_digit
unicode_escape c =
    codes "\\u"
    ++ hex_digit (c / 4096 % 16)
      ∷ hex_digit (c / 256 % 16)
      ∷ hex_digit (c / 16 % 16)
      ∷ hex_digit (c % 16)
      ∷ []

-- How `json.Marshal` writes one code point of a string.
unfoldable pub escape : ℕ → Text
unfolding unicode_escape
escape c =
    if eqb c 0x22 || eqb c 0x5c
    then 0x5c ∷ c ∷ []
    else if eqb c 8
    then codes "\\b"
    else if eqb c 12
    then codes "\\f"
    else if eqb c 10
    then codes "\\n"
    else if eqb c 13
    then codes "\\r"
    else if eqb c 9
    then codes "\\t"
    else if ltb c 32 || eqb c b'<' || eqb c b'>' || eqb c b'&' || eqb c 0x2028 || eqb c 0x2029
    then unicode_escape c
    else c ∷ []

unfoldable pub escape_all : Text → Text
unfolding escape
escape_all [] = []
escape_all (c ∷ s) = escape c ++ escape_all s

unfoldable pub quote : Text → Text
unfolding escape_all
quote s = 0x22 ∷ escape_all s ++ 0x22 ∷ []

-- Texts with a comma between each two
unfoldable pub commas : List Text → Text
commas [] = []
commas (t ∷ []) = t
commas (t ∷ u ∷ ts) = t ++ b',' ∷ commas (u ∷ ts)

-- Members of an object, in the order of their names
unfoldable pub insert_member : Text → Text → List (Text × Text) → List (Text × Text)
unfolding text_le
insert_member k v [] = (k, v) ∷ []
insert_member k v ((j, w) ∷ m) =
    if text_le k j then (k, v) ∷ (j, w) ∷ m else (j, w) ∷ insert_member k v m

unfoldable pub sort_members : List (Text × Text) → List (Text × Text)
unfolding insert_member
sort_members [] = []
sort_members ((k, v) ∷ m) = insert_member k v (sort_members m)

unfoldable pub member_texts : List (Text × Text) → List Text
unfolding quote
member_texts [] = []
member_texts ((k, v) ∷ m) = (quote k ++ b':' ∷ v) ∷ member_texts m

-- `json.Marshal` of a Go map, whose keys it sorts
unfoldable pub object_text : List (Text × Text) → Text
unfolding sort_members member_texts commas
object_text m = b'{' ∷ commas (member_texts (sort_members m)) ++ b'}' ∷ []

unfoldable pub array_text : List Text → Text
unfolding commas
array_text ts = b'[' ∷ commas ts ++ b']' ∷ []

-- `json.Marshal` of a decoded value
unfoldable mutual
  unfolding object_text array_text quote

  pub marshal : Json → Text
  marshal null = codes "null"
  marshal (bool b) = if b then codes "true" else codes "false"
  marshal (num n) = n
  marshal (str s) = quote s
  marshal (arr xs) = array_text (marshal_items xs)
  marshal (obj fs) = object_text (marshal_fields fs)

  pub marshal_items : Items → List Text
  marshal_items nil = []
  marshal_items (cons x xs) = marshal x ∷ marshal_items xs

  pub marshal_fields : Fields → List (Text × Text)
  marshal_fields end = []
  marshal_fields (field k v fs) = (k, marshal v) ∷ marshal_fields fs
