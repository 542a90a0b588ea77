-- ===== src/Text.antt =====
-- Go's strings, as the package uses them: a text is the list of its Unicode code points (valid
-- UTF-8), and `len` counts the bytes of its encoding. Functions of `strings` and `unicode`.
pub mod Laws
use Prim.Native.Char.{code}
use Prim.Native.String.{String}
use a10_certctl.Base.{
  ℕ, zero, ◌+◌, ◌-◌, ◌*◌, ◌≡◌, Bool, true, false, ◌&&◌, ◌||◌, List, [], ◌∷◌, ◌++◌, ltb, leb, eqb,
  any, is_nil, if◌then◌else◌, take, arith,
}

abbrev pub Text : Type 0
Text = List ℕ

-- The code points of a literal.
abbrev pub codes : String → Text
codes String.[] = []
codes (String.◌∷◌ c s) = code c ∷ codes s

infix 50 ◌==◌
unfoldable pub ◌==◌ : Text → Text → Bool
[] == [] = true
(c ∷ s) == (d ∷ t) = eqb c d && s == t
_ == _ = false

-- The bytes that UTF-8 needs for a code point.
abbrev pub width : ℕ → ℕ
width c = if ltb c 0x80 then 1 else if ltb c 0x800 then 2 else if ltb c 0x10000 then 3 else 4

unfoldable pub len : Text → ℕ
len [] = 0
len (c ∷ s) = width c + len s

abbrev pub between : ℕ → ℕ → ℕ → Bool
between lo hi c = leb lo c && leb c hi

-- `unicode.IsSpace`
unfoldable pub is_space : ℕ → Bool
is_space c =
    between 9 13 c
    || eqb c 32
    || eqb c 0x85
    || eqb c 0xa0
    || eqb c 0x1680
    || between 0x2000 0x200a c
    || between 0x2028 0x2029 c
    || eqb c 0x202f
    || eqb c 0x205f
    || eqb c 0x3000

-- `unicode.IsControl`
unfoldable pub is_control : ℕ → Bool
is_control c = ltb c 32 || between 0x7f 0x9f c

unfoldable pub trim_left : (ℕ → Bool) → Text → Text
trim_left p [] = []
trim_left p (c ∷ s) = if p c then trim_left p s else c ∷ s

unfoldable pub trim_right : (ℕ → Bool) → Text → Text
trim_right p [] = []
trim_right p (c ∷ s) = let rest = trim_right p s in if is_nil rest && p c then [] else c ∷ rest

-- `strings.Trim` with a cutset, given as a test
unfoldable pub trim : (ℕ → Bool) → Text → Text
unfolding trim_left trim_right
trim p s = trim_right p (trim_left p s)

-- `strings.TrimSpace`
unfoldable pub trim_space : Text → Text
unfolding trim is_space
trim_space s = trim is_space s

-- `strings.HasPrefix`
unfoldable pub has_prefix : Text → Text → Bool
has_prefix s [] = true
has_prefix [] (d ∷ p) = false
has_prefix (c ∷ s) (d ∷ p) = eqb c d && has_prefix s p

unfoldable pub drop : ℕ → Text → Text
drop zero s = s
drop (ℕ.suc n) [] = []
drop (ℕ.suc n) (c ∷ s) = drop n s

-- The code points of a text are as many as a prefix test has compared.
unfoldable pub count : Text → ℕ
count [] = 0
count (c ∷ s) = ℕ.suc (count s)

-- `strings.TrimPrefix`
unfoldable pub trim_prefix : Text → Text → Text
unfolding has_prefix drop count
trim_prefix s p = if has_prefix s p then drop (count p) s else s

-- `strings.HasSuffix`
unfoldable pub has_suffix : Text → Text → Bool
unfolding ◌==◌
has_suffix [] p = is_nil p
has_suffix (c ∷ s) p = (c ∷ s) == p || has_suffix s p

-- `strings.TrimSuffix`
unfoldable pub trim_suffix : Text → Text → Text
unfolding has_suffix count
trim_suffix s p = if has_suffix s p then take (count s - count p) s else s

-- `strings.Count` of a text that is one ASCII character
unfoldable pub count_of : ℕ → Text → ℕ
count_of d [] = 0
count_of d (c ∷ s) = let n = count_of d s in if eqb c d then ℕ.suc n else n

-- The number that decimal digits stand for, after those read before.
unfoldable pub decimal_from : ℕ → Text → ℕ
decimal_from n [] = n
decimal_from n (c ∷ s) = decimal_from (n * 10 + (c - b'0')) s

unfoldable pub decimal_value : Text → ℕ
unfolding decimal_from
decimal_value s = decimal_from 0 s
