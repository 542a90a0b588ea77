-- ===== src/Compatibility.antt =====
-- pkg/a10/compatibility.go
use a10_certctl.Base.{ℕ, Bool, true, ◌||◌, [], ◌∷◌, Option, none, some, is_nil, eqb, if◌then◌else◌}
use a10_certctl.Text.{Text, between, trim_left, decimal_value}
use a10_certctl.Errors.{compatibility, Result, ok, err}
use a10_certctl.Exec.{◌>>=◌, ◌>>◌, pure, lift, annotate}
use a10_certctl.Axapi.{Io}
use a10_certctl.Session.{VersionInfo, acos_version}

-- the class `\s` of package regexp
unfoldable pub is_blank : ℕ → Bool
is_blank c = eqb c 9 || eqb c 10 || eqb c 12 || eqb c 13 || eqb c 32

unfoldable pub is_decimal : ℕ → Bool
is_decimal c = between b'0' b'9' c

-- The digits at the front of a text, and what comes after them.
unfoldable pub split_digits : Text → Text × Text
unfolding is_decimal
split_digits [] = ([], [])
split_digits (c ∷ s) =
    let (digits, rest) = split_digits s in if is_decimal c then (c ∷ digits, rest) else ([], c ∷ s)

-- `(\d+)`: at least one digit. Each `\d+` of the pattern is followed by what is no digit, so the
-- longest run of digits is the only one that can match.
unfoldable pub match_number : Text → Option (Text × Text)
unfolding split_digits
match_number s =
    let (digits, rest) = split_digits s in if is_nil digits then none else some (digits, rest)

-- `\.`
unfoldable pub match_dot : Text → Option Text
match_dot [] = none
match_dot (c ∷ s) = if eqb c b'.' then some s else none

-- `(?:[\s,-]|$)`
unfoldable pub match_end : Text → Bool
unfolding is_blank
match_end [] = true
match_end (c ∷ s) = is_blank c || eqb c b',' || eqb c b'-'

infixl 5 ◌then?◌
abbrev pub ◌then?◌ : {A B : Type 0} → Option A → (A → Option B) → Option B
none then? k = none
some a then? k = k a

-- `acosReleasePattern.FindStringSubmatch`: the first group of a match
unfoldable pub release_major : Text → Option Text
unfolding is_blank match_number match_dot match_end
release_major version = match_number (trim_left is_blank version) then? λ major.
    match_dot major.1 then? λ s. match_number s then? λ minor. match_dot minor.1 then? λ t.
    match_number t then? λ patch. if match_end patch.1 then some major.0 else none

-- `validateCompatibility`
unfoldable pub validate_compatibility : Text → Result (Unit {0})
unfolding release_major decimal_value
validate_compatibility version = elim (release_major version) [
  | none ↦ err (compatibility version "expected an ACOS 6.x.y software version")
  | some major ↦
      if eqb (decimal_value major) 6
      then ok tt
      else err (compatibility version "a10-certctl supports ACOS major version 6")
]

-- `(*Session).VerifyCompatibility`
unfoldable pub verify_compatibility : Io VersionInfo
unfolding validate_compatibility
verify_compatibility = do
  version ← annotate "read ACOS version" acos_version
  lift (validate_compatibility version.software_version)
  pure version
