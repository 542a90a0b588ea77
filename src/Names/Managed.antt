-- ===== src/Names/Managed.antt =====
-- The names of managed files: `managedNames`, `managedNamesForPrefix`, `sanitizeName` and
-- `limitedName` of pkg/a10/sync.go
pub mod Valid
use a10_certctl.Base.{
  ℕ, ◌-◌, Bool, true, false, not, ◌&&◌, ◌||◌, [], ◌∷◌, ◌++◌, eqb, ltb, leb, is_nil, take,
  if◌then◌else◌,
}
use a10_certctl.Text.{Text, codes, len, between, trim, trim_right, trim_space, trim_prefix}
use a10_certctl.Errors.{failed, Result, ok, refuse_if, ◌>>◌}

-- `unicode.IsLetter` and `unicode.IsDigit`, of ASCII alone: `sanitizeName` asks for both a letter
-- or a digit and a code point of at most `unicode.MaxASCII`.
unfoldable pub is_letter : ℕ → Bool
is_letter c = between b'A' b'Z' c || between b'a' b'z' c

unfoldable pub is_digit : ℕ → Bool
is_digit c = between b'0' b'9' c

unfoldable pub is_allowed : ℕ → Bool
unfolding is_letter is_digit
is_allowed c = is_letter c || is_digit c || eqb c b'.' || eqb c b'_' || eqb c b'-'

-- the loop of `sanitizeName`, from the value of `lastDash`
unfoldable pub sanitize_from : Bool → Text → Text
sanitize_from last_dash [] = []
sanitize_from last_dash (c ∷ s) =
    let keep = c ∷ sanitize_from (eqb c b'-') s in
    let skip = sanitize_from last_dash s in
    let dash = b'-' ∷ sanitize_from true s in
    if is_allowed c && leb c 127 then keep else if not last_dash then dash else skip

-- the cutset "-."
unfoldable pub is_edge : ℕ → Bool
is_edge c = eqb c b'-' || eqb c b'.'

unfoldable pub sanitize_name : Text → Text
unfolding sanitize_from is_edge trim
sanitize_name value = trim is_edge (sanitize_from false value)

-- The prefix is ASCII where this is called, so that its bytes are its code points.
unfoldable pub limited_name : Text → Text → Text
unfolding is_edge trim_right
limited_name prefix suffix =
    let max_prefix = 245 - len suffix in
    if ltb max_prefix (len prefix)
    then trim_right is_edge (take max_prefix prefix) ++ suffix
    else prefix ++ suffix

-- The certificate (and key) name, and the chain's name, which is empty without a chain.
-- `checksum` is the bundle's, and `has_chain` says that its chain is not empty.
unfoldable pub managed_names_for_prefix : Text → Bool → Text → Result (Text × Text)
unfolding sanitize_name limited_name trim_space trim_prefix
managed_names_for_prefix checksum has_chain configured_prefix = do
  let prefix = trim_space configured_prefix
  refuse_if (is_nil prefix)
      (failed "managed A10 name prefix must not be empty when creating unbound material")
  let clean = sanitize_name prefix
  refuse_if (is_nil clean) (failed "managed A10 name prefix contains no usable characters")
  let digest = trim_prefix checksum (codes "sha256:")
  refuse_if (ltb (len digest) 32) (failed "certificate bundle checksum is malformed")
  ok (
    limited_name clean (codes "-" ++ take 32 digest),
    if has_chain then limited_name clean (codes "-chain-" ++ take 32 digest) else [],
  )

unfoldable pub managed_names : Text → Text → Bool → Text → Result (Text × Text)
unfolding managed_names_for_prefix
managed_names template checksum has_chain configured_prefix =
    let prefix = trim_space configured_prefix in
    managed_names_for_prefix checksum has_chain (if is_nil prefix then template else prefix)
