-- ===== src/Names/Managed/Valid.antt =====
-- The names of managed files are valid file names.
use a10_certctl.Base.{
  ℕ, ◌+◌, ◌-◌, ◌≤◌, ◌<◌, ◌≡◌, ◌≢◌, ◌⊎◌, inl, inr, refl, ap, ◌∙◌, subst, Bool, true, false, ◌||◌, [],
  ◌∷◌, ◌++◌, is_nil, eqb, ltb, any, all, take, length, length-append, length-take, all-append,
  all-take, if◌then◌else◌, arith, Bool-cases,
}
use a10_certctl.Text.{
  Text, ◌==◌, codes, len, is_space, is_control, trim_left, trim_right, trim, trim_space,
  trim_prefix,
}
use a10_certctl.Errors.{ok}
use a10_certctl.Names.{is_separator, is_delimiter, validate_file_name}
use a10_certctl.Names.Managed.{
  is_letter, is_digit, is_allowed, sanitize_from, is_edge, sanitize_name, limited_name,
  managed_names_for_prefix, managed_names,
}

-- Text of ASCII letters, digits, dots, dashes and underscores.
abbrev pub IsPlain : Text → Type 0
IsPlain s = all is_allowed s ≡ true

all-trim_left : (q p : ℕ → Bool) (s : Text) → all q s ≡ true → all q (trim_left p s) ≡ true
unfolding trim_left
all-trim_left q p [] h = refl
all-trim_left q p (c ∷ s) h = ground (arith, all-trim_left q p s)

all-trim_right : (q p : ℕ → Bool) (s : Text) → all q s ≡ true → all q (trim_right p s) ≡ true
unfolding trim_right
all-trim_right q p [] h = refl
all-trim_right q p (c ∷ s) h = ground (arith, all-trim_right q p s)

length-trim_right : (p : ℕ → Bool) (s : Text) → length (trim_right p s) ≤ length s
unfolding trim_right
length-trim_right p [] = omega arith
length-trim_right p (c ∷ s) = ground (arith, length-trim_right p s)

dash_is_allowed : is_allowed b'-' ≡ true
unfolding is_allowed is_letter is_digit
dash_is_allowed = refl

sanitize_from-IsPlain : (b : Bool) (s : Text) → IsPlain (sanitize_from b s)
unfolding sanitize_from
sanitize_from-IsPlain b [] = refl
sanitize_from-IsPlain b (c ∷ s) = ground (
  arith,
  sanitize_from-IsPlain (eqb c b'-') s,
  sanitize_from-IsPlain b s,
  sanitize_from-IsPlain true s,
  dash_is_allowed,
)

pub sanitize_name-IsPlain : (s : Text) → IsPlain (sanitize_name s)
unfolding sanitize_name trim
sanitize_name-IsPlain s =
    all-trim_right is_allowed is_edge (trim_left is_edge (sanitize_from false s))
      (all-trim_left is_allowed is_edge (sanitize_from false s) (sanitize_from-IsPlain false s))

-- What an allowed code point is not.
allowed_range :
    (c : ℕ) → is_allowed c ≡ true → (c < 0x7f) × (44 < c) × (c ≢ 0x2f) × (c ≢ 0x5c) × (c ≢ 0x3f)
unfolding is_allowed is_letter is_digit
allowed_range c h =
    (ground arith, ground arith, λ e. ground arith, λ e. ground arith, λ e. ground arith)

not_space : (c : ℕ) → is_allowed c ≡ true → is_space c ≡ false
unfolding is_space
not_space c h = let r = allowed_range c h in ground arith

not_control : (c : ℕ) → is_allowed c ≡ true → is_control c ≡ false
unfolding is_control
not_control c h = let r = allowed_range c h in ground arith

not_separator : (c : ℕ) → is_allowed c ≡ true → is_separator c ≡ false
unfolding is_separator
not_separator c h = let r = allowed_range c h in ground arith

not_delimiter : (c : ℕ) → is_allowed c ≡ true → is_delimiter c ≡ false
unfolding is_delimiter
not_delimiter c h = let r = allowed_range c h in ground arith

any-IsPlain :
    (q : ℕ → Bool)
    → ((c : ℕ) → is_allowed c ≡ true → q c ≡ false)
    → (s : Text) → IsPlain s
    → any q s ≡ false
any-IsPlain q f [] h = refl
any-IsPlain q f (c ∷ s) h = ground (arith, any-IsPlain q f s, f c)

len-IsPlain : (s : Text) → IsPlain s → len s ≡ length s
unfolding len
len-IsPlain [] h = refl
len-IsPlain (c ∷ s) h = ground (arith, len-IsPlain s, allowed_range c)

trim_left-IsPlain : (s : Text) → IsPlain s → trim_left is_space s ≡ s
unfolding trim_left
trim_left-IsPlain [] h = refl
trim_left-IsPlain (c ∷ s) h = ground (arith, not_space c)

trim_right-IsPlain : (s : Text) → IsPlain s → trim_right is_space s ≡ s
unfolding trim_right
trim_right-IsPlain [] h = refl
trim_right-IsPlain (c ∷ s) h = ground (arith, not_space c, trim_right-IsPlain s)

trim_space-IsPlain : (s : Text) → IsPlain s → trim_space s ≡ s
unfolding trim_space trim
trim_space-IsPlain s h = ap (trim_right is_space) (trim_left-IsPlain s h) ∙ trim_right-IsPlain s h

not_nil : (s : Text) → 2 < length s → is_nil s ≡ false
not_nil [] h = absurd (omega arith)
not_nil (c ∷ s) h = refl

not_dots : (s : Text) → 2 < length s → (s == codes "." || s == codes "..") ≡ false
unfolding ◌==◌
not_dots [] h = absurd (omega arith)
not_dots (c ∷ []) h = absurd (omega arith)
not_dots (c ∷ d ∷ []) h = absurd (omega arith)
not_dots (c ∷ d ∷ e ∷ s) h = ground arith

-- A plain text of three to 245 code points is a valid file name.
valid_of_plain :
    (s : Text) → IsPlain s → 2 < length s → length s ≤ 245 → validate_file_name s ≡ ok tt
unfolding validate_file_name
valid_of_plain s h lower upper =
    let long : len s ≡ length s = len-IsPlain s h in
    let control : any is_control s ≡ false = any-IsPlain _ not_control s h in
    let separator : any is_separator s ≡ false = any-IsPlain _ not_separator s h in
    let delimiter : any is_delimiter s ≡ false = any-IsPlain _ not_delimiter s h in
    let space : trim_space s ≡ s = trim_space-IsPlain s h in
    let filled : is_nil s ≡ false = not_nil s lower in
    let no_dot : (s == codes "." || s == codes "..") ≡ false = not_dots s lower in
    rw (space, filled, control, separator, no_dot, delimiter, long) ground arith

-- A prefix that is cut, or one that fits, before a plain suffix.
append-valid :
    (prefix suffix : Text)
    → IsPlain prefix
    → IsPlain suffix
    → 2 < length suffix
    → length prefix + length suffix ≤ 245
    → validate_file_name (prefix ++ suffix) ≡ ok tt
append-valid prefix suffix p q lower upper =
    let l = length-append prefix suffix in
    valid_of_plain (prefix ++ suffix) (all-append is_allowed prefix suffix ∙ rw (p, q) refl)
      (omega (arith, l)) (omega (arith, l))

limited_name-valid :
    (prefix suffix : Text)
    → IsPlain prefix
    → IsPlain suffix
    → 2 < length suffix
    → length suffix ≤ 245
    → validate_file_name (limited_name prefix suffix) ≡ ok tt
unfolding limited_name
limited_name-valid prefix suffix p q lower upper =
    elim (Bool-cases (ltb (245 - len suffix) (len prefix))) [
      | inl long ↦ rw long (
          append-valid (trim_right is_edge (take (245 - len suffix) prefix)) suffix
            (all-trim_right is_allowed is_edge (take (245 - len suffix) prefix)
              (all-take is_allowed (245 - len suffix) prefix p))
            q lower
            (omega (
              arith,
              len-IsPlain suffix q,
              length-take (245 - len suffix) prefix,
              length-trim_right is_edge (take (245 - len suffix) prefix),
            )))
      | inr short ↦ rw short (
          append-valid prefix suffix p q lower
            (ground (arith, len-IsPlain suffix q, len-IsPlain prefix p)))
    ]

-- The digits of a checksum.
abbrev pub digest_of : Text → Text
digest_of checksum = trim_prefix checksum (codes "sha256:")

names_of_ok :
    (checksum : Text) (has_chain : Bool) (prefix : Text) (names : Text × Text)
    → managed_names_for_prefix checksum has_chain prefix ≡ ok names
    → (32 ≤ len (digest_of checksum))
      × ((
        limited_name
            (sanitize_name (trim_space prefix))
            (codes "-" ++ take 32 (digest_of checksum)),
        if has_chain
            then limited_name
                (sanitize_name (trim_space prefix))
                (codes "-chain-" ++ take 32 (digest_of checksum))
            else [],
      )
          ≡ names)
unfolding managed_names_for_prefix
names_of_ok checksum has_chain prefix names h = (ground arith, ground arith)

module _ (checksum : Text) (plain : IsPlain (digest_of checksum))
    (long : 32 ≤ len (digest_of checksum)) where
  digits : Text
  digits = take 32 (digest_of checksum)

  suffix_facts :
      (s : Text)
      → IsPlain s
      → IsPlain (s ++ take 32 (digest_of checksum))
        × (length (s ++ take 32 (digest_of checksum)) ≡ length s + 32)
  suffix_facts s p = (
    all-append is_allowed s (take 32 (digest_of checksum))
        ∙ rw (p, all-take is_allowed 32 (digest_of checksum) plain) refl,
    omega (
      arith,
      length-append s (take 32 (digest_of checksum)),
      length-take 32 (digest_of checksum),
      len-IsPlain (digest_of checksum) plain,
    ),
  )

  chain_name-valid :
      (has_chain : Bool) (clean : Text)
      → IsPlain clean
      → let name =
          if has_chain
          then limited_name clean (codes "-chain-" ++ take 32 (digest_of checksum))
          else [] in
        (has_chain ≡ false) × (name ≡ []) ⊎ (validate_file_name name ≡ ok tt)
  unfolding is_allowed is_letter is_digit
  chain_name-valid true clean p =
      let facts = suffix_facts (codes "-chain-") refl in
      inr (limited_name-valid clean _ p facts.0 (omega (arith, facts.1)) (omega (arith, facts.1)))
  chain_name-valid false clean p = inl (refl, refl)

  name-valid :
      (clean : Text)
      → IsPlain clean
      → validate_file_name (limited_name clean (codes "-" ++ take 32 (digest_of checksum))) ≡ ok tt
  unfolding is_allowed is_letter is_digit
  name-valid clean p =
      let facts = suffix_facts (codes "-") refl in
      limited_name-valid clean _ p facts.0 (omega (arith, facts.1)) (omega (arith, facts.1))

-- Where the digits of the bundle's checksum are plain, the managed names are valid file names,
-- whatever the template and the configured prefix; the chain's name may be empty without a chain.
pub managed_names-valid :
    (template checksum : Text) (has_chain : Bool) (configured_prefix : Text) (names : Text × Text)
    → IsPlain (digest_of checksum)
    → managed_names template checksum has_chain configured_prefix ≡ ok names
    → (validate_file_name names.0 ≡ ok tt)
      × ((has_chain ≡ false) × (names.1 ≡ []) ⊎ (validate_file_name names.1 ≡ ok tt))
unfolding managed_names
managed_names-valid template checksum has_chain configured_prefix names plain h =
    let prefix =
      if is_nil (trim_space configured_prefix) then template else trim_space configured_prefix in
    let found = names_of_ok checksum has_chain prefix names h in
    let clean = sanitize_name (trim_space prefix) in
    subst
      (λ (n : Text × Text).
        (validate_file_name n.0 ≡ ok tt)
        × ((has_chain ≡ false) × (n.1 ≡ []) ⊎ (validate_file_name n.1 ≡ ok tt)))
      found.1
      (
        name-valid checksum plain found.0 clean (sanitize_name-IsPlain _),
        chain_name-valid checksum plain found.0 has_chain clean (sanitize_name-IsPlain _),
      )
