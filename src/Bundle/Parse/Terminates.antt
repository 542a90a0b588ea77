-- ===== src/Bundle/Parse/Terminates.antt =====
-- The loop of `splitCertificates` of pkg/a10/certificate.go ends: its fuel is enough.
use a10_certctl.Base.{
  ℕ, zero, suc, ◌<◌, ◌≤◌, ◌≡◌, ◌≢◌, Bool, true, false, List, [], ◌∷◌, Option, none, some, arith,
  if◌then◌else◌, is_nil, Option-cases, inl, inr,
}
use a10_certctl.Text.{Text, ◌==◌, codes, count, is_space, trim_left, trim_right, trim, trim_space}
use a10_certctl.Errors
use a10_certctl.Errors.{Error, failed, Result, ok, err, refuse_if}
use a10_certctl.Platform.{X509, PemBlock, Platform}
use a10_certctl.Bundle.{Certificate}
use a10_certctl.Bundle.Parse.{certificate_from_parsed, split_from, split_certificates}

trim_left-count : (p : ℕ → Bool) (s : Text) → count (trim_left p s) ≤ count s
unfolding trim_left count
trim_left-count p [] = omega arith
trim_left-count p (c ∷ s) = ground (arith, trim_left-count p s)

trim_right-count : (p : ℕ → Bool) (s : Text) → count (trim_right p s) ≤ count s
unfolding trim_right count
trim_right-count p [] = omega arith
trim_right-count p (c ∷ s) = ground (arith, trim_right-count p s)

trim_space-count : (s : Text) → count (trim_space s) ≤ count s
unfolding trim_space trim
trim_space-count s =
    omega (arith, trim_right-count is_space (trim_left is_space s), trim_left-count is_space s)

-- What a loop says that has run out of fuel
abbrev pub out_of_fuel : Error
out_of_fuel = failed "out of fuel"

-- `pem.Decode` returns a rest that is shorter than what it was given.
pub record IsConsuming (p : Platform) : Type 0 where
  pub shorter :
      (s : Text) (block : PemBlock) (rest : Text)
      → p.pem_decode s ≡ some (block, rest)
      → count rest < count s

by_emptiness :
    (empty : Bool) (r : Result (List Certificate))
    → r ≢ err out_of_fuel
    → (Errors.◌>>◌ (refuse_if empty (failed "certificate PEM is empty")) r) ≢ err out_of_fuel
by_emptiness true r h = λ e. cc
by_emptiness false r h = h

module _ (p : Platform) (consuming : IsConsuming p) where
  -- The certificates after the first
  more_ends :
      (x : X509) (r : Result (List Certificate))
      → r ≢ err out_of_fuel
      → (Errors.◌>>=◌ r (λ certificates. ok (certificate_from_parsed p x ∷ certificates)))
        ≢ err out_of_fuel
  more_ends x (ok cs) h e = cc
  more_ends x (err y) h e = h e

  by_type :
      (is_certificate : Bool) (parsed : Option X509) (r : Result (List Certificate))
      → r ≢ err out_of_fuel
      → (if is_certificate
          then (elim parsed [
            | none ↦ err (failed "parse X.509 certificate")
            | some x ↦
                Errors.◌>>=◌ r (λ certificates. ok (certificate_from_parsed p x ∷ certificates))
          ])
          else err (failed "certificate data must contain only PEM CERTIFICATE blocks"))
        ≢ err out_of_fuel
  by_type false parsed r h = λ e. cc
  by_type true none r h = λ e. cc
  by_type true (some x) r h = more_ends x r h

  split_from_ends : (fuel : ℕ) (s : Text) → count s < fuel → split_from p fuel s ≢ err out_of_fuel
  unfolding split_from
  split_from_ends zero s h = omega arith
  split_from_ends (suc fuel) [] h = λ e. cc
  split_from_ends (suc fuel) (c ∷ s) h = elim (Option-cases (p.pem_decode (c ∷ s))) [
    | inl d ↦ rw (split_from, d) (λ e. cc)
    | inr (x, d) ↦
        let smaller = consuming.shorter (c ∷ s) x.0 x.1 d in
        let rest =
          split_from_ends fuel (trim_space x.1) (omega (arith, h, smaller, trim_space-count x.1)) in
        rw (split_from, d)
          (by_type (x.0.block_type == codes "CERTIFICATE") (p.parse_certificate x.0.bytes)
            (split_from p fuel (trim_space x.1)) rest)
  ]

  -- Where `pem.Decode` returns a rest that is shorter than what it was given, the fuel of
  -- `splitCertificates` does not run out, whatever the input: the loop ends by itself.
  pub split_certificates_ends : (bytes : Text) → split_certificates p bytes ≢ err out_of_fuel
  unfolding split_certificates
  split_certificates_ends bytes =
      by_emptiness (is_nil (trim_space bytes)) _
        (split_from_ends (suc (count (trim_space bytes))) (trim_space bytes) (omega arith))
