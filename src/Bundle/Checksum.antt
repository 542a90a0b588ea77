-- ===== src/Bundle/Checksum.antt =====
-- What the checksum of a bundle covers: `bundleChecksum` of pkg/a10/certificate.go
use a10_certctl.Base.{
  ℕ, zero, suc, ◌+◌, ◌≡◌, refl, ap, ap₂, ◌∙◌, List, [], ◌∷◌, ◌++◌, map, length, length-append, All,
  arith,
}
use a10_certctl.Text.{Text, codes, len}
use a10_certctl.Platform.{X509, Platform}
use a10_certctl.Bundle.{Certificate, Key, big_endian, part, parts, bundle_checksum}
use a10_certctl.Bundle.Laws.{IsChain, IsConsistent}

append_inj : (s t u v : Text) → length s ≡ length t → s ++ u ≡ t ++ v → (s ≡ t) × (u ≡ v)
append_inj [] [] u v h e = (refl, e)
append_inj [] (d ∷ t) u v h e = absurd (omega arith)
append_inj (c ∷ s) [] u v h e = absurd (omega arith)
append_inj (c ∷ s) (d ∷ t) u v h e =
    let tails : s ++ u ≡ t ++ v = cc in
    let same : length s ≡ length t = omega arith in
    let (front, back) = append_inj s t u v same tails in (cc, back)

length-big_endian : (k n : ℕ) → length (big_endian k n) ≡ k
unfolding big_endian
length-big_endian zero n = refl
length-big_endian (suc k) n = ap suc (length-big_endian k n)

length-part : (t : Text) → length (part t) ≡ 8 + length t
unfolding part
length-part t = omega (arith, length-append (big_endian 8 (len t)) t, length-big_endian 8 (len t))

part_inj : (t u : Text) → length t ≡ length u → part t ≡ part u → t ≡ u
unfolding part
part_inj t u h e =
    let headers : length (big_endian 8 (len t)) ≡ length (big_endian 8 (len u)) =
      omega (arith, length-big_endian 8 (len t), length-big_endian 8 (len u)) in
    (append_inj (big_endian 8 (len t)) (big_endian 8 (len u)) t u headers e).1

-- Texts of one length can be told from their framed concatenation, and their number too.
parts_inj :
    (n : ℕ) (ts us : List Text)
    → All (λ (t : Text). length t ≡ n) ts
    → All (λ (t : Text). length t ≡ n) us
    → parts ts ≡ parts us
    → ts ≡ us
unfolding parts
parts_inj n [] [] h k e = refl
parts_inj n [] (u ∷ us) h k e =
    absurd (omega (arith, length-append (part u) (parts us), length-part u, ap (length {A = ℕ}) e))
parts_inj n (t ∷ ts) [] h k e =
    absurd (omega (arith, length-append (part t) (parts ts), length-part t, ap (length {A = ℕ}) e))
parts_inj n (t ∷ ts) (u ∷ us) (ht, h) (hu, k) e =
    let same : length (part t) ≡ length (part u) = omega (arith, length-part t, length-part u) in
    let (first, rest) = append_inj (part t) (part u) (parts ts) (parts us) same e in
    ap₂ (λ x xs. x ∷ xs) (part_inj t u (omega arith) first) (parts_inj n ts us h k rest)

-- The checksums of a bundle's parts
abbrev pub checksums : Certificate → Key → List Certificate → List Text
checksums c k chain = c.checksum ∷ k.checksum ∷ map (λ (i : Certificate). i.checksum) chain

module _ (p : Platform) (digest_length : (t : Text) → length (p.sha256 t) ≡ 64) where
  digest_size : (s t : Text) → s ≡ codes "sha256:" ++ p.sha256 t → length s ≡ 71
  digest_size s t e = ap (length {A = ℕ}) e ∙ omega (arith, digest_length t)

  chain_sizes :
      (x : X509) (chain : List Certificate)
      → IsChain p x chain
      → All (λ (t : Text). length t ≡ 71) (map (λ (i : Certificate). i.checksum) chain)
  chain_sizes x [] h = tt
  chain_sizes x (c ∷ chain) (y, (parsed, ca, signed, rest)) =
      (digest_size c.checksum y.raw parsed.digest, chain_sizes y chain rest)

  sizes :
      (c : Certificate) (k : Key) (chain : List Certificate)
      → IsConsistent p c k chain
      → All (λ (t : Text). length t ≡ 71) (checksums c k chain)
  sizes c k chain h = (
    digest_size c.checksum h.leaf.raw h.leaf_parsed.digest,
    (digest_size k.checksum h.der h.key_digest, chain_sizes h.leaf chain h.linked),
  )

  -- Where SHA-256 gives 64 digits, and does not collide on the two texts that are hashed: consistent
  -- bundles with the same bundle checksum have the same checksums of the certificate, of the key and
  -- of the chain's certificates, in order.
  pub bundle_checksum_inj :
      (c d : Certificate) (k l : Key) (chain rest : List Certificate)
      → IsConsistent p c k chain
      → IsConsistent p d l rest
      → (p.sha256 (parts (checksums c k chain)) ≡ p.sha256 (parts (checksums d l rest))
          → parts (checksums c k chain) ≡ parts (checksums d l rest))
      → bundle_checksum p c k chain ≡ bundle_checksum p d l rest
      → checksums c k chain ≡ checksums d l rest
  unfolding bundle_checksum
  bundle_checksum_inj c d k l chain rest hc hd no_collision e =
      parts_inj 71 _ _ (sizes c k chain hc) (sizes d l rest hd)
        (no_collision (append_inj (codes "sha256:") (codes "sha256:") _ _ refl e).1)
