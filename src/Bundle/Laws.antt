-- ===== src/Bundle/Laws.antt =====
-- When a bundle can be put together, and what its checksum covers: pkg/a10/certificate.go
use a10_certctl.Base.{
  ◌≡◌, ◌≢◌, ◌↔◌, refl, sym, ap, ◌∙◌, true, false, List, [], ◌∷◌, ◌++◌, Option, some, none, is_nil,
  arith, subst,
}
use a10_certctl.Text.{Text, ◌==◌, codes}
use a10_certctl.Text.Laws.{==_refl, ==_iff}
use a10_certctl.Errors.{ok}
use a10_certctl.Platform.{X509, PrivateKey, Platform}
use a10_certctl.Bundle.{
  Certificate, Key, CertificateBundle, bundle_checksum, new_certificate_bundle, certificate_valid,
  new_checksum, key_valid, certificate_matches_key, public_keys_match, chain_from,
  validate_certificate_chain,
}

-- A certificate with its text, whose checksum is the digest of its DER encoding
pub record IsParsed (p : Platform) (c : Certificate) (x : X509) : Type 0 where
  pub parsed_eq : c.parsed ≡ some x
  pub has_text : c.pem ≢ []
  pub digest : c.checksum ≡ codes "sha256:" ++ p.sha256 x.raw

-- Each certificate of the chain is one of a CA, which has signed the certificate before it.
abbrev pub IsChain : Platform → X509 → List Certificate → Type 0
IsChain p child [] = Unit
IsChain p child (c ∷ chain) =
    (x : X509) × (IsParsed p c x
      × (x.is_ca ≡ true)
      × (p.check_signature_from child x ≡ true)
      × IsChain p x chain)

-- A certificate, the key that belongs to it, and its chain
pub record IsConsistent (p : Platform) (c : Certificate) (k : Key) (chain : List Certificate)
    : Type 0 where
  pub leaf : X509
  pub leaf_parsed : IsParsed p c leaf
  pub signer : PrivateKey
  pub signer_eq : k.private_key ≡ some signer
  pub signs : signer.is_signer ≡ true
  pub key_text : k.pem ≢ []
  pub der : Text
  pub der_eq : signer.canonical ≡ some der
  pub key_digest : k.checksum ≡ codes "sha256:" ++ p.sha256 der
  pub public_key : Text
  pub leaf_public : leaf.public_key ≡ some public_key
  pub signer_public : signer.public_key ≡ some public_key
  pub linked : IsChain p leaf chain

is_nil-of : (t : Text) → t ≢ [] → is_nil t ≡ false
is_nil-of [] h = absurd (h refl)
is_nil-of (d ∷ t) h = refl

some_inj : {A : Type 0} {x y : A} → some x ≡ some y → y ≡ x
some_inj e = cc

module _ (p : Platform) where
  IsParsed-of :
      (c : Certificate) (o : Option X509)
      → c.parsed ≡ o
      → certificate_valid p c ≡ true
      → (x : X509) × (o ≡ some x) × IsParsed p c x
  unfolding certificate_valid new_checksum
  IsParsed-of c none e h = absurd (ground arith)
  IsParsed-of c (some x) e h = (
    x,
    refl,
    record {
      parsed_eq = e;
      has_text = λ n. ground arith;
      digest = ground (arith, ==_iff c.checksum (codes "sha256:" ++ p.sha256 x.raw));
    },
  )

  valid-of : (c : Certificate) (x : X509) → IsParsed p c x → certificate_valid p c ≡ true
  unfolding certificate_valid new_checksum
  valid-of c x h = ground (
    arith,
    h.parsed_eq,
    ==_iff c.checksum (codes "sha256:" ++ p.sha256 x.raw),
    is_nil-of c.pem h.has_text,
  )

  -- One step of the loop over the chain
  link-of :
      (child : X509) (c : Certificate) (chain : List Certificate) (o : Option X509)
      → c.parsed ≡ o
      → chain_from p child (c ∷ chain) ≡ ok tt
      → (x : X509) × (c.parsed ≡ some x)
        × (certificate_valid p c ≡ true)
        × (x.is_ca ≡ true)
        × (p.check_signature_from child x ≡ true)
        × (chain_from p x chain ≡ ok tt)
  unfolding chain_from
  link-of child c chain none e h = absurd (ground arith)
  link-of child c chain (some x) e h =
      (x, e, ground arith, ground arith, ground arith, ground arith)

  IsChain-of :
      (child : X509) (chain : List Certificate)
      → chain_from p child chain ≡ ok tt
      → IsChain p child chain
  IsChain-of child [] h = tt
  IsChain-of child (c ∷ chain) h =
      let (x, e, valid, ca, signed, rest) = link-of child c chain _ refl h in
      let (y, same, parsed) = IsParsed-of c (some x) e valid in
      (x, (subst (IsParsed p c) (some_inj same) parsed, ca, signed, IsChain-of x chain rest))

  chain-of :
      (child : X509) (chain : List Certificate)
      → IsChain p child chain
      → chain_from p child chain ≡ ok tt
  unfolding chain_from
  chain-of child [] h = refl
  chain-of child (c ∷ chain) (x, (parsed, ca, signed, rest)) =
      ground (arith, parsed.parsed_eq, valid-of c x parsed, chain-of x chain rest)

  module _ (c : Certificate) (k : Key) (chain : List Certificate) where
    abbrev assembled : CertificateBundle
    assembled = record {
      certificate = c;
      key = k;
      chain = chain;
      checksum = bundle_checksum p c k chain;
    }

    bundle_of_ok :
        (b : CertificateBundle) → new_certificate_bundle p c k chain ≡ ok b → assembled ≡ b
    unfolding new_certificate_bundle
    bundle_of_ok b h = ground arith

    checks_of_ok :
        (b : CertificateBundle)
        → new_certificate_bundle p c k chain ≡ ok b
        → (certificate_valid p c ≡ true)
          × (key_valid p k ≡ true)
          × (certificate_matches_key p c k ≡ ok tt)
          × (validate_certificate_chain p c chain ≡ ok tt)
    unfolding new_certificate_bundle
    checks_of_ok b h = (ground arith, ground arith, ground arith, ground arith)

    key_facts :
        (o : Option PrivateKey)
        → k.private_key ≡ o
        → key_valid p k ≡ true
        → (signer : PrivateKey) × (der : Text) × (o ≡ some signer)
          × (k.pem ≢ [])
          × (signer.canonical ≡ some der)
          × (k.checksum ≡ codes "sha256:" ++ p.sha256 der)
    unfolding key_valid
    key_facts none e h = absurd (ground arith)
    key_facts (some signer) e h =
        let (der, canonical, digest) = der_facts signer signer.canonical refl (ground arith) in
        (signer, der, refl, λ n. ground arith, canonical, digest)
      where
        der_facts :
            (signer : PrivateKey) (o : Option Text)
            → signer.canonical ≡ o
            → (elim o [ none ↦ false | some der ↦ k.checksum == new_checksum p der ]) ≡ true
            → (der : Text) × (signer.canonical ≡ some der)
              × (k.checksum ≡ codes "sha256:" ++ p.sha256 der)
        der_facts signer none e h = cc
        der_facts signer (some der) e h =
            (der, e, unfold new_checksum in (==_iff k.checksum (new_checksum p der)).0 h)

    public_facts :
        (a b : Option Text)
        → public_keys_match a b ≡ ok tt
        → (t : Text) × (a ≡ some t) × (b ≡ some t)
    unfolding public_keys_match
    public_facts none b h = cc
    public_facts (some s) none h = cc
    public_facts (some s) (some t) h = (t, ground (arith, ==_iff s t), refl)

    pair_facts :
        (x : X509) (signer : PrivateKey)
        → c.parsed ≡ some x
        → k.private_key ≡ some signer
        → certificate_matches_key p c k ≡ ok tt
        → (signer.is_signer ≡ true) × (public_keys_match x.public_key signer.public_key ≡ ok tt)
    unfolding certificate_matches_key
    pair_facts x signer e f h = (ground arith, ground arith)

    chain_facts :
        (x : X509)
        → c.parsed ≡ some x
        → validate_certificate_chain p c chain ≡ ok tt
        → chain_from p x chain ≡ ok tt
    unfolding validate_certificate_chain
    chain_facts x e h = ground arith

    IsConsistent-of :
        certificate_valid p c ≡ true
        → key_valid p k ≡ true
        → certificate_matches_key p c k ≡ ok tt
        → validate_certificate_chain p c chain ≡ ok tt
        → IsConsistent p c k chain
    IsConsistent-of hc hk hm hv =
        let (x, e, parsed) = IsParsed-of c _ refl hc in
        let (signer, der, f, text, canonical, digest) = key_facts _ refl hk in
        let (signs, same) = pair_facts x signer e f hm in
        let (public, leaf_public, signer_public) = public_facts _ _ same in
        record {
          leaf = x;
          leaf_parsed = parsed;
          signer = signer;
          signer_eq = f;
          signs = signs;
          key_text = text;
          der = der;
          der_eq = canonical;
          key_digest = digest;
          public_key = public;
          leaf_public = leaf_public;
          signer_public = signer_public;
          linked = IsChain-of x chain (chain_facts x e hv);
        }

    consistent_passes : IsConsistent p c k chain → new_certificate_bundle p c k chain ≡ ok assembled
    unfolding new_certificate_bundle key_valid new_checksum certificate_matches_key
        public_keys_match validate_certificate_chain
    consistent_passes h =
        let valid = valid-of c h.leaf h.leaf_parsed in
        let linked = chain-of h.leaf chain h.linked in
        ground (
          arith,
          h.leaf_parsed.parsed_eq,
          h.signer_eq,
          h.signs,
          h.der_eq,
          h.key_digest,
          h.leaf_public,
          h.signer_public,
          is_nil-of k.pem h.key_text,
          ==_refl h.public_key,
          ==_refl k.checksum,
          ==_iff k.checksum (codes "sha256:" ++ p.sha256 h.der),
        )

  -- `NewCertificateBundle` returns a bundle exactly if its arguments are consistent: the certificate
  -- is parsed and has the digest of its DER encoding, the key likewise, both have the same public
  -- key, and each certificate of the chain is one of a CA that has signed the one before it. The
  -- bundle then holds these arguments, under the bundle checksum of the three.
  pub new_certificate_bundle_iff :
      (c : Certificate) (k : Key) (chain : List Certificate) (b : CertificateBundle)
      → (new_certificate_bundle p c k chain ≡ ok b) ↔ (
          (b ≡ record {
            certificate = c;
            key = k;
            chain = chain;
            checksum = bundle_checksum p c k chain;
          })
          × IsConsistent p c k chain)
  new_certificate_bundle_iff c k chain b = (
    λ h.
        let (hc, hk, hm, hv) = checks_of_ok c k chain b h in
        (sym (bundle_of_ok c k chain b h), IsConsistent-of c k chain hc hk hm hv),
    λ h. consistent_passes c k chain h.1 ∙ ap ok (sym h.0),
  )
