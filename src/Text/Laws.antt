-- ===== src/Text/Laws.antt =====
-- Laws of the text functions.
use a10_certctl.Base.{
  ℕ, ◌+◌, eqb_iff, &&-eq-true, ap₂, ◌≡◌, ◌↔◌, refl, ap, inl, inr, ||-cases, subst, true, [], ◌∷◌,
  ◌++◌, arith,
}
use a10_certctl.Text.{Text, ◌==◌, has_prefix, has_suffix, count_of}

pub ==_refl : (s : Text) → (s == s) ≡ true
unfolding ◌==◌
==_refl [] = refl
==_refl (c ∷ s) = ground (arith, ==_refl s)

pub ==-sound : (s t : Text) → (s == t) ≡ true → s ≡ t
unfolding ◌==◌
==-sound [] [] h = refl
==-sound [] (d ∷ t) h = cc
==-sound (c ∷ s) [] h = cc
==-sound (c ∷ s) (d ∷ t) h = ground (arith, ==-sound s t)

pub ==_iff : (s t : Text) → ((s == t) ≡ true) ↔ (s ≡ t)
==_iff s t = (==-sound s t, λ e. subst (λ u. (s == u) ≡ true) e (==_refl s))

pub has_suffix_self : (p : Text) → has_suffix p p ≡ true
unfolding has_suffix
has_suffix_self [] = refl
has_suffix_self (c ∷ p) = rw (==_refl (c ∷ p)) refl

pub has_suffix-append : (s p : Text) → has_suffix (s ++ p) p ≡ true
unfolding has_suffix
has_suffix-append [] p = has_suffix_self p
has_suffix-append (c ∷ s) p = ground (arith, has_suffix-append s p)

-- A suffix is what is left behind some front.
pub has_suffix_front : (s p : Text) → has_suffix s p ≡ true → (t : Text) × (s ≡ t ++ p)
unfolding has_suffix
has_suffix_front [] [] h = ([], refl)
has_suffix_front [] (d ∷ p) h = cc
has_suffix_front (c ∷ s) p h = elim (||-cases ((c ∷ s) == p) (has_suffix s p) h) [
  | inl e ↦ ([], ==-sound (c ∷ s) p e)
  | inr e ↦ let (t, q) = has_suffix_front s p e in (c ∷ t, ap (λ u. c ∷ u) q)
]

-- A prefix is what comes before some rest.
pub has_prefix_rest : (s p : Text) → has_prefix s p ≡ true → (t : Text) × (s ≡ p ++ t)
unfolding has_prefix
has_prefix_rest s [] h = (s, refl)
has_prefix_rest [] (d ∷ p) h = cc
has_prefix_rest (c ∷ s) (d ∷ p) h =
    let (e, k) = &&-eq-true _ _ h in
    let (t, q) = has_prefix_rest s p k in (t, ap₂ (λ a u. a ∷ u) ((eqb_iff c d).0 e) q)

pub has_prefix-append : (p t : Text) → has_prefix (p ++ t) p ≡ true
unfolding has_prefix
has_prefix-append [] t = ground arith
has_prefix-append (c ∷ p) t = ground (arith, has_prefix-append p t)

pub count_of-append : (d : ℕ) (s t : Text) → count_of d (s ++ t) ≡ count_of d s + count_of d t
unfolding count_of
count_of-append d [] t = omega arith
count_of-append d (c ∷ s) t = ground (arith, count_of-append d s t)
