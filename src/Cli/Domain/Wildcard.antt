-- ===== src/Cli/Domain/Wildcard.antt =====
-- Which common names cover a domain: cmd/a10-certctl/main.go
use a10_certctl.Base.{
  ◌≡◌, ◌↔◌, ◌⊎◌, refl, sym, ◌∙◌, subst, Bool, true, false, ◌&&◌, ◌∷◌, ◌++◌, eqb, eqb_iff,
  &&-eq-true, arith,
}
use a10_certctl.Text.{Text, codes, has_prefix, trim_prefix, has_suffix, count_of, drop, count}
use a10_certctl.Text.Laws.{
  ==_iff, has_prefix_rest, has_prefix-append, has_suffix_front, has_suffix-append, count_of-append,
}
use a10_certctl.Cli.Domain.{matches}

-- The common name is a wildcard, and the domain has one label, which may be empty, in its place.
pub record IsCovered (domain common_name : Text) : Type 0 where
  pub label : Text
  pub parent : Text
  pub wildcard : common_name ≡ b'*' ∷ b'.' ∷ parent
  pub below : domain ≡ label ++ b'.' ∷ parent
  pub one_label : count_of b'.' label ≡ 0

-- The comparison with a wildcard
abbrev under : Text → Text → Bool
under domain parent =
    has_suffix domain (b'.' ∷ parent)
    && eqb (count_of b'.' domain) (count_of b'.' (b'*' ∷ b'.' ∷ parent))

-- The dots of a domain below a wildcard's parent are those of the wildcard exactly if its label has
-- none.
dots_below :
    (label parent : Text)
    → eqb (count_of b'.' (label ++ b'.' ∷ parent)) (count_of b'.' (b'*' ∷ b'.' ∷ parent))
      ≡ eqb (count_of b'.' label) 0
unfolding count_of
dots_below label parent =
    rw (count_of-append b'.' label (b'.' ∷ parent)) (unfold count_of in ground arith)

under_sound :
    (domain parent : Text) → under domain parent ≡ true → IsCovered domain (b'*' ∷ b'.' ∷ parent)
under_sound domain parent h =
    let (suffix, dots) = &&-eq-true _ _ h in
    let (label, e) = has_suffix_front domain (b'.' ∷ parent) suffix in
    record {
      label = label;
      parent = parent;
      wildcard = refl;
      below = e;
      one_label = (eqb_iff _ _).0 (
          sym (dots_below label parent)
          ∙ subst (λ u. eqb (count_of b'.' u) (count_of b'.' (b'*' ∷ b'.' ∷ parent)) ≡ true) e
              dots);
    }

under_complete :
    (label parent : Text) → count_of b'.' label ≡ 0 → under (label ++ b'.' ∷ parent) parent ≡ true
under_complete label parent h =
    rw (has_suffix-append label (b'.' ∷ parent), dots_below label parent) ((eqb_iff _ _).1 h)

-- The end of `domainMatches`
abbrev ends_match : Text → Text → Bool
ends_match domain common_name =
    has_suffix domain (trim_prefix common_name (codes "*"))
    && eqb (count_of b'.' domain) (count_of b'.' common_name)

ends_match-star :
    (domain parent : Text) → ends_match domain (b'*' ∷ b'.' ∷ parent) ≡ under domain parent
unfolding trim_prefix drop count has_prefix
ends_match-star domain parent = refl

wildcard_sound :
    (domain common_name : Text)
    → has_prefix common_name (codes "*.") ≡ true
    → ends_match domain common_name ≡ true
    → IsCovered domain common_name
wildcard_sound domain common_name star h =
    let (parent, e) = has_prefix_rest common_name (codes "*.") star in
    subst (IsCovered domain) (sym e) (
      under_sound domain parent
        (sym (ends_match-star domain parent) ∙ subst (λ u. ends_match domain u ≡ true) e h))

wildcard_complete :
    (domain common_name : Text)
    → IsCovered domain common_name
    → (has_prefix common_name (codes "*.") ≡ true) × (ends_match domain common_name ≡ true)
wildcard_complete domain common_name c =
    rw (c.wildcard, c.below)
      (
        has_prefix-append (codes "*.") c.parent,
        ends_match-star (c.label ++ b'.' ∷ c.parent) c.parent
            ∙ under_complete c.label c.parent c.one_label,
      )

-- A common name matches a domain, both trimmed, in lower case and without a final dot, exactly if
-- they are the same, or the domain is no IP address and the common name is a wildcard whose `*`
-- stands for one label of the domain (a part without a dot, which may be empty).
pub matches_iff :
    (is_ip : Bool) (domain common_name : Text)
    → (matches is_ip domain common_name ≡ true)
      ↔ ((domain ≡ common_name) ⊎ ((is_ip ≡ false) × IsCovered domain common_name))
unfolding matches
matches_iff is_ip domain common_name = (
  λ h. ground (arith, ==_iff domain common_name, wildcard_sound domain common_name),
  λ h. ground (arith, ==_iff domain common_name, wildcard_complete domain common_name),
)
