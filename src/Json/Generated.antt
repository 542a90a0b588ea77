-- ===== src/Json/Generated.antt =====
-- The removal of the members that ACOS generates.
use a10_certctl.Base.{
  ◌≡◌, ◌↔◌, subst, refl, ap, ap₂, Bool, true, false, not, ◌&&◌, arith, &&-eq-true, false≢true,
  if◌then◌else◌,
}
use a10_certctl.Text.{Text}
use a10_certctl.Json.{
  Json, Items, Fields, is_generated, remove_generated, remove_from_items, remove_from_fields,
}

-- No object within the value has a generated member.
mutual
  pub is_clean : Json → Bool
  is_clean (Json.arr xs) = clean_items xs
  is_clean (Json.obj fs) = clean_fields fs
  is_clean _ = true

  pub clean_items : Items → Bool
  clean_items Items.nil = true
  clean_items (Items.cons x xs) = is_clean x && clean_items xs

  pub clean_fields : Fields → Bool
  clean_fields Fields.end = true
  clean_fields (Fields.field k v fs) = not (is_generated k) && is_clean v && clean_fields fs

mutual
  unfolding remove_generated is_clean

  remove_generated-clean : (j : Json) → is_clean (remove_generated j) ≡ true
  remove_generated-clean (Json.arr xs) = items-clean xs
  remove_generated-clean (Json.obj fs) = fields-clean fs
  remove_generated-clean Json.null = refl
  remove_generated-clean (Json.bool b) = refl
  remove_generated-clean (Json.num n) = refl
  remove_generated-clean (Json.str s) = refl

  items-clean : (xs : Items) → clean_items (remove_from_items xs) ≡ true
  items-clean Items.nil = refl
  items-clean (Items.cons x xs) = ground (arith, remove_generated-clean x, items-clean xs)

  fields-clean : (fs : Fields) → clean_fields (remove_from_fields fs) ≡ true
  fields-clean Fields.end = refl
  fields-clean (Fields.field k v fs) = ground (arith, remove_generated-clean v, fields-clean fs)

kept_member :
    (generated : Bool) (k : Text) (v v' : Json) (fs fs' : Fields)
    → not generated ≡ true
    → v' ≡ v
    → fs' ≡ fs
    → (if generated then fs' else Fields.field k v' fs') ≡ Fields.field k v fs
kept_member true k v v' fs fs' h e e' = absurd (false≢true h)
kept_member false k v v' fs fs' h e e' = ap₂ (Fields.field k) e e'

mutual
  unfolding remove_generated is_clean

  clean_stays : (j : Json) → is_clean j ≡ true → remove_generated j ≡ j
  clean_stays (Json.arr xs) h = ap Json.arr (items_stay xs h)
  clean_stays (Json.obj fs) h = ap Json.obj (fields_stay fs h)
  clean_stays Json.null h = refl
  clean_stays (Json.bool b) h = refl
  clean_stays (Json.num n) h = refl
  clean_stays (Json.str s) h = refl

  items_stay : (xs : Items) → clean_items xs ≡ true → remove_from_items xs ≡ xs
  items_stay Items.nil h = refl
  items_stay (Items.cons x xs) h =
      let both = &&-eq-true (is_clean x) (clean_items xs) h in
      ap₂ Items.cons (clean_stays x both.0) (items_stay xs both.1)

  fields_stay : (fs : Fields) → clean_fields fs ≡ true → remove_from_fields fs ≡ fs
  fields_stay Fields.end h = refl
  fields_stay (Fields.field k v fs) h =
      let both = &&-eq-true (not (is_generated k) && is_clean v) (clean_fields fs) h in
      let parts = &&-eq-true (not (is_generated k)) (is_clean v) both.0 in
      kept_member (is_generated k) k v (remove_generated v) fs (remove_from_fields fs) parts.0
        (clean_stays v parts.1) (fields_stay fs both.1)

-- The removal leaves no generated member at any depth, and leaves a value as it is just where the
-- value has none.
pub remove_generated_iff :
    (j : Json)
    → (is_clean (remove_generated j) ≡ true) × ((is_clean j ≡ true) ↔ (remove_generated j ≡ j))
remove_generated_iff j = (
  remove_generated-clean j,
  (clean_stays j, λ e. subst (λ x. is_clean x ≡ true) e (remove_generated-clean j)),
)
