-- ===== src/Template/Revision/Order.antt =====
-- The revision does not depend on the order of the bindings.
use a10_certctl.Base.{
  ◌≡◌, ◌≢◌, refl, sym, ap, ap₂, ◌∙◌, inl, inr, Bool-cases, subst, true, false, List, [], ◌∷◌, ◌++◌,
  map, Option, none, some, arith,
}
use mathlib.Core.Logic.{∥∥₁_elim}
use mathlib.Core.List.{Permᴰ, Perm}
use a10_certctl.Text.{Text, ◌==◌, codes}
use a10_certctl.Text.Laws.{==_iff}
use a10_certctl.Json.{
  Json, Fields, field, text_le, quote, object_text, array_text, is_generated, marshal,
  remove_generated, marshal_fields, remove_from_fields,
}
use a10_certctl.Platform.{Platform}
use a10_certctl.Template.{Binding, ClientSslTemplate}
use a10_certctl.Template.Revision.{
  binding_text, insert_text, sort_texts, bindings_text, canonical_text, put_member, payload_members,
  revision,
}

text_le-antisym : (s t : Text) → text_le s t ≡ true → text_le t s ≡ true → s ≡ t
unfolding text_le
text_le-antisym [] [] h k = refl
text_le-antisym [] (d ∷ t) h k = cc
text_le-antisym (c ∷ s) [] h k = cc
text_le-antisym (c ∷ s) (d ∷ t) h k = ground (arith, text_le-antisym s t)

text_le-total : (s t : Text) → text_le s t ≡ false → text_le t s ≡ true
unfolding text_le
text_le-total [] t h = cc
text_le-total (c ∷ s) [] h = refl
text_le-total (c ∷ s) (d ∷ t) h = ground (arith, text_le-total s t)

text_le_trans : (s t u : Text) → text_le s t ≡ true → text_le t u ≡ true → text_le s u ≡ true
unfolding text_le
text_le_trans [] t u h k = refl
text_le_trans (c ∷ s) [] u h k = cc
text_le_trans (c ∷ s) (d ∷ t) [] h k = cc
text_le_trans (c ∷ s) (d ∷ t) (e ∷ u) h k = ground (arith, text_le_trans s t u)

insert_text_comm :
    (a b : Text) (l : List Text) → insert_text a (insert_text b l) ≡ insert_text b (insert_text a l)
unfolding insert_text
insert_text_comm a b [] = ground (arith, text_le-antisym a b, text_le-total a b)
insert_text_comm a b (c ∷ l) = ground (
  arith,
  insert_text_comm a b l,
  text_le-antisym a b,
  text_le-total a b,
  text_le-total b a,
  text_le_trans a b c,
  text_le_trans b a c,
  text_le-total a c,
  text_le-total b c,
  text_le_trans a c b,
  text_le_trans b c a,
)

sort_bindings-Permᴰ :
    (bs cs : List Binding)
    → Permᴰ bs cs
    → sort_texts (map binding_text bs) ≡ sort_texts (map binding_text cs)
unfolding sort_texts
sort_bindings-Permᴰ _ _ Permᴰ.nil = refl
sort_bindings-Permᴰ _ _ (Permᴰ.cons {l₁ = l₁} {l₂ = l₂} e d) =
    ap₂ insert_text (ap binding_text e) (sort_bindings-Permᴰ l₁ l₂ d)
sort_bindings-Permᴰ _ _ (Permᴰ.swap {a = a} {b = b} {l = l} e f) =
    insert_text_comm (binding_text a) (binding_text b) (sort_texts (map binding_text l))
    ∙ ap₂
        (λ x y.
          insert_text (binding_text x)
            (insert_text (binding_text y) (sort_texts (map binding_text l))))
        f e
sort_bindings-Permᴰ bs cs (Permᴰ.trans {l₂ = l₂} d e) =
    sort_bindings-Permᴰ bs l₂ d ∙ sort_bindings-Permᴰ l₂ cs e

IsSet-Text : IsSet Text
IsSet-Text = hlevel

-- The revision, from what it reads of a template.
abbrev revision_of : Platform → Text → Option Fields → List Text → Text
revision_of p name payload bindings =
    codes "sha256:"
    ++ p.sha256 (
        object_text (
          put_member (codes "certificate-list") (array_text bindings)
            (put_member (codes "name") (quote name) (payload_members payload))))

revision-revision_of :
    (p : Platform) (t : ClientSslTemplate)
    → revision p t
      ≡ revision_of p t.name t.revision_payload (sort_texts (map binding_text t.certificates))
unfolding revision canonical_text bindings_text
revision-revision_of p t = refl

-- Payloads with the same members, up to the value of the member that holds the bindings
pub data SameMembers : Fields → Fields → Type 0 where
  same : (fs : Fields) → SameMembers fs fs
  other :
      {fs gs : Fields} (k : Text) (v : Json)
      → k ≢ codes "certificate-list"
      → SameMembers fs gs
      → SameMembers (field k v fs) (field k v gs)
  bindings :
      (k : Text) (v w : Json) (fs : Fields)
      → k ≡ codes "certificate-list"
      → SameMembers (field k v fs) (field k w fs)

pub data SamePayload : Option Fields → Option Fields → Type 0 where
  no_payload : SamePayload none none
  members : {fs gs : Fields} → SameMembers fs gs → SamePayload (some fs) (some gs)

module _ (bindings_json name_json : Text) where
  -- The members as the revision has them, without and with the name set
  abbrev listed : List (Text × Text) → List (Text × Text)
  listed m = put_member (codes "certificate-list") bindings_json m

  abbrev named : List (Text × Text) → List (Text × Text)
  named m = listed (put_member (codes "name") name_json m)

  cons_listed :
      (k t : Text) (m m' : List (Text × Text))
      → k ≢ codes "certificate-list"
      → listed m ≡ listed m'
      → listed ((k, t) ∷ m) ≡ listed ((k, t) ∷ m')
  unfolding put_member
  cons_listed k t m m' h e = ground (arith, ==_iff k (codes "certificate-list"))

  cons_named :
      (k t : Text) (m m' : List (Text × Text))
      → k ≢ codes "certificate-list"
      → listed m ≡ listed m'
      → named m ≡ named m'
      → named ((k, t) ∷ m) ≡ named ((k, t) ∷ m')
  unfolding put_member ◌==◌
  cons_named k t m m' h e f = elim (Bool-cases (k == codes "name")) [
    | inl y ↦ rw y (ap (λ r. (codes "name", name_json) ∷ r) e)
    | inr y ↦ rw y (cons_listed k t _ _ h f)
  ]

  -- A member for the bindings is replaced.
  replaced :
      (t u : Text) (m : List (Text × Text))
      → (listed ((codes "certificate-list", t) ∷ m) ≡ listed ((codes "certificate-list", u) ∷ m))
        × (named ((codes "certificate-list", t) ∷ m) ≡ named ((codes "certificate-list", u) ∷ m))
  unfolding put_member ◌==◌
  replaced t u m = (refl, refl)

  abbrev written : Fields → List (Text × Text)
  written fs = marshal_fields (remove_from_fields fs)

  replaced_member :
      (v w : Json) (fs : Fields)
      → (listed (written (field (codes "certificate-list") v fs))
          ≡ listed (written (field (codes "certificate-list") w fs)))
        × (named (written (field (codes "certificate-list") v fs))
            ≡ named (written (field (codes "certificate-list") w fs)))
  unfolding marshal_fields remove_from_fields ◌==◌
  replaced_member v w fs =
      replaced (marshal (remove_generated v)) (marshal (remove_generated w)) (written fs)

  members_agree :
      (fs gs : Fields)
      → SameMembers fs gs
      → (listed (written fs) ≡ listed (written gs)) × (named (written fs) ≡ named (written gs))
  unfolding marshal_fields remove_from_fields
  members_agree _ _ (same fs) = (refl, refl)
  members_agree _ _ (other {fs} {gs} k v h s) =
      let (e, f) = members_agree fs gs s in
      elim (Bool-cases (is_generated k)) [
        | inl g ↦ rw g (e, f)
        | inr g ↦ rw g (cons_listed k _ _ _ h e, cons_named k _ _ _ h e f)
      ]
  members_agree _ _ (bindings k v w fs e) =
      subst
        (λ (j : Text).
          (listed (written (field j v fs)) ≡ listed (written (field j w fs)))
          × (named (written (field j v fs)) ≡ named (written (field j w fs))))
        (sym e) (replaced_member v w fs)

payloads_agree :
    (b n : Text) (o o' : Option Fields)
    → SamePayload o o'
    → named b n (payload_members o) ≡ named b n (payload_members o')
unfolding payload_members
payloads_agree b n _ _ no_payload = refl
payloads_agree b n _ _ (members {fs} {gs} s) = (members_agree b n fs gs s).1

revision-Permᴰ :
    (p : Platform) (t u : ClientSslTemplate)
    → t.name ≡ u.name
    → SamePayload t.revision_payload u.revision_payload
    → Permᴰ t.certificates u.certificates
    → revision p t ≡ revision p u
revision-Permᴰ p t u n r d =
    revision-revision_of p t
    ∙ ap (λ x. revision_of p x t.revision_payload (sort_texts (map binding_text t.certificates))) n
    ∙ ap (revision_of p u.name t.revision_payload)
        (sort_bindings-Permᴰ t.certificates u.certificates d)
    ∙ ap (λ m. codes "sha256:" ++ p.sha256 (object_text m))
        (payloads_agree (array_text (sort_texts (map binding_text u.certificates))) (quote u.name) _
          _ r)
    ∙ sym (revision-revision_of p u)

-- Two templates of one name, with the same bindings in any order, have the same revision, where
-- their retained payloads have the same members, whatever these hold under `certificate-list`.
pub revision-Perm :
    (p : Platform) (t u : ClientSslTemplate)
    → t.name ≡ u.name
    → SamePayload t.revision_payload u.revision_payload
    → Perm t.certificates u.certificates
    → revision p t ≡ revision p u
revision-Perm p t u n r perm =
    ∥∥₁_elim perm (IsSet-Text (revision p t) (revision p u)) (revision-Permᴰ p t u n r)
