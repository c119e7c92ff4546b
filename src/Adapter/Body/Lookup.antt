-- ===== src/Adapter/Body/Lookup.antt =====
-- What is found in the bodies of crates/studio-router/src/anthropic.rs and
-- crates/studio-router/src/openai.rs behind `body[key] = value`.
use mathlib.Core.Path.{subst}
use cobrust_studio.Base.{
  ◌≡◌, refl, arith, inl, inr, Bool, true, false, Option, none, some, Text, String, codes, eq_text,
  eq_text_iff, eq_text_refl, lt_text, Bool-cases, if◌then◌else◌,
}
use cobrust_studio.Json.{Value, Fields, end, field, find_field}
use cobrust_studio.Adapter.Body.{insert_field, put, put_some, put_if}

flipped : (s t : Text) → eq_text s t ≡ false → eq_text t s ≡ false
flipped s t h = ground (arith, h, eq_text_iff s t, eq_text_iff t s)

renamed : (k j i : Text) → eq_text j i ≡ true → eq_text j k ≡ false → eq_text i k ≡ false
renamed k j i same apart = subst (λ t. eq_text t k ≡ false) ((eq_text_iff j i).0 same) apart

find_field-same : (k : Text) (v : Value) (fs : Fields) → find_field k (insert_field k v fs) ≡ some v
unfolding find_field insert_field
find_field-same k v end = rw (eq_text_refl k) refl
find_field-same k v (field j w rest) = elim (Bool-cases (eq_text k j)) [
  | inl same ↦ rw (same, eq_text_refl k) refl
  | inr other ↦ elim (Bool-cases (lt_text k j)) [
    | inl less ↦ rw (other, less, eq_text_refl k) refl
    | inr more ↦ rw (other, more, flipped k j other) (find_field-same k v rest)
  ]
]

find_field-other :
    (k j : Text) (v : Value) (fs : Fields)
    → eq_text j k ≡ false
    → find_field k (insert_field j v fs) ≡ find_field k fs
unfolding find_field insert_field
find_field-other k j v end apart = rw apart refl
find_field-other k j v (field i w rest) apart = elim (Bool-cases (eq_text j i)) [
  | inl same ↦ rw (same, apart, renamed k j i same apart) refl
  | inr other ↦ elim (Bool-cases (lt_text j i)) [
    | inl less ↦ rw (other, less, apart) refl
    | inr more ↦ rw (other, more, find_field-other k j v rest apart) refl
  ]
]

pub find_field-put :
    (k : String) (v : Value) (fs : Fields) → find_field (codes k) (put k v fs) ≡ some v
unfolding put
find_field-put k v fs = find_field-same (codes k) v fs

-- Another key is not touched.
pub put-other :
    (k j : String) (v : Value) (fs : Fields)
    → eq_text (codes j) (codes k) ≡ false
    → find_field (codes k) (put j v fs) ≡ find_field (codes k) fs
unfolding put
put-other k j v fs apart = find_field-other (codes k) (codes j) v fs apart

pub put_some-other :
    {A : Type 0} (k j : String) (f : A → Value) (o : Option A) (fs : Fields)
    → eq_text (codes j) (codes k) ≡ false
    → find_field (codes k) (put_some j f o fs) ≡ find_field (codes k) fs
unfolding put_some
put_some-other k j f none fs apart = refl
put_some-other k j f (some a) fs apart = put-other k j (f a) fs apart

pub put_if-other :
    (k j : String) (test : Bool) (v : Value) (fs : Fields)
    → eq_text (codes j) (codes k) ≡ false
    → find_field (codes k) (put_if test j v fs) ≡ find_field (codes k) fs
unfolding put_if
put_if-other k j true v fs apart = put-other k j v fs apart
put_if-other k j false v fs apart = refl

pub find_field-put_if :
    (k : String) (test : Bool) (v : Value) (fs : Fields)
    → find_field (codes k) (put_if test k v fs) ≡ (if test then some v else find_field (codes k) fs)
unfolding put_if
find_field-put_if k true v fs = find_field-put k v fs
find_field-put_if k false v fs = refl
