-- ===== src/Dispatch/Chunks.antt =====
-- The pieces of an answer, of `split_into_chunks` in crates/studio-server/src/routes/dispatch.rs.
use cobrust_studio.Base.{
  ℕ, zero, suc, ◌-◌, ◌≤◌, ◌≡◌, refl, sym, ap, ◌∙◌, arith, true, ◌||◌, List, [], ◌∷◌, ◌++◌, Text,
  is_empty, is_whitespace, leb, length, take, drop, replicate, Bool-cases, inl, inr, length-append,
}
use mathlib.Core.List.{append-nil, append_assoc}
use cobrust_studio.Dispatch.{put_first, split_inclusive, strides, pad, stride_of, split_into_chunks}

-- the pieces, one behind the other
unfoldable pub concat : List Text → Text
concat [] = []
concat (s ∷ ss) = s ++ concat ss

concat-put_first : (c : ℕ) (ss : List Text) → concat (put_first c ss) ≡ c ∷ concat ss
unfolding concat put_first
concat-put_first c [] = refl
concat-put_first c (s ∷ ss) = refl

concat-split_inclusive : (s : Text) → concat (split_inclusive s) ≡ s
unfolding concat split_inclusive
concat-split_inclusive [] = refl
concat-split_inclusive (c ∷ s) = elim (Bool-cases (is_whitespace c)) [
  | inl e ↦ rw e (ap (λ t. c ∷ t) (concat-split_inclusive s))
  | inr e ↦
      rw e (concat-put_first c (split_inclusive s) ∙ ap (λ t. c ∷ t) (concat-split_inclusive s))
]

take-drop : (n : ℕ) (s : Text) → take n s ++ drop n s ≡ s
take-drop zero s = refl
take-drop (suc n) [] = refl
take-drop (suc n) (c ∷ s) = ap (λ t. c ∷ t) (take-drop n s)

length-drop : (n : ℕ) (s : Text) → length (drop n s) ≤ length s
length-drop zero s = omega arith
length-drop (suc n) [] = omega arith
length-drop (suc n) (c ∷ s) = omega (arith, length-drop n s)

concat-strides : (fuel n : ℕ) (s : Text) → length s ≤ fuel → concat (strides fuel (suc n) s) ≡ s
unfolding concat strides
concat-strides zero n [] h = refl
concat-strides zero n (c ∷ s) h = absurd (omega (arith, h))
concat-strides (suc fuel) n [] h = refl
concat-strides (suc fuel) n (c ∷ s) h =
    ap (λ t. (c ∷ take n s) ++ t)
      (concat-strides fuel n (drop n s) (omega (arith, h, length-drop n s)))
    ∙ ap (λ t. c ∷ t) (take-drop n s)

concat-append : (ss ts : List Text) → concat (ss ++ ts) ≡ concat ss ++ concat ts
unfolding concat
concat-append [] ts = refl
concat-append (s ∷ ss) ts =
    ap (λ t. s ++ t) (concat-append ss ts) ∙ sym (append_assoc s (concat ss) (concat ts))

concat-replicate : (n : ℕ) → concat (replicate n []) ≡ []
unfolding concat
concat-replicate zero = refl
concat-replicate (suc n) = concat-replicate n

concat-pad : (ss : List Text) → concat (pad ss) ≡ concat ss
unfolding pad
concat-pad ss =
    concat-append ss (replicate (3 - length ss) [])
    ∙ (ap (λ t. concat ss ++ t) (concat-replicate (3 - length ss)) ∙ append-nil (concat ss))

length-replicate : (n : ℕ) (s : Text) → length (replicate n s) ≡ n
length-replicate zero s = refl
length-replicate (suc n) s = ap suc (length-replicate n s)

length-pad : (ss : List Text) → 3 ≤ length (pad ss)
unfolding pad
length-pad ss =
    omega
      (arith, length-append ss (replicate (3 - length ss) []), length-replicate (3 - length ss) [])

positive : (n : ℕ) → 1 ≤ n → suc (n - 1) ≡ n
positive n h = omega (arith, h)

stride_of-positive : (n : ℕ) → 1 ≤ stride_of n
unfolding stride_of
stride_of-positive n = ground arith

padded-chunks : (s : Text) → concat (pad (strides (length s) (stride_of (length s)) s)) ≡ s
padded-chunks s =
    let stride = stride_of (length s) in
    concat-pad (strides (length s) stride s)
    ∙ (ap (λ n. concat (strides (length s) n s))
          (sym (positive stride (stride_of-positive (length s))))
        ∙ concat-strides (length s) (stride - 1) s (omega arith))

concat-nothing : concat ([] ∷ []) ≡ []
unfolding concat
concat-nothing = refl

leb_of : (n : ℕ) → 3 ≤ n → leb 3 n ≡ true
leb_of n h = ground (arith, h)

-- The pieces of a text, one behind the other, are the text, and there are three of them at least
-- unless the text is empty.
pub concat-split_into_chunks :
    (s : Text)
    → (concat (split_into_chunks s) ≡ s)
      × ((is_empty s || leb 3 (length (split_into_chunks s))) ≡ true)
unfolding split_into_chunks
concat-split_into_chunks [] = (concat-nothing, refl)
concat-split_into_chunks (c ∷ s) = elim (Bool-cases (leb 3 (length (split_inclusive (c ∷ s))))) [
  | inl e ↦ rw e (concat-split_inclusive (c ∷ s), e)
  | inr e ↦
      let pieces = strides (length (c ∷ s)) (stride_of (length (c ∷ s))) (c ∷ s) in
      rw e (padded-chunks (c ∷ s), leb_of (length (pad pieces)) (length-pad pieces))
]
