-- ===== src/Agent/Output.antt =====
-- crates/studio-server/src/agent_loop.rs: `truncate_output`, which cuts the output of a command. The
-- cut is a slice by bytes, and a panic where it falls inside a character.
use cobrust_studio.Base.{
  ℕ, ◌+◌, ◌-◌, ◌≤◌, ◌<◌, Option, none, some, [], ◌∷◌, ◌++◌, ◌≡◌, refl, sym, ap, ◌∙◌, arith, Text,
  codes, len, len_utf8, map_cons, slice_to, leb, ltb, ◌==◌, if◌then◌else◌, Bool-cases, inl, inr,
  ◌⊎◌,
}

abbrev pub max_output_bytes : ℕ
max_output_bytes = 65536

with_mark : Option Text → Option Text
with_mark none = none
with_mark (some s) = some (s ++ b'\n' ∷ codes "[truncated]")

-- `truncate_output`; `none` is the panic of the slice
unfoldable pub truncate_output : Text → Option Text
unfolding with_mark
truncate_output s =
    if leb (len s) max_output_bytes then some s else with_mark (slice_to max_output_bytes s)

len_utf8_pos : (c : ℕ) → 0 < len_utf8 c
unfolding len_utf8
len_utf8_pos c = ground arith

len-append : (s t : Text) → len (s ++ t) ≡ len s + len t
unfolding len
len-append [] t = omega arith
len-append (c ∷ s) t = omega (arith, len-append s t)

map_cons-some :
    (c : ℕ) (o : Option Text) {t : Text}
    → map_cons c o ≡ some t
    → (r : Text) × (o ≡ some r) × (t ≡ c ∷ r)
unfolding map_cons
map_cons-some c none h = absurd (cc)
map_cons-some c (some r) {t} h = (r, refl, cc)

with_mark-some :
    (o : Option Text) {t : Text}
    → with_mark o ≡ some t
    → (r : Text) × (o ≡ some r) × (t ≡ r ++ b'\n' ∷ codes "[truncated]")
unfolding with_mark
with_mark-some none h = absurd (cc)
with_mark-some (some r) {t} h = (r, refl, cc)

some_injective : {s t : Text} → some s ≡ some t → s ≡ t
some_injective h = cc

-- A slice that does not panic has the bytes asked for, and is the front of the text.
slice_to-some :
    (n : ℕ) (s : Text) {t : Text}
    → slice_to n s ≡ some t
    → (len t ≡ n) × ((rest : Text) × (s ≡ t ++ rest))
unfolding slice_to len
slice_to-some n [] {t} h = elim (Bool-cases (n == 0)) [
  | inr more ↦ absurd (cc (rw more at h))
  | inl zero_bytes ↦
      let e : [] ≡ t = some_injective (rw zero_bytes at h) in
      (rw (← e) (ground arith), ([], rw (← e)))
]
slice_to-some n (c ∷ s) {t} h = elim (Bool-cases (n == 0)) [
  | inl zero_bytes ↦
      let e : [] ≡ t = some_injective (rw zero_bytes at h) in
      (rw (← e) (ground arith), (c ∷ s, rw (← e)))
  | inr more ↦ elim (Bool-cases (ltb n (len_utf8 c))) [
    | inl inside ↦ absurd (cc (rw (more, inside) at h))
    | inr whole ↦
        let (r, sliced, e) =
          map_cons-some c (slice_to (n - len_utf8 c) s) (rw (more, whole) at h) in
        let (bytes, (rest, front)) = slice_to-some (n - len_utf8 c) s sliced in
        (ap len e ∙ ground arith, (rest, ap (◌∷◌ c) front ∙ ap (λ x. x ++ rest) (sym e)))
  ]
]

-- A slice whose end falls inside a character panics.
slice_to-none :
    (n : ℕ) (s : Text) (c : ℕ) (t : Text)
    → len s < n
    → n < len s + len_utf8 c
    → slice_to n (s ++ c ∷ t) ≡ none
unfolding slice_to len map_cons
slice_to-none n [] c t h k = ground arith
slice_to-none n (d ∷ s) c t h k = ground (arith, slice_to-none (n - len_utf8 d) s c t)

-- Cutting the output panics on every text that has a character across the byte limit: 65536 is
-- behind its first byte and not behind its last.
pub truncate_output_panics :
    (s : Text) (c : ℕ) (t : Text)
    → len s < max_output_bytes
    → max_output_bytes < len s + len_utf8 c
    → truncate_output (s ++ c ∷ t) ≡ none
unfolding truncate_output with_mark len
truncate_output_panics s c t h k =
    ground (arith, slice_to-none max_output_bytes s c t, len-append s (c ∷ t))

-- Otherwise the output is the whole text, or its first 65536 bytes and the mark.
pub truncate_output-some :
    (s t : Text)
    → truncate_output s ≡ some t
    → ((len s ≤ max_output_bytes) × (t ≡ s))
      ⊎ ((front : Text) × (rest : Text) × (s ≡ front ++ rest)
          × (len front ≡ max_output_bytes)
          × (max_output_bytes < len s)
          × (t ≡ front ++ b'\n' ∷ codes "[truncated]"))
unfolding truncate_output
truncate_output-some s t h = elim (Bool-cases (leb (len s) max_output_bytes)) [
  | inl short ↦ inl (ground arith, sym (some_injective (rw short at h)))
  | inr long ↦
      let (front, sliced, e) = with_mark-some (slice_to max_output_bytes s) (rw long at h) in
      let (bytes, (rest, splits)) = slice_to-some max_output_bytes s sliced in
      inr (front, rest, splits, bytes, ground arith, e)
]
