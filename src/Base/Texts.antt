-- ===== src/Base/Texts.antt =====
-- A Rust `str` as the list of its code points, with the methods of `str` that the program calls.
use Prim.Native.Nat.{ℕ, ◌+◌, ◌-◌}
use Prim.Native.Char.{code}
use Prim.Native.String.{String}
use mathlib.Core.Path.{◌≡◌, refl, ap}
use mathlib.Core.Logic.{◌↔◌, inl, inr}
use mathlib.Core.Bool.{Bool, true, false, ◌&&◌, ◌||◌}
use mathlib.Core.List.{List, [], ◌∷◌, ◌++◌}
use mathlib.Core.Option.{Option, none, some}
use native.Mathlib.Omega.{arith}
use cobrust_studio.Base.Lists.{All}
use cobrust_studio.Base.Tests.{ltb, ◌==◌, within, if◌then◌else◌, Bool-cases}

abbrev pub Text : Type 0
Text = List ℕ

-- The code points of a literal.
unfoldable pub codes : String → Text
codes String.[] = []
codes (String.◌∷◌ c s) = code c ∷ codes s

unfoldable pub eq_text : Text → Text → Bool
eq_text [] [] = true
eq_text [] (d ∷ t) = false
eq_text (c ∷ s) [] = false
eq_text (c ∷ s) (d ∷ t) = c == d && eq_text s t

pub eq_text_iff : (s t : Text) → (eq_text s t ≡ true) ↔ (s ≡ t)
unfolding eq_text
eq_text_iff [] [] = ground arith
eq_text_iff [] (d ∷ t) = ground arith
eq_text_iff (c ∷ s) [] = ground arith
eq_text_iff (c ∷ s) (d ∷ t) = ground (arith, eq_text_iff s t)

pub eq_text_refl : (s : Text) → eq_text s s ≡ true
eq_text_refl s = (eq_text_iff s s).1 refl

-- `char::is_whitespace`: the code points with the property White_Space
unfoldable pub is_whitespace : ℕ → Bool
is_whitespace c =
    within 9 13 c
    || c == 32
    || c == 0x85
    || c == 0xa0
    || c == 0x1680
    || within 0x2000 0x200a c
    || c == 0x2028
    || c == 0x2029
    || c == 0x202f
    || c == 0x205f
    || c == 0x3000

-- `char::is_control`: the general category Cc
unfoldable pub is_control : ℕ → Bool
is_control c = ltb c 32 || within 127 159 c

-- `char::len_utf8`, and `str::len` as their sum
unfoldable pub len_utf8 : ℕ → ℕ
len_utf8 c = if ltb c 0x80 then 1 else if ltb c 0x800 then 2 else if ltb c 0x10000 then 3 else 4

unfoldable pub len : Text → ℕ
unfolding len_utf8
len [] = 0
len (c ∷ s) = len_utf8 c + len s

unfoldable pub trim_start : Text → Text
unfolding is_whitespace
trim_start [] = []
trim_start (c ∷ s) = if is_whitespace c then trim_start s else c ∷ s

-- a character in front of a text that is trimmed at its end
keep_end : ℕ → Text → Text
unfolding is_whitespace
keep_end c [] = if is_whitespace c then [] else c ∷ []
keep_end c (d ∷ s) = c ∷ d ∷ s

unfoldable pub trim_end : Text → Text
unfolding keep_end
trim_end [] = []
trim_end (c ∷ s) = keep_end c (trim_end s)

unfoldable pub trim : Text → Text
unfolding trim_start trim_end
trim s = trim_end (trim_start s)

-- `str::strip_prefix` and `str::starts_with` with a text
unfoldable pub strip_prefix : Text → Text → Option Text
strip_prefix [] s = some s
strip_prefix (p ∷ ps) [] = none
strip_prefix (p ∷ ps) (c ∷ s) = if p == c then strip_prefix ps s else none

unfoldable pub contains_char : ℕ → Text → Bool
contains_char c [] = false
contains_char c (d ∷ s) = c == d || contains_char c s

-- `str::split_once(c)`, or `splitn(2, c)`: the text before the first `c`, and the text after it
unfoldable pub split_first : ℕ → Text → Text × Option Text
split_first c [] = ([], none)
split_first c (d ∷ s) =
    let (before, after) = split_first c s in if c == d then ([], some s) else (d ∷ before, after)

-- What `trim` returns is not changed by another `trim`.
abbrev pub IsTrimmed : Text → Type 0
IsTrimmed s = trim s ≡ s

trim_end-keep_end : (c : ℕ) (s : Text) → trim_end s ≡ s → trim_end (keep_end c s) ≡ keep_end c s
unfolding trim_end
trim_end-keep_end c [] h = ground arith
trim_end-keep_end c (d ∷ s) h = ap (keep_end c) h

trim_end-trim_end : (s : Text) → trim_end (trim_end s) ≡ trim_end s
unfolding trim_end
trim_end-trim_end [] = refl
trim_end-trim_end (c ∷ s) = trim_end-keep_end c (trim_end s) (trim_end-trim_end s)

trim_start-keep_end :
    (c : ℕ) (s : Text) → is_whitespace c ≡ false → trim_start (keep_end c s) ≡ keep_end c s
unfolding trim_start keep_end
trim_start-keep_end c [] h = rw (h, h)
trim_start-keep_end c (d ∷ s) h = rw h

trim_start-trim : (s : Text) → trim_start (trim_end (trim_start s)) ≡ trim_end (trim_start s)
unfolding trim_start trim_end
trim_start-trim [] = refl
trim_start-trim (c ∷ s) = elim (Bool-cases (is_whitespace c)) [
  | inl blank ↦ rw blank (trim_start-trim s)
  | inr solid ↦ rw solid (trim_start-keep_end c (trim_end s) solid)
]

pub trim-IsTrimmed : (s : Text) → IsTrimmed (trim s)
unfolding trim
trim-IsTrimmed s = rw (trim_start-trim s) (trim_end-trim_end (trim_start s))

pub contains_char-append :
    (k : ℕ) (s t : Text) → contains_char k (s ++ t) ≡ (contains_char k s || contains_char k t)
unfolding contains_char
contains_char-append k [] t = refl
contains_char-append k (c ∷ s) t = ground (arith, contains_char-append k s t)

-- A text with no `c` in front of one is what `split_first` finds there.
pub split_first-append :
    (c : ℕ) (s t : Text) → contains_char c s ≡ false → split_first c (s ++ c ∷ t) ≡ (s, some t)
unfolding split_first contains_char
split_first-append c [] t h = ground arith
split_first-append c (d ∷ s) t h = ground (arith, split_first-append c s t)

pub split_first-contains_char : (c : ℕ) (s : Text) → contains_char c (split_first c s).0 ≡ false
unfolding split_first contains_char
split_first-contains_char c [] = refl
split_first-contains_char c (d ∷ s) = ground (arith, split_first-contains_char c s)

-- Trimming brings in no character.
contains_char-keep_end :
    (k c : ℕ) (s : Text) → contains_char k (c ∷ s) ≡ false → contains_char k (keep_end c s) ≡ false
unfolding contains_char keep_end
contains_char-keep_end k c [] h = ground arith
contains_char-keep_end k c (d ∷ s) h = h

contains_char-trim_end :
    (k : ℕ) (s : Text) → contains_char k s ≡ false → contains_char k (trim_end s) ≡ false
unfolding contains_char trim_end
contains_char-trim_end k [] h = refl
contains_char-trim_end k (c ∷ s) h =
    contains_char-keep_end k c (trim_end s) (ground (arith, contains_char-trim_end k s))

contains_char-trim_start :
    (k : ℕ) (s : Text) → contains_char k s ≡ false → contains_char k (trim_start s) ≡ false
unfolding contains_char trim_start
contains_char-trim_start k [] h = refl
contains_char-trim_start k (c ∷ s) h = elim (Bool-cases (is_whitespace c)) [
  | inl blank ↦ rw blank (contains_char-trim_start k s (ground arith))
  | inr solid ↦ rw solid h
]

pub contains_char-trim :
    (k : ℕ) (s : Text) → contains_char k s ≡ false → contains_char k (trim s) ≡ false
unfolding trim
contains_char-trim k s h = contains_char-trim_end k _ (contains_char-trim_start k s h)

-- `slice::contains` and `BTreeSet::contains` on texts
unfoldable pub contains_text : Text → List Text → Bool
contains_text s [] = false
contains_text s (t ∷ ts) = eq_text t s || contains_text s ts

-- the order of `String`: that of the code points
unfoldable pub lt_text : Text → Text → Bool
lt_text s [] = false
lt_text [] (d ∷ t) = true
lt_text (c ∷ s) (d ∷ t) = ltb c d || (c == d && lt_text s t)

-- `BTreeSet::insert`
unfoldable pub set_insert : Text → List Text → List Text
set_insert s [] = s ∷ []
set_insert s (t ∷ ts) =
    if eq_text t s then t ∷ ts else if lt_text s t then s ∷ t ∷ ts else t ∷ set_insert s ts

-- A set with another text in it has what its texts and that one have.
pub All-set_insert {ℓ} :
    (P : Text → Type ℓ) (s : Text) (ts : List Text) → P s → All P ts → All P (set_insert s ts)
unfolding set_insert
All-set_insert P s [] h k = (h, tt)
All-set_insert P s (t ∷ ts) h k = elim (Bool-cases (eq_text t s)) [
  | inl same ↦ rw same k
  | inr apart ↦ elim (Bool-cases (lt_text s t)) [
    | inl less ↦ rw (apart, less) (h, k)
    | inr more ↦ rw (apart, more) (k.0, All-set_insert P s ts h k.1)
  ]
]

pub contains_text-set_insert :
    (t s : Text) (ts : List Text)
    → contains_text t (set_insert s ts) ≡ (eq_text s t || contains_text t ts)
unfolding contains_text set_insert
contains_text-set_insert t s [] = refl
contains_text-set_insert t s (u ∷ ts) =
    ground
      (arith, eq_text_iff u s, eq_text_iff s t, eq_text_iff u t, contains_text-set_insert t s ts)

pub contains_text-append :
    (t : Text) (ts us : List Text)
    → contains_text t (ts ++ us) ≡ (contains_text t ts || contains_text t us)
unfolding contains_text
contains_text-append t [] us = refl
contains_text-append t (u ∷ ts) us = ground (arith, contains_text-append t ts us)

unfoldable pub map_cons : ℕ → Option Text → Option Text
map_cons c none = none
map_cons c (some s) = some (c ∷ s)

-- `&s[..n]`, by bytes; `none` is the panic at an index that is no character boundary
unfoldable pub slice_to : ℕ → Text → Option Text
unfolding map_cons len_utf8
slice_to n [] = if n == 0 then some [] else none
slice_to n (c ∷ s) =
    let rest = slice_to (n - len_utf8 c) s in
    if n == 0 then some [] else if ltb n (len_utf8 c) then none else map_cons c rest
