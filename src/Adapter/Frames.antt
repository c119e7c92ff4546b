-- ===== src/Adapter/Frames.antt =====
-- How the loop over the frames of an event stream, in crates/studio-router/src/anthropic.rs and
-- crates/studio-router/src/openai.rs, depends on the pieces in which the stream comes.
use mathlib.Core.List.{append-nil, append_assoc}
use cobrust_studio.Base.{
  ℕ, zero, suc, ◌≤◌, ◌==◌, ◌≡◌, refl, sym, ap, ◌∙◌, arith, inl, inr, ◌&&◌, List, [], ◌∷◌, ◌++◌, map,
  Option, none, some, Text, Result, ok, err, length, Option-cases, Bool-cases,
}
use cobrust_studio.Adapter.{
  Bytes, Client, Drained, Flow, go, halt, fail, and_then, in_front, take_frame, on_frame, drain,
  drain_frames, drain_items,
}

in_front-some :
    (c : ℕ) (o : Option (Text × Text)) {frame rest : Text}
    → in_front c o ≡ some (frame, rest)
    → (frame' : Text) × (frame ≡ c ∷ frame') × (o ≡ some (frame', rest))
unfolding in_front
in_front-some c none h = absurd (cc h)
in_front-some c (some (f, r)) h = (f, cc, cc)

-- A frame that was found is shorter than the buffer.
take_frame-length :
    (s : Text) {frame rest : Text}
    → take_frame s ≡ some (frame, rest)
    → suc (length rest) ≤ length s
unfolding take_frame
take_frame-length [] h = absurd (cc h)
take_frame-length (c ∷ []) h = absurd (cc h)
take_frame-length (c ∷ d ∷ s) {frame} {rest} h = elim (Bool-cases (c == 10 && d == 10)) [
  | inl e ↦ let same : rest ≡ s = cc (rw e at h) in rw same (omega arith)
  | inr e ↦
      let (frame', _, found) = in_front-some c (take_frame (d ∷ s)) (rw e at h) in
      omega (arith, take_frame-length (d ∷ s) found)
]

-- and it is found whatever comes behind the buffer.
take_frame-append :
    (s t : Text) {frame rest : Text}
    → take_frame s ≡ some (frame, rest)
    → take_frame (s ++ t) ≡ some (frame, rest ++ t)
unfolding take_frame in_front
take_frame-append [] t h = absurd (cc h)
take_frame-append (c ∷ []) t h = absurd (cc h)
take_frame-append (c ∷ d ∷ s) t {frame} {rest} h = elim (Bool-cases (c == 10 && d == 10)) [
  | inl e ↦ rw e (
      let same : rest ≡ s = cc (rw e at h) in
      let empty : frame ≡ [] = cc (rw e at h) in rw (same, empty) refl)
  | inr e ↦
      let (frame', front, found) = in_front-some c (take_frame (d ∷ s)) (rw e at h) in
      rw (e, take_frame-append (d ∷ s) t found, front) refl
]

-- the text of pieces that are decoded one by one
abbrev pub text_of : Client → List Bytes → Text
text_of client [] = []
text_of client (b ∷ bs) = client.from_utf8_lossy b ++ text_of client bs

module _ (handle : Text → Drained → Flow Drained) where
  and_then-go : {A : Type 0} (m : Flow A) → and_then m go ≡ m
  unfolding and_then
  and_then-go (go a) = refl
  and_then-go (halt d) = refl
  and_then-go (fail e) = refl

  and_then_assoc :
      {A B C : Type 0} (m : Flow A) (f : A → Flow B) (g : B → Flow C)
      → and_then (and_then m f) g ≡ and_then m (λ a. and_then (f a) g)
  unfolding and_then
  and_then_assoc (go a) f g = refl
  and_then_assoc (halt d) f g = refl
  and_then_assoc (fail e) f g = refl

  and_then-on :
      {A B : Type 0} (m : Flow A) (f g : A → Flow B)
      → ((a : A) → f a ≡ g a)
      → and_then m f ≡ and_then m g
  unfolding and_then
  and_then-on (go a) f g h = h a
  and_then-on (halt d) f g h = refl
  and_then-on (fail e) f g h = refl

  -- More fuel than the length of the buffer changes nothing.
  drain-fuel :
      (n m : ℕ) (buf : Text) (s : Drained)
      → length buf ≤ n
      → length buf ≤ m
      → drain handle n buf s ≡ drain handle m buf s
  unfolding drain on_frame take_frame
  drain-fuel zero zero buf s h k = refl
  drain-fuel zero (suc m) [] s h k = refl
  drain-fuel zero (suc m) (c ∷ buf) s h k = absurd (omega arith)
  drain-fuel (suc n) zero [] s h k = refl
  drain-fuel (suc n) zero (c ∷ buf) s h k = absurd (omega arith)
  drain-fuel (suc n) (suc m) buf s h k = elim (Option-cases (take_frame buf)) [
    | inl e ↦ rw e refl
    | inr ((frame, rest), e) ↦ rw e (
        and_then-on (handle frame s) (drain handle n rest) (drain handle m rest) λ s'.
          drain-fuel n m rest s' (omega (arith, take_frame-length buf e))
            (omega (arith, take_frame-length buf e)))
  ]

  drain_frames-none :
      (buf : Text) (s : Drained) → take_frame buf ≡ none → drain_frames handle buf s ≡ go (s, buf)
  unfolding drain_frames drain on_frame
  drain_frames-none [] s h = refl
  drain_frames-none (c ∷ buf) s h = rw h refl

  drain_frames-some :
      (buf : Text) (s : Drained) {frame rest : Text}
      → take_frame buf ≡ some (frame, rest)
      → drain_frames handle buf s ≡ and_then (handle frame s) (drain_frames handle rest)
  unfolding drain_frames drain on_frame take_frame
  drain_frames-some [] s h = absurd (cc h)
  drain_frames-some (c ∷ buf) s {frame} {rest} h = rw h (
      and_then-on (handle frame s) _ _ λ s'.
        drain-fuel (length buf) (length rest) rest s' (omega (arith, take_frame-length (c ∷ buf) h))
          (omega arith))

  -- What is behind the buffer is read when the frames of the buffer are.
  drain_frames-fuel_append :
      (n : ℕ) (buf t : Text) (s : Drained)
      → length buf ≤ n
      → drain_frames handle (buf ++ t) s
        ≡ and_then (drain_frames handle buf s) (λ left. drain_frames handle (left.1 ++ t) left.0)
  unfolding and_then
  drain_frames-fuel_append zero buf t s h = elim (Option-cases (take_frame buf)) [
    | inl e ↦ rw (drain_frames-none buf s e) refl
    | inr ((frame, rest), e) ↦ absurd (omega (arith, h, take_frame-length buf e))
  ]
  drain_frames-fuel_append (suc n) buf t s h = elim (Option-cases (take_frame buf)) [
    | inl e ↦ rw (drain_frames-none buf s e) refl
    | inr ((frame, rest), e) ↦
        rw (drain_frames-some buf s e, drain_frames-some (buf ++ t) s (take_frame-append buf t e))
          (and_then-on (handle frame s) _ _ (λ s'.
              drain_frames-fuel_append n rest t s' (omega (arith, h, take_frame-length buf e)))
            ∙ sym (and_then_assoc (handle frame s) (drain_frames handle rest) _))
  ]

  pub drain_frames-append :
      (buf t : Text) (s : Drained)
      → drain_frames handle (buf ++ t) s
        ≡ and_then (drain_frames handle buf s) (λ left. drain_frames handle (left.1 ++ t) left.0)
  drain_frames-append buf t s = drain_frames-fuel_append (length buf) buf t s (omega arith)

  drain_items-behind :
      (client : Client) (bs : List Bytes) (buf : Text) (s : Drained)
      → and_then
          (drain_frames handle buf s)
          (λ left. drain_items handle client (map ok bs) left.1 left.0)
        ≡ drain_frames handle (buf ++ text_of client bs) s
  unfolding drain_items
  drain_items-behind client [] buf s =
      and_then-go (drain_frames handle buf s)
      ∙ ap (λ x. drain_frames handle x s) (sym (append-nil buf))
  drain_items-behind client (b ∷ bs) buf s =
      let piece = client.from_utf8_lossy b in
      sym (
        and_then_assoc (drain_frames handle buf s)
          (λ left. drain_frames handle (left.1 ++ piece) left.0)
          λ left. drain_items handle client (map ok bs) left.1 left.0)
      ∙ ap (λ m. and_then m λ left. drain_items handle client (map ok bs) left.1 left.0)
          (sym (drain_frames-append buf piece s))
      ∙ drain_items-behind client bs (buf ++ piece) s
      ∙ ap (λ x. drain_frames handle x s) (append_assoc buf piece (text_of client bs))

  -- The frames are those of the decoded pieces, one behind the other.
  pub drain_items-frames :
      (client : Client) (bs : List Bytes) (s : Drained)
      → drain_items handle client (map ok bs) [] s ≡ drain_frames handle (text_of client bs) s
  unfolding and_then drain_frames
  drain_items-frames client bs s = drain_items-behind client bs [] s

-- The pieces of a stream, one behind the other.
abbrev pub joined : List Bytes → Bytes
joined [] = []
joined (b ∷ bs) = b ++ joined bs

-- Pieces at whose ends no character is cut.
abbrev pub IsWhole : Client → List Bytes → Type 0
IsWhole client bs = client.from_utf8_lossy (joined bs) ≡ text_of client bs

-- What the steps of a loop lead to has a property, unless they fail.
abbrev pub Leads : {A : Type 0} → (A → Type 0) → (Drained → Type 0) → Flow A → Type 0
Leads P Q (go a) = P a
Leads P Q (halt s) = Q s
Leads P Q (fail e) = Unit

pub and_then-Leads :
    {A B : Type 0} (P : A → Type 0) (R : B → Type 0) (Q : Drained → Type 0) (m : Flow A)
    (f : A → Flow B)
    → Leads P Q m
    → ((a : A) → P a → Leads R Q (f a))
    → Leads R Q (and_then m f)
unfolding and_then
and_then-Leads P R Q (go a) f h k = k a h
and_then-Leads P R Q (halt s) f h k = h
and_then-Leads P R Q (fail e) f h k = tt

module _ (handle : Text → Drained → Flow Drained) where
  pub drain_items-whole :
      (client : Client) (bs : List Bytes) (s : Drained)
      → IsWhole client bs
      → drain_items handle client (map ok bs) [] s
        ≡ drain_items handle client (map ok (joined bs ∷ [])) [] s
  drain_items-whole client bs s whole =
      drain_items-frames handle client bs s
      ∙ ap (λ t. drain_frames handle t s)
          (sym whole ∙ sym (append-nil (client.from_utf8_lossy (joined bs))))
      ∙ sym (drain_items-frames handle client (joined bs ∷ []) s)

  module _ (Q : Drained → Type 0)
      (keeps : (t : Text) (s : Drained) → Q s → Leads Q Q (handle t s)) where
    -- A property that the reading of a frame keeps holds behind the loops.
    drain-Leads :
        (n : ℕ) (buf : Text) (s : Drained) → Q s → Leads (λ left. Q left.0) Q (drain handle n buf s)
    unfolding drain on_frame
    drain-Leads zero buf s h = h
    drain-Leads (suc n) buf s h = elim (Option-cases (take_frame buf)) [
      | inl e ↦ rw e h
      | inr ((frame, rest), e) ↦ rw e (
          and_then-Leads Q (λ left. Q left.0) Q (handle frame s) (drain handle n rest)
            (keeps frame s h) λ s' h'. drain-Leads n rest s' h')
    ]

    pub drain_items-Leads :
        (client : Client) (items : List (Result Text Bytes)) (buf : Text) (s : Drained)
        → Q s
        → Leads (λ left. Q left.0) Q (drain_items handle client items buf s)
    unfolding drain_items drain_frames
    drain_items-Leads client [] buf s h = h
    drain_items-Leads client (err why ∷ items) buf s h = tt
    drain_items-Leads client (ok bytes ∷ items) buf s h =
        let text = buf ++ client.from_utf8_lossy bytes in
        and_then-Leads (λ left. Q left.0) (λ left. Q left.0) Q (drain handle (length text) text s)
          (λ left. drain_items handle client items left.1 left.0)
          (drain-Leads (length text) text s h)
          λ left k. drain_items-Leads client items left.1 left.0 k
