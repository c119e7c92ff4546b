-- ===== src/Steps.antt =====
-- Rust's `?` in code that changes state: a step returns a result and the state behind it, and what was
-- changed before an error stays changed.
use mathlib.Core.Path.{◌≡◌, refl, sym, subst}
use cobrust_studio.Base.{Result, ok, err}

abbrev pub Steps : Type 0 → Type 0 → Type 0 → Type 0
Steps S E A = S → Result E A × S

module _ {S E : Type 0} where
  abbrev pub next_step : {A B : Type 0} → Result E A → (A → Steps S E B) → Steps S E B
  next_step (ok a) f s = f a s
  next_step (err e) f s = (err e, s)

  infixl 5 ◌>>=◌ ◌>>◌
  unfoldable pub ◌>>=◌ : {A B : Type 0} → Steps S E A → (A → Steps S E B) → Steps S E B
  ◌>>=◌ m f s = let (r, s') = m s in next_step r f s'

  abbrev pub ◌>>◌ : {A B : Type 0} → Steps S E A → Steps S E B → Steps S E B
  m >> k = m >>= λ _. k

  -- a result that changes nothing
  abbrev pub lift : {A : Type 0} → Result E A → Steps S E A
  lift r s = (r, s)

  -- A property of the state behind two steps: of the state behind the first if it fails, and else of the
  -- state behind the second.
  behind-next_step :
      {A B : Type 0} (P : S → Type 0) (r : Result E A) (f : A → Steps S E B) (s : S)
      → ((e : E) → r ≡ err e → P s)
      → ((a : A) → r ≡ ok a → P (f a s).1)
      → P (next_step r f s).1
  behind-next_step P (ok a) f s h k = k a refl
  behind-next_step P (err e) f s h k = h e refl

  pub behind :
      {A B : Type 0} (P : S → Type 0) (m : Steps S E A) (f : A → Steps S E B) (s : S)
      → ((e : E) → (m s).0 ≡ err e → P (m s).1)
      → ((a : A) → (m s).0 ≡ ok a → P (f a (m s).1).1)
      → P ((m >>= f) s).1
  unfolding ◌>>=◌
  behind P m f s h k = behind-next_step P (m s).0 f (m s).1 h k

  next_step-ok :
      {A B : Type 0} (r : Result E A) (f : A → Steps S E B) (s : S) {b : B}
      → (next_step r f s).0 ≡ ok b
      → (a : A) × (r ≡ ok a) × ((f a s).0 ≡ ok b) × ((next_step r f s).1 ≡ (f a s).1)
  next_step-ok (ok a) f s h = (a, refl, h, refl)
  next_step-ok (err e) f s h = absurd (cc h)

  -- Steps that succeed have succeeded one by one.
  pub >>=-ok :
      {A B : Type 0} (m : Steps S E A) (f : A → Steps S E B) (s : S) {b : B}
      → ((m >>= f) s).0 ≡ ok b
      → (a : A) × ((m s).0 ≡ ok a) × ((f a (m s).1).0 ≡ ok b) × (((m >>= f) s).1 ≡ (f a (m s).1).1)
  unfolding ◌>>=◌
  >>=-ok m f s h = next_step-ok (m s).0 f (m s).1 h

  next_step-on :
      {A B : Type 0} (r : Result E A) (f : A → Steps S E B) (s : S) {a : A}
      → r ≡ ok a
      → next_step r f s ≡ f a s
  next_step-on r f s h = rw h

  -- Where a step succeeds, the next one follows.
  pub >>=-on :
      {A B : Type 0} (m : Steps S E A) (f : A → Steps S E B) (s : S) {a : A}
      → (m s).0 ≡ ok a
      → (m >>= f) s ≡ f a (m s).1
  unfolding ◌>>=◌
  >>=-on m f s h = next_step-on (m s).0 f (m s).1 h

  -- A property of the state behind steps that succeed.
  pub behind-ok :
      {A B : Type 0} (P : S → Type 0) (m : Steps S E A) (f : A → Steps S E B) (s : S) {b : B}
      → ((m >>= f) s).0 ≡ ok b
      → ((a : A) → (m s).0 ≡ ok a → (f a (m s).1).0 ≡ ok b → P (f a (m s).1).1)
      → P ((m >>= f) s).1
  behind-ok P m f s h k =
      let (a, first, rest, same) = >>=-ok m f s h in subst P (sym same) (k a first rest)
