-- ===== src/Router/Order.antt =====
-- The order in which crates/studio-router/src/router.rs tries the preferred models.
use mathlib.Core.List.{Perm}
use mathlib.Core.List.Perm
use cobrust_studio.Base.{
  List, [], ◌∷◌, map, ◌≡◌, inl, inr, refl, ap, Bool, true, false, Bool-cases, All,
}
use cobrust_studio.Config.{Strategy, cost, quality, latency, ProviderModel}
use cobrust_studio.Host.{Host}
use cobrust_studio.Router.Policy.{
  LatencyTracker, insert_by, sort_by, with_latency, slower, order_preferred, model_of,
}

module _ {A : Type 0} (greater_than : A → A → Bool) where
  insert_by-perm : (x : A) (ys : List A) → Perm (insert_by greater_than x ys) (x ∷ ys)
  unfolding insert_by
  insert_by-perm x [] = Perm.refl (x ∷ [])
  insert_by-perm x (y ∷ ys) = elim (Bool-cases (greater_than x y)) [
    | inl more ↦ rw more (Perm.trans (Perm.cons y (insert_by-perm x ys)) (Perm.swap x y ys))
    | inr not_more ↦ rw not_more (Perm.refl (x ∷ y ∷ ys))
  ]

  sort_by-perm : (xs : List A) → Perm (sort_by greater_than xs) xs
  unfolding sort_by
  sort_by-perm [] = Perm.refl []
  sort_by-perm (x ∷ xs) =
      Perm.trans (insert_by-perm x (sort_by greater_than xs)) (Perm.cons x (sort_by-perm xs))

  -- No element stands in front of a smaller one.
  abbrev pub IsSorted : List A → Type 0
  IsSorted [] = Unit
  IsSorted (x ∷ xs) = All (λ y. greater_than x y ≡ false) xs × IsSorted xs

  module _ (asymmetric : (a b : A) → greater_than a b ≡ true → greater_than b a ≡ false)
      (transitive : (a b c : A)
        → greater_than a b ≡ false
        → greater_than b c ≡ false
        → greater_than a c ≡ false) where
    All-below :
        (x y : A) (ys : List A)
        → greater_than x y ≡ false
        → All (λ z. greater_than y z ≡ false) ys
        → All (λ z. greater_than x z ≡ false) ys
    All-below x y [] h k = tt
    All-below x y (z ∷ ys) h k = (transitive x y z h k.0, All-below x y ys h k.1)

    All-insert_by :
        (z x : A) (ys : List A)
        → greater_than z x ≡ false
        → All (λ y. greater_than z y ≡ false) ys
        → All (λ y. greater_than z y ≡ false) (insert_by greater_than x ys)
    unfolding insert_by
    All-insert_by z x [] h k = (h, tt)
    All-insert_by z x (y ∷ ys) h k = elim (Bool-cases (greater_than x y)) [
      | inl more ↦ rw more (k.0, All-insert_by z x ys h k.1)
      | inr not_more ↦ rw not_more (h, k)
    ]

    insert_by-IsSorted :
        (x : A) (ys : List A) → IsSorted ys → IsSorted (insert_by greater_than x ys)
    unfolding insert_by
    insert_by-IsSorted x [] h = (tt, tt)
    insert_by-IsSorted x (y ∷ ys) h = elim (Bool-cases (greater_than x y)) [
      | inl more ↦
          rw more (All-insert_by y x ys (asymmetric x y more) h.0, insert_by-IsSorted x ys h.1)
      | inr not_more ↦ rw not_more ((not_more, All-below x y ys not_more h.0), h)
    ]

    sort_by-IsSorted : (xs : List A) → IsSorted (sort_by greater_than xs)
    unfolding sort_by
    sort_by-IsSorted [] = tt
    sort_by-IsSorted (x ∷ xs) = insert_by-IsSorted x (sort_by greater_than xs) (sort_by-IsSorted xs)

-- Sorting the rows of a table is sorting its keys by their rows.
module _ {A B : Type 0} (greater_than : B → B → Bool) (f : A → B) where
  insert_by-map :
      (x : A) (ys : List A)
      → insert_by greater_than (f x) (map f ys)
        ≡ map f (insert_by (λ a b. greater_than (f a) (f b)) x ys)
  unfolding insert_by
  insert_by-map x [] = refl
  insert_by-map x (y ∷ ys) = elim (Bool-cases (greater_than (f x) (f y))) [
    | inl more ↦ rw more (ap (◌∷◌ (f y)) (insert_by-map x ys))
    | inr not_more ↦ rw not_more
  ]

  sort_by-map :
      (xs : List A)
      → sort_by greater_than (map f xs) ≡ map f (sort_by (λ a b. greater_than (f a) (f b)) xs)
  unfolding sort_by
  sort_by-map [] = refl
  sort_by-map (x ∷ xs) = rw (sort_by-map xs) (insert_by-map x (sort_by _ xs))

module _ (host : Host) where
  -- the model `p` is known to be slower than `q`
  abbrev pub slower_model : LatencyTracker host → ProviderModel → ProviderModel → Bool
  slower_model table p q = slower host (with_latency host table p) (with_latency host table q)

  map_back :
      (table : LatencyTracker host) (pms : List ProviderModel)
      → map (model_of host) (map (with_latency host table) pms) ≡ pms
  unfolding model_of with_latency
  map_back table [] = refl
  map_back table (pm ∷ pms) = ap (◌∷◌ pm) (map_back table pms)

  order-sort_by :
      (preferred : List ProviderModel) (table : LatencyTracker host)
      → order_preferred host latency preferred table ≡ sort_by (slower_model table) preferred
  unfolding order_preferred
  order-sort_by preferred table = rw sort_by-map (map_back table _)

  -- Every strategy tries each preferred model, as often as it is listed.
  pub order_preferred-perm :
      (strategy : Strategy) (preferred : List ProviderModel) (table : LatencyTracker host)
      → Perm (order_preferred host strategy preferred table) preferred
  unfolding order_preferred
  order_preferred-perm cost preferred table = Perm.refl preferred
  order_preferred-perm quality preferred table = Perm.refl preferred
  order_preferred-perm latency preferred table =
      rw (order-sort_by preferred table) (sort_by-perm (slower_model table) preferred)

  -- Under `latency` no model is tried before one whose average is smaller, if the comparison of the
  -- averages is a total preorder, as it is without a NaN.
  pub order_preferred-IsSorted :
      (preferred : List ProviderModel) (table : LatencyTracker host)
      → ((a b : host.F) → host.greater a b ≡ true → host.greater b a ≡ false)
      → ((a b c : host.F)
          → host.greater a b ≡ false
          → host.greater b c ≡ false
          → host.greater a c ≡ false)
      → IsSorted (slower_model table) (order_preferred host latency preferred table)
  unfolding slower
  order_preferred-IsSorted preferred table asymmetric transitive =
      rw (order-sort_by preferred table) (
        sort_by-IsSorted (slower_model table) (λ a b. asymmetric _ _) (λ a b c. transitive _ _ _)
          preferred)

  -- Every strategy tries each preferred model, as often as it is listed; and under `latency` no model is
  -- tried before one whose average is smaller, if the comparison of the averages is a total preorder.
  pub order_preferred-IsSorting :
      (strategy : Strategy) (preferred : List ProviderModel) (table : LatencyTracker host)
      → ((a b : host.F) → host.greater a b ≡ true → host.greater b a ≡ false)
      → ((a b c : host.F)
          → host.greater a b ≡ false
          → host.greater b c ≡ false
          → host.greater a c ≡ false)
      → Perm (order_preferred host strategy preferred table) preferred
        × IsSorted (slower_model table) (order_preferred host latency preferred table)
  order_preferred-IsSorting strategy preferred table asymmetric transitive = (
    order_preferred-perm strategy preferred table,
    order_preferred-IsSorted preferred table asymmetric transitive,
  )
