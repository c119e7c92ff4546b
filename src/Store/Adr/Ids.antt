-- ===== src/Store/Adr/Ids.antt =====
-- The ids that `allocate_next_id` of crates/studio-store/src/adr.rs gives out.
use cobrust_studio.Base.{
  ℕ, ◌-◌, ◌^◌, ◌≤◌, ◌<◌, ◌≡◌, sym, ◌∙◌, arith, Option, none, some, Text, Result, ok, ok_injective,
  Result-cases, inl, inr,
}
use cobrust_studio.Store.Yaml.{u32_of, u32_only}
use cobrust_studio.Store.Documents.{System}
use cobrust_studio.Store.Adr.{
  AdrYaml, AdrRow, adr_kind, or_zero, next_u32, next_id, max_u32, allocated, allocate_next_id,
}

-- `SELECT MAX(adr_id)`: the greatest id of a row, and none where there is no row.
pub record IsMax (yaml : AdrYaml) (system : System (adr_kind yaml))
    (max_id : system.W → Result Text (Option ℕ)) : Type 0 where
  pub max_none : (w : system.W) (id : ℕ) → max_id w ≡ ok none → system.rows w id ≡ none
  pub max_some :
      (w : system.W) {m : ℕ}
      → max_id w ≡ ok (some m)
      → (row : AdrRow) × (system.rows w m ≡ some row)
  pub max_greatest :
      (w : system.W) (id : ℕ) (row : AdrRow) {m : ℕ}
      → max_id w ≡ ok (some m)
      → system.rows w id ≡ some row
      → id ≤ m

next_id-above : (m : ℕ) → m < 2 ^ 32 - 1 → (m < next_id (some m)) × (next_id (some m) < 2 ^ 32)
unfolding next_id next_u32 or_zero u32_of u32_only
next_id-above m h = ground (arith, h)

max_u32-above :
    (a : ℕ) → a < 2 ^ 32 → (a ≤ max_u32 a 7) × (7 ≤ max_u32 a 7) × (max_u32 a 7 < 2 ^ 32)
unfolding max_u32
max_u32-above a h = ground (arith, h)

module _ (yaml : AdrYaml) (system : System (adr_kind yaml))
    (max_id : system.W → Result Text (Option ℕ)) (law : IsMax yaml system max_id) where
  allocated-fresh :
      (w : system.W) (o : Option ℕ) (n : ℕ)
      → ((id : ℕ) (row : AdrRow) → system.rows w id ≡ some row → id < 2 ^ 32 - 1)
      → max_id w ≡ ok o
      → max_u32 (next_id o) 7 ≡ n
      → (7 ≤ n) × (n < 2 ^ 32) × ((id : ℕ) (row : AdrRow) → system.rows w id ≡ some row → id < n)
  unfolding next_id max_u32
  allocated-fresh w none n small e h = (
    omega (arith, h),
    omega (arith, h),
    λ id row at. absurd (cc (sym (law.max_none w id e) ∙ at)),
  )
  allocated-fresh w (some m) n small e h =
      let (row, at) = law.max_some w e in
      let (above, fits) = next_id-above m (small m row at) in
      let (first, least, bounded) = max_u32-above (next_id (some m)) fits in
      (
        omega (arith, h, least),
        omega (arith, h, bounded),
        λ id row at. omega (arith, h, first, above, law.max_greatest w id row e at),
      )

  -- Where no row has the last of the 32-bit numbers, the id that is given out is greater than the id of
  -- every row in the index, is at least 7, and is a number of 32 bits.
  pub allocate_next_id-fresh :
      (w : system.W) (n : ℕ)
      → ((id : ℕ) (row : AdrRow) → system.rows w id ≡ some row → id < 2 ^ 32 - 1)
      → allocate_next_id yaml system max_id w ≡ ok n
      → (7 ≤ n) × (n < 2 ^ 32) × ((id : ℕ) (row : AdrRow) → system.rows w id ≡ some row → id < n)
  unfolding allocate_next_id allocated
  allocate_next_id-fresh w n small h = elim (Result-cases (max_id w)) [
    | inl (o, e) ↦ allocated-fresh w o n small e (ok_injective (rw e at h))
    | inr (m, e) ↦ absurd (cc (rw e at h))
  ]
