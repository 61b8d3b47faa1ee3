-- ===== src/Base/Maps.antt =====
-- A Go map and a sync.Map: an association list with at most one entry for a key.
use mini_ray.Base.{
  ◌≡◌, refl, Option, none, some, List, [], ◌∷◌, arith, Eq, ◌==◌, ==_refl, if◌then◌else◌,
}

abbrev pub Map {ℓ κ} : Type ℓ → Type κ → Type (ℓ ⊔ κ)
Map K V = List (K × V)

module _ {ℓ κ} {K : Type ℓ} {V : Type κ} ⦃keys : Eq K⦄ where
  unfoldable pub lookup : K → Map K V → Option V
  lookup key [] = none
  lookup key (entry ∷ rest) = if entry.0 == key then some entry.1 else lookup key rest

  -- An entry keeps its place; a new one goes last.
  unfoldable pub insert : K → V → Map K V → Map K V
  insert key new [] = (key, new) ∷ []
  insert key new (entry ∷ rest) =
      if entry.0 == key then (key, new) ∷ rest else entry ∷ insert key new rest

  unfoldable pub delete : K → Map K V → Map K V
  delete key [] = []
  delete key (entry ∷ rest) = if entry.0 == key then delete key rest else entry ∷ delete key rest

  pub lookup-insert :
      (key other : K) (new : V) (table : Map K V)
      → lookup other (insert key new table)
        ≡ (if key == other then some new else lookup other table)
  unfolding insert lookup
  lookup-insert key other new [] = refl
  lookup-insert key other new ((old, v) ∷ rest) = ground (
    arith,
    lookup-insert key other new rest,
    keys.beq_iff old key,
    keys.beq_iff old other,
    keys.beq_iff key other,
  )

  pub lookup-delete :
      (key other : K) (table : Map K V)
      → lookup other (delete key table) ≡ (if key == other then none else lookup other table)
  unfolding delete lookup
  lookup-delete key other [] = ground arith
  lookup-delete key other ((old, v) ∷ rest) = ground (
    arith,
    lookup-delete key other rest,
    keys.beq_iff old key,
    keys.beq_iff old other,
    keys.beq_iff key other,
  )

  pub lookup-insert_self :
      (key : K) (new : V) (table : Map K V) → lookup key (insert key new table) ≡ some new
  lookup-insert_self key new table = rw (lookup-insert key key new table, ==_refl key)

  pub lookup-delete_self : (key : K) (table : Map K V) → lookup key (delete key table) ≡ none
  lookup-delete_self key table = rw (lookup-delete key key table, ==_refl key)
