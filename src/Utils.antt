-- ===== src/Utils.antt =====
-- common/utils.go: the number of entries of a sync.Map, counted in any order of visits.
use mini_ray.Base.{◌∷◌, length, [], ◌≡◌, arith, ℕ, ◌∙◌, ◌+◌}
use mini_ray.Base.Maps.{Map}
use mathlib.Core.List.{foldl}

module _ {ℓ κ} {K : Type ℓ} {V : Type κ} where
  unfoldable get_sync_map_len : Map K V → ℕ
  get_sync_map_len m = foldl (λ n entry. n + 1) 0 m

  counted : (n : ℕ) (m : Map K V) → foldl (λ n entry. n + 1) n m ≡ n + length m
  counted n [] = omega arith
  counted n (entry ∷ m) = counted (n + 1) m ∙ omega arith

  get_sync_map_len_lem : (m : Map K V) → get_sync_map_len m ≡ length m
  unfolding get_sync_map_len
  get_sync_map_len_lem m = counted 0 m ∙ omega arith
