-- ===== src/Codec/Endian.antt =====
-- binary.BigEndian.PutUint16/32/64 and Uint16/32/64: the highest byte comes first.
use mini_ray.Base.{
  sym, ℕ, zero, suc, ◌+◌, ◌*◌, ◌/◌, ◌%◌, ◌^◌, ◌<◌, ◌≤◌, ◌≡◌, refl, ap, ◌∙◌, List, [], ◌∷◌, arith,
  length, All,
}
use native.Mathlib.Nat.{
  pow-suc, mod-lt, mod-eq_of_lt, div-add-mod, div-add-mod', add-mul-mod_self_right,
}

-- The low `k` bytes of `v`.
unfoldable pub put_uint : ℕ → ℕ → List ℕ
put_uint zero v = []
put_uint (suc k) v = (v / 256 ^ k % 256) ∷ put_uint k v

uint_from : ℕ → List ℕ → ℕ
uint_from acc [] = acc
uint_from acc (b ∷ bs) = uint_from (acc * 256 + b) bs

unfoldable pub uint : List ℕ → ℕ
unfolding uint_from
uint bs = uint_from 0 bs

pub length-put_uint : (k v : ℕ) → length (put_uint k v) ≡ k
unfolding put_uint
length-put_uint zero v = refl
length-put_uint (suc k) v = ap suc (length-put_uint k v)

pub put_uint_bytes : (k v : ℕ) → All (λ x. x < 256) (put_uint k v)
unfolding put_uint
put_uint_bytes zero v = tt
put_uint_bytes (suc k) v = (omega arith, put_uint_bytes k v)

pow256_pos : (k : ℕ) → 0 < 256 ^ k
pow256_pos zero = omega arith
pow256_pos (suc k) = omega (arith, pow-suc 256 k, pow256_pos k)

-- One more digit to the base 256.
mod_digit : (p v : ℕ) → 0 < p → v % (p * 256) ≡ v / p % 256 * p + v % p
mod_digit p v h =
    ap (λ (t : ℕ). t % (p * 256)) split
    ∙ add-mul-mod_self_right (v / p % 256 * p + v % p) (v / p / 256) (p * 256)
    ∙ mod-eq_of_lt small
  where
    split : v ≡ v / p % 256 * p + v % p + v / p / 256 * (p * 256)
    split = omega (arith, div-add-mod' v p, ap (λ (t : ℕ). t * p) (div-add-mod (v / p) 256))

    digit : v / p % 256 ≤ 255
    digit = omega arith

    small : v / p % 256 * p + v % p < p * 256
    small = grind (arith, mod-lt v h, digit)

regroup : (acc d p w : ℕ) → (acc * 256 + d) * p + w ≡ acc * (p * 256) + (d * p + w)
regroup acc d p w = omega arith

uint_from-put_uint : (k acc v : ℕ) → uint_from acc (put_uint k v) ≡ acc * 256 ^ k + v % 256 ^ k
unfolding uint_from put_uint
uint_from-put_uint zero acc v = omega arith
uint_from-put_uint (suc k) acc v = rw (pow-suc 256 k) (
    uint_from-put_uint k (acc * 256 + v / 256 ^ k % 256) v
    ∙ regroup acc (v / 256 ^ k % 256) (256 ^ k) (v % 256 ^ k)
    ∙ ap (λ (t : ℕ). acc * (256 ^ k * 256) + t) (sym (mod_digit (256 ^ k) v (pow256_pos k))))

-- What was put is read back modulo the width.
pub uint-put_uint : (k v : ℕ) → uint (put_uint k v) ≡ v % 256 ^ k
unfolding uint
uint-put_uint k v = uint_from-put_uint k 0 v ∙ omega arith
