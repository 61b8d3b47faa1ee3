-- ===== src/Base/Safety.antt =====
-- An action is safe for an invariant where it keeps the invariant and comes back with a value or an
-- error: it neither panics nor blocks. Safe parts make safe wholes.
use mini_ray.Base.{
  if◌then◌else◌, panics, Bool, err, and_then, ok, ◌≡◌, M, modify, true, Result, gets, false, pure,
  ◌>>=◌, arith, blocks, refl,
}

abbrev pub returns {ℓ} : {A : Type ℓ} → Result A → Bool
returns (ok _) = true
returns (err _) = true
returns (panics _) = false
returns blocks = false

module _ {ℓ} {S : Type 0} (P : S → Type ℓ) where
  abbrev pub Lands : {A : Type 0} → Result A × S → Type ℓ
  Lands r = P r.1 × (returns r.0 ≡ true)

  abbrev pub Safe : {A : Type 0} → M S A → Type ℓ
  Safe m = (s : S) → P s → Lands (m s)

  pub and_then-Lands :
      {A B : Type 0} (r : Result A × S) (f : A → M S B)
      → Lands r
      → ((a : A) → Safe (f a))
      → Lands (and_then r f)
  and_then-Lands (ok a, s) f h k = k a s h.0
  and_then-Lands (err e, s) f h k = h
  and_then-Lands (panics x, s) f h k = absurd (ground arith)
  and_then-Lands (blocks, s) f h k = absurd (ground arith)

  pub >>=-Safe :
      {A B : Type 0} (m : M S A) (f : A → M S B) → Safe m → ((a : A) → Safe (f a)) → Safe (m >>= f)
  >>=-Safe m f h k s v = and_then-Lands (m s) f (h s v) k

  pub modify-Safe : (f : S → S) → ((s : S) → P s → P (f s)) → Safe (modify f)
  modify-Safe f h s v = (h s v, refl)

  pub gets-Safe : {A : Type 0} (f : S → A) → Safe (gets f)
  gets-Safe f s v = (v, refl)

  pub pure-Safe : {A : Type 0} (a : A) → Safe (pure {S = S} a)
  pure-Safe a s v = (v, refl)

  pub result-Safe : {A : Type 0} (r : Result A) → returns r ≡ true → Safe (λ s. (r, s))
  result-Safe r h s v = (v, h)

-- An action keeps a property of the state, however it ends.
module _ {ℓ} {S : Type 0} (P : S → Type ℓ) where
  abbrev pub Keeps : {A : Type 0} → M S A → Type ℓ
  Keeps m = (s : S) → P s → P (m s).1

  pub and_then-Keeps :
      {A B : Type 0} (r : Result A × S) (f : A → M S B)
      → P r.1
      → ((a : A) → Keeps (f a))
      → P (and_then r f).1
  and_then-Keeps (ok a, s) f h k = k a s h
  and_then-Keeps (err e, s) f h k = h
  and_then-Keeps (panics x, s) f h k = h
  and_then-Keeps (blocks, s) f h k = h

  pub >>=-Keeps :
      {A B : Type 0} (m : M S A) (f : A → M S B)
      → Keeps m
      → ((a : A) → Keeps (f a))
      → Keeps (m >>= f)
  >>=-Keeps m f h k s v = and_then-Keeps (m s) f (h s v) k

  pub result-Keeps : {A : Type 0} (r : Result A) → Keeps (λ s. (r, s))
  result-Keeps r s v = v

  pub if-Keeps :
      {A : Type 0} (b : Bool) (m k : M S A) → Keeps m → Keeps k → Keeps (if b then m else k)
  if-Keeps true m k h i = h
  if-Keeps false m k h i = i
