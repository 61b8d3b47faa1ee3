-- ===== src/Link/Write.antt =====
-- writeFull of core/driver/connection.go, which the other nodes repeat: a net.Conn may take a part of
-- what it is given. The fuel is one more than the bytes to write.
use mini_ray.Base.{
  take-append-drop, ap, ◌+◌, false, ◌∙◌, true, length-drop, append_assoc, if◌then◌else◌, ◌≡◌, ◌<◌,
  sym, append-nil, drop, write_failed, refl, none, some, arith, suc, ◌≤◌, Option, ◌⊎◌, length, ok,
  ℕ, [], List, zero, take, ◌++◌, inr, Result, ◌∷◌, err, Bool, inl,
}
use mini_ray.External.{Writer}

take_add : (n k : ℕ) (b : List ℕ) → take (n + k) b ≡ take n b ++ take k (drop n b)
take_add zero k b = let e : 0 + k ≡ k = omega arith in ap (λ j. take j b) e
take_add (suc n) zero [] = let e : suc n + 0 ≡ suc n = omega arith in ap (λ j. take j []) e
take_add (suc n) (suc k) [] =
    let e : suc n + suc k ≡ suc (n + suc k) = omega arith in ap (λ j. take j []) e
take_add (suc n) k (x ∷ b) =
    let e : suc n + k ≡ suc (n + k) = omega arith in
    ap (λ j. take j (x ∷ b)) e ∙ ap (◌∷◌ x) (take_add n k b)

module _ {W : Type 0} (o : Writer W) where
  -- `if err != nil { return err }; b = b[n:]`
  abbrev after_part :
      (List ℕ → W → Option (Result (Unit {0}) × W))
      → List ℕ
      → ℕ × Bool × W
      → Option (Result (Unit {0}) × W)
  after_part again b (n, failed, w) =
      if failed then some (err write_failed, w) else again (drop n b) w

  -- No fuel is left: none.
  write_rounds : ℕ → List ℕ → W → Option (Result (Unit {0}) × W)
  write_rounds zero b w = none
  write_rounds (suc fuel) [] w = some (ok tt, w)
  write_rounds (suc fuel) (x ∷ b) w = after_part (write_rounds fuel) (x ∷ b) (o.write w (x ∷ b))

  unfoldable pub write_full : List ℕ → W → Option (Result (Unit {0}) × W)
  unfolding write_rounds
  write_full b w = write_rounds (suc (length b)) b w

  -- All was written, or a part at the front and then an error.
  abbrev pub Wrote : List ℕ → W → Option (Result (Unit {0}) × W) → Type 0
  Wrote b w none = ⊥
  Wrote b w (some (r, w')) =
      ((r ≡ ok tt) × (o.written w' ≡ o.written w ++ b))
      ⊎ ((r ≡ err write_failed)
          × ((k : ℕ) × (k ≤ length b) × (o.written w' ≡ o.written w ++ take k b)))

  -- What was written after the first n bytes, on top of them.
  extend :
      (n : ℕ) (b : List ℕ) (w w1 : W) (r : Option (Result (Unit {0}) × W))
      → n ≤ length b
      → o.written w1 ≡ o.written w ++ take n b
      → Wrote (drop n b) w1 r
      → Wrote b w r
  extend n b w w1 none le q v = absurd v
  extend n b w w1 (some (r, w')) le q (inl (e, all)) = inl (
    e,
    all
        ∙ ap (λ xs. xs ++ drop n b) q
        ∙ append_assoc (o.written w) (take n b) (drop n b)
        ∙ ap (λ xs. o.written w ++ xs) (take-append-drop n b),
  )
  extend n b w w1 (some (r, w')) le q (inr (e, (k, le', part))) = inr (
    e,
    (
      n + k,
      omega (arith, le, le', length-drop n b),
      part
          ∙ ap (λ xs. xs ++ take k (drop n b)) q
          ∙ append_assoc (o.written w) (take n b) (take k (drop n b))
          ∙ ap (λ xs. o.written w ++ xs) (sym (take_add n k b)),
    ),
  )

  after_part-Wrote :
      (again : List ℕ → W → Option (Result (Unit {0}) × W)) (b : List ℕ) (w : W)
      (res : ℕ × Bool × W)
      → res.0 ≤ length b
      → o.written res.2 ≡ o.written w ++ take res.0 b
      → (res.1 ≡ false → Wrote (drop res.0 b) res.2 (again (drop res.0 b) res.2))
      → Wrote b w (after_part again b res)
  after_part-Wrote again b w (n, true, w1) le q h = inr (refl, (n, le, q))
  after_part-Wrote again b w (n, false, w1) le q h =
      extend n b w w1 (again (drop n b) w1) le q (h refl)

  write_rounds-Wrote :
      (fuel : ℕ) (b : List ℕ) (w : W) → length b < fuel → Wrote b w (write_rounds fuel b w)
  unfolding write_rounds
  write_rounds-Wrote zero b w h = absurd (omega arith)
  write_rounds-Wrote (suc fuel) [] w h = inl (refl, sym (append-nil (o.written w)))
  write_rounds-Wrote (suc fuel) (x ∷ b) w h =
      let res = o.write w (x ∷ b) in
      let le = o.count_lem w (x ∷ b) in
      after_part-Wrote (write_rounds fuel) (x ∷ b) w res le (o.written_lem w (x ∷ b)) (λ going.
        let some_written = o.progress_lem w (x ∷ b) (λ e. cc) going in
        write_rounds-Wrote fuel (drop res.0 (x ∷ b)) res.2
          (omega (arith, h, le, some_written, length-drop res.0 (x ∷ b))))

  -- writeFull ends for every net.Conn that writes at least a byte of what it is given, or gives an
  -- error: either it gives no error, and has written exactly the bytes, once and in order, behind
  -- what was written before; or it gives an error, and has written a part at the front of them. The
  -- fuel, one more than the bytes, is never used up.
  pub write_full-Wrote : (b : List ℕ) (w : W) → Wrote b w (write_full b w)
  unfolding write_full
  write_full-Wrote b w = write_rounds-Wrote (suc (length b)) b w (omega arith)
