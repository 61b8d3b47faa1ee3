-- ===== src/Worker/Threads/Stuck.antt =====
-- What is left of a worker whose Loop has panicked.
use mini_ray.Base.{
  length, length-append, some, arith, ◌≤◌, ℕ, GoString, ap, List, false, ◌≡◌, none, Option, ◌++◌,
  ◌+◌, refl,
}
use mini_ray.Client.{Net}
use mini_ray.External.{Proto}
use mini_ray.Worker.Threads.Fifo.{in_hand, Reach-IsFifo}
use mini_ray.Worker.Threads.{
  handles, offers, puts, passes, answers, reports, here, after, Step, Reach, Threads, at_start,
}

-- Loop does not run, and these are the results that it took.
abbrev Stopped : List GoString → Threads → Type 0
Stopped taken t = (t.reporting ≡ false) × (t.taken ≡ taken)

module _ (net : Net) (p : Proto) where
  Step-Stopped :
      (taken : List GoString) {t u : Threads} → Step net p t u → Stopped taken t → Stopped taken u
  Step-Stopped taken (handles t now conn h m e u ne back) v = v
  Step-Stopped taken (offers t now task e) v = v
  Step-Stopped taken (puts t id e back) v = v
  Step-Stopped taken (passes t id e unbuffered r) v = absurd (ground (arith, v.0))
  Step-Stopped taken (answers t conn payload e) v = v
  Step-Stopped taken (reports t id rest r e) v = absurd (ground (arith, v.0))

  Reach-Stopped :
      (taken : List GoString) {t u : Threads} → Reach net p t u → Stopped taken t → Stopped taken u
  Reach-Stopped taken here v = v
  Reach-Stopped taken (after r step) v = Step-Stopped taken step (Reach-Stopped taken r v)

  Reach-onwards : {t u v : Threads} → Reach net p t u → Reach net p u v → Reach net p t v
  Reach-onwards r here = r
  Reach-onwards r (after s step) = after (Reach-onwards r s) step

  in_hand-length : (o : Option GoString) → length (in_hand o) ≤ 1
  in_hand-length none = omega arith
  in_hand-length (some id) = omega arith

  -- From a state that the two goroutines of a worker reach in which Loop no longer runs, Loop never
  -- runs again and takes no further result, and the worker offers at most as many results in all as
  -- Loop took, the channel holds, and one more.
  pub Reach-stopped :
      (size : ℕ) (t u : Threads)
      → Reach net p (at_start size) t
      → t.reporting ≡ false
      → Reach net p t u
      → (u.reporting ≡ false)
        × (u.taken ≡ t.taken)
        × (length u.offered ≤ length t.taken + (size + 1))
  Reach-stopped size t u r dead later =
      let (stays, same) = Reach-Stopped t.taken later (dead, refl) in
      let v = Reach-IsFifo net p size u (Reach-onwards r later) in
      (
        stays,
        same,
        omega (
          arith,
          ap length v.ordered,
          ap length same,
          length-append u.taken (u.worker.register_chan ++ in_hand u.offering),
          length-append u.worker.register_chan (in_hand u.offering),
          in_hand-length u.offering,
          v.bounded,
        ),
      )
