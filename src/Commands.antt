-- ===== src/Commands.antt =====
-- The commands core/worker/main/main.go, core/gcs/main/main.go, core/scheduler/main/main.go and
-- core/driver/main/main.go. Logging, metrics, profiling and the event engines are left out.
use mini_ray.Base.{
  ◌↔◌, refl, arith, false, ap, sym, ◌≢◌, Option, [], ℕ, length, ◌==◌, Bool, GoString, ◌∷◌, ◌≡◌,
  true, none, ◌||◌, some, if◌then◌else◌, not, nat_eq, bytes_eq,
}
use mini_ray.Driver.{Driver}
use mini_ray.Driver.Create.{new_driver-none, new_driver}
use mini_ray.Gcs.{Gcs, new_gcs}
use mini_ray.Options.{with_max_connections, Options, options_of}
use mini_ray.Worker.{Worker}
use mini_ray.Worker.Node.{new_worker}

-- The package's variables that decide about a run.
pub record Flags : Type 0 where
  pub advertise_addr : GoString
  pub listen_addr : GoString
  pub max_connections : ℕ

-- They are never set: no command registers a flag.
abbrev pub unset : Flags
unset = record { advertise_addr = []; listen_addr = []; max_connections = 0 }

-- How far `execute` comes: no pool of goroutines, no address, no node, or a node that is started,
-- for which it waits for a signal.
pub data Run (N : Type 0) : Type 0 where
  no_pool no_address no_node : Run N
  serves : N → Run N

-- `pool` says whether `ants.NewPool` gave a pool.
abbrev after_checks : {N : Type 0} → Bool → Flags → Run N → Run N
after_checks pool f run =
    if not pool
    then no_pool
    else if (length f.advertise_addr == 0) || (length f.listen_addr == 0)
    then no_address
    else run

options_for : Flags → Options
unfolding options_of with_max_connections
options_for f = options_of (with_max_connections f.max_connections ∷ [])

unfoldable pub execute_worker : Bool → Flags → Run Worker
unfolding new_worker options_for
execute_worker pool f =
    after_checks pool f (serves (new_worker (options_for f).register_object_chan_size))

unfoldable pub execute_gcs : Bool → Flags → Run Gcs
execute_gcs pool f = after_checks pool f (serves new_gcs)

made : Option Driver → Run Driver
made none = no_node
made (some d) = serves d

-- The command of the scheduler makes a driver, as that of the driver does.
unfoldable pub execute_scheduler : ℕ → Bool → Flags → Run Driver
unfolding made
execute_scheduler fuel pool f = after_checks pool f (made (new_driver fuel))

unfoldable pub execute_driver : ℕ → Bool → Flags → Run Driver
unfolding made
execute_driver fuel pool f = after_checks pool f (made (new_driver fuel))

checks-serves :
    {N : Type 0} (pool : Bool) (f : Flags) (run : Run N) (n : N)
    → after_checks pool f run ≡ serves n
    → (pool ≡ true) × (f.advertise_addr ≢ []) × (f.listen_addr ≢ []) × (run ≡ serves n)
checks-serves pool f run n e =
    let up : pool ≡ true = ground arith in
    let far : (length f.advertise_addr == 0) ≡ false = ground arith in
    let near : (length f.listen_addr == 0) ≡ false = ground arith in
    (
      up,
      λ q. absurd (ground (arith, ap length q)),
      λ q. absurd (ground (arith, ap length q)),
      ground arith,
    )

nonempty : (xs : GoString) → xs ≢ [] → (length xs == 0) ≡ false
nonempty [] ne = absurd (ne refl)
nonempty (x ∷ xs) ne = ground arith

serves-checks :
    {N : Type 0} (f : Flags) (n m : N)
    → f.advertise_addr ≢ []
    → f.listen_addr ≢ []
    → n ≡ m
    → after_checks true f (serves m) ≡ serves n
serves-checks f n m far near q =
    rw (nonempty f.advertise_addr far, nonempty f.listen_addr near, q) refl

-- The conditions under which a command starts its node.
abbrev pub Ready : Bool → Flags → Type 0
Ready pool f = (pool ≡ true) × (f.advertise_addr ≢ []) × (f.listen_addr ≢ [])

started_iff :
    {N : Type 0} (pool : Bool) (f : Flags) (n m : N)
    → (after_checks pool f (serves m) ≡ serves n) ↔ (Ready pool f × (n ≡ m))
started_iff pool f n m = (
  λ e.
      let (up, far, near, q) = checks-serves pool f (serves m) n e in
      let same : m ≡ n = cc in ((up, far, near), sym same),
  λ ((up, far, near), q). rw up (serves-checks f n m far near q),
)

-- The command of a worker comes to serve exactly a new worker without capacity for results, and
-- that of the GCS exactly a new GCS, if and only if there is a pool of goroutines and neither of
-- the two addresses is empty.
pub execute-serves :
    (pool : Bool) (f : Flags) (w : Worker) (s : Gcs)
    → ((execute_worker pool f ≡ serves w) ↔ (Ready pool f × (w ≡ new_worker 0)))
      × ((execute_gcs pool f ≡ serves s) ↔ (Ready pool f × (s ≡ new_gcs)))
unfolding execute_worker execute_gcs
execute-serves pool f w s = (started_iff pool f w (new_worker 0), started_iff pool f s new_gcs)

never_made :
    (fuel : ℕ) (pool : Bool) (f : Flags) (d : Driver)
    → after_checks pool f (made (new_driver fuel)) ≢ serves d
unfolding made
never_made fuel pool f d e =
    let (up, far, near, q) = checks-serves pool f (made (new_driver fuel)) d e in
    let missing : made (new_driver fuel) ≡ no_node = ap made (new_driver-none fuel) in cc

-- The commands of the scheduler and of the driver never come to serve a node, whatever the
-- addresses, and however deep the calls of NewDriver may go.
pub execute-ne-serves :
    (fuel : ℕ) (pool : Bool) (f : Flags) (d : Driver)
    → (execute_scheduler fuel pool f ≢ serves d) × (execute_driver fuel pool f ≢ serves d)
unfolding execute_scheduler execute_driver
execute-ne-serves fuel pool f d = (never_made fuel pool f d, never_made fuel pool f d)
