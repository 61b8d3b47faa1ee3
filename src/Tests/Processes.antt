-- ===== src/Tests/Processes.antt =====
-- Loops, commands, signals and plain connections on concrete inputs.
use mini_ray.Base.{
  ◌<◌, none, take, Result, append-nil, ◌∷◌, and_then, ℕ, Bool, false, ◌≤◌, refl, sym, arith, ◌↔◌,
  [], ◌≡◌, some, true, List, ok, length, ◌++◌, ◌≢◌,
}
use mini_ray.Tests.Inputs.{all_accepted, small_proto}
use mini_ray.Tests.Pairs.{pair_proto}
use mini_ray.Client.{start, Client, dial_once, new_connection}
use mini_ray.Client.Loop.{dial_fails, here, next, inner, at, Reach, waiting}
use mini_ray.Client.Recover.{Reach-recovers}
use mini_ray.Commands.{
  no_address, serves, execute_gcs, execute_scheduler, execute-serves, execute-ne-serves,
  execute_worker, Ready, execute_driver, Flags, unset,
}
use mini_ray.Driver.{empty_driver}
use mini_ray.Scheduler.Node.{accept}
use mini_ray.Scheduler.Reach.{accepts}
use mini_ray.External.{Writer}
use mini_ray.Gcs.{new_gcs}
use mini_ray.Link.Write.{Wrote, write_full-Wrote, write_full}
use mini_ray.Scheduler.{new_scheduler}
use mini_ray.Scheduler.Idle.{new, then_step, Quiet-Idle, Idle}
use mini_ray.Signals.{
  register_handler, register_signal-register_handler, Signal, caught, register_signal,
}
use mini_ray.Worker.Node.{new_worker}

-- A connection that could not be dialed gets established.
abbrev waiting_client : Client
unfolding new_connection start dial_once
waiting_client = (dial_once 0 none (start (new_connection 1 [] [])).0).1

Reach-recovers_example :
    (c' : Client) × Reach all_accepted pair_proto 2 (at waiting waiting_client) (at inner c')
    × (c'.raw_conn ≡ some 4)
    × (c'.established ≡ true)
    × (c'.failure ≡ 0)
unfolding new_connection start dial_once
Reach-recovers_example =
    Reach-recovers all_accepted pair_proto 2 (λ id frames. refl) (start (new_connection 1 [] [])).0
      (at waiting waiting_client) 8 9 4 1 1 (2 ∷ []) refl
      (next here (dial_fails (start (new_connection 1 [] [])).0 0 refl refl)) refl refl

-- A net.Conn that takes a byte at a time.
abbrev slow_write : List ℕ → List ℕ → ℕ × Bool × List ℕ
slow_write w [] = (0, false, w)
slow_write w (x ∷ b) = (1, false, w ++ (x ∷ []))

slow_count : (w b : List ℕ) → (slow_write w b).0 ≤ length b
slow_count w [] = omega arith
slow_count w (x ∷ b) = omega arith

slow_written : (w b : List ℕ) → (slow_write w b).2 ≡ w ++ take (slow_write w b).0 b
slow_written w [] = sym (append-nil w)
slow_written w (x ∷ b) = refl

slow_progress : (w b : List ℕ) → b ≢ [] → (slow_write w b).1 ≡ false → 0 < (slow_write w b).0
slow_progress w [] ne e = absurd (ne refl)
slow_progress w (x ∷ b) ne e = omega arith

abbrev slow_writer : Writer (List ℕ)
slow_writer = record {
  written = λ w. w;
  write = slow_write;
  count_lem = slow_count;
  written_lem = slow_written;
  progress_lem = slow_progress;
}

write_full_run : write_full slow_writer (5 ∷ 6 ∷ 7 ∷ []) [] ≡ some (ok tt, 5 ∷ 6 ∷ 7 ∷ [])
unfolding write_full
write_full_run = refl

write_full-Wrote_example :
    Wrote slow_writer (5 ∷ 6 ∷ 7 ∷ []) [] (write_full slow_writer (5 ∷ 6 ∷ 7 ∷ []) [])
write_full-Wrote_example = write_full-Wrote slow_writer (5 ∷ 6 ∷ 7 ∷ []) []

-- The commands as they are, without flags, and with addresses.
worker_run : execute_worker true unset ≡ no_address
unfolding execute_worker
worker_run = refl

gcs_run : execute_gcs true unset ≡ no_address
unfolding execute_gcs
gcs_run = refl

scheduler_run : execute_scheduler 9 true unset ≡ no_address
unfolding execute_scheduler
scheduler_run = refl

abbrev with_addresses : Flags
with_addresses = record { advertise_addr = 65 ∷ []; listen_addr = 66 ∷ []; max_connections = 8 }

execute-serves_example :
    ((execute_worker true with_addresses ≡ serves (new_worker 0))
      ↔ (Ready true with_addresses × (new_worker 0 ≡ new_worker 0)))
    × ((execute_gcs true with_addresses ≡ serves new_gcs)
        ↔ (Ready true with_addresses × (new_gcs ≡ new_gcs)))
execute-serves_example = execute-serves true with_addresses (new_worker 0) new_gcs

execute-ne-serves_example :
    (execute_scheduler 9 true with_addresses ≢ serves empty_driver)
    × (execute_driver 9 true with_addresses ≢ serves empty_driver)
execute-ne-serves_example = execute-ne-serves 9 true with_addresses empty_driver

-- Handlers that note the signal that they get.
abbrev noted : ℕ → Signal → List (ℕ × Signal) → Result (Unit {0}) × List (ℕ × Signal)
noted name sig log = (ok tt, (name, sig) ∷ log)

register_signal-register_handler_example :
    register_signal (register_handler (some (noted 2)) (noted 1 ∷ [])) (caught 15) []
    ≡ and_then (register_signal (noted 1 ∷ []) (caught 15) []) (λ _. noted 2 15)
register_signal-register_handler_example =
    register_signal-register_handler (some (noted 2)) (noted 1 ∷ []) (caught 15) []

-- A scheduler that has accepted a connection.
Quiet-Idle_example : Idle (accept (120 ∷ []) (new_scheduler 2)).1
Quiet-Idle_example =
    Quiet-Idle all_accepted small_proto 2 (accept (120 ∷ []) (new_scheduler 2)).1
      (then_step new (accepts (new_scheduler 2) (120 ∷ [])) refl)
