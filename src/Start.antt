-- ===== src/Start.antt =====
-- Start of core/scheduler/scheduler.go, core/gcs/gcs.go and core/worker/worker.go, and what execute of
-- core/*/main/main.go submits to the pool of goroutines after it. The log level is left out.
use mini_ray.Client.Backoff.{second}
use mini_ray.Base.{
  ◌∙◌, ap, arith, ◌≡◌, refl, true, Bool, if◌then◌else◌, ◌++◌, ◌∷◌, ◌*◌, [], false, suc, ◌+◌, List,
  GoString, zero, ℕ, codes,
}
use mini_ray.Options.{Options}

-- The options that gnet is run with. Durations are nanoseconds.
pub record GnetOptions : Type 0 where
  pub multicore : Bool
  pub tcp_keep_alive : ℕ
  pub socket_recv_buffer : ℕ
  pub socket_send_buffer : ℕ
  pub reuse_addr : Bool
  pub reuse_port : Bool
  pub write_buffer_cap : ℕ

abbrev default_socket_buffer_size : ℕ
default_socket_buffer_size = 2 * 1024 * 1024

abbrev default_write_buffer_cap : ℕ
default_write_buffer_cap = 64 * 1024

unfoldable gnet_options : Options → GnetOptions
gnet_options o = record {
  multicore = false;
  tcp_keep_alive = 300 * second;
  socket_recv_buffer = default_socket_buffer_size;
  socket_send_buffer = default_socket_buffer_size;
  reuse_addr = o.reuse_addr;
  reuse_port = o.reuse_port;
  write_buffer_cap = default_write_buffer_cap;
}

-- What a node submits: gnet.Run over an address, its own Loop, and the Loop of its manager.
pub data Job : Type 0 where
  runs_gnet : GoString → GnetOptions → Job
  loops manager_loops : Job

-- A node before and after Start, with the jobs that it submitted, oldest first.
pub record Server : Type 0 where
  pub listen_addr : GoString
  pub options : Options
  pub started : Bool
  pub submitted : List Job

serving : Server → Job
unfolding gnet_options
serving s = runs_gnet (codes "tcp://" ++ s.listen_addr) (gnet_options s.options)

-- `if s.started.SetToIf(false, true)`, for a node with these jobs.
once : (Server → List Job) → Server → Server
once jobs s =
    if s.started then s else record s { started = true; submitted = s.submitted ++ jobs s }

unfoldable start_scheduler : Server → Server
unfolding serving once
start_scheduler = once (λ s. serving s ∷ [])

unfoldable start_gcs : Server → Server
unfolding serving once
start_gcs = once (λ s. serving s ∷ [])

-- A worker submits both of its loops too.
unfoldable start_worker : Server → Server
unfolding serving once
start_worker = once (λ s. serving s ∷ loops ∷ manager_loops ∷ [])

-- `server.Start()`, then `workerPool.Submit(server.Loop)`.
unfoldable run_command : (Server → Server) → Server → Server
run_command start s = let s' = start s in record s' { submitted = s'.submitted ++ (loops ∷ []) }

-- How many jobs run gnet.
abbrev pub engines : List Job → ℕ
engines [] = 0
engines (runs_gnet addr o ∷ jobs) = suc (engines jobs)
engines (_ ∷ jobs) = engines jobs

engines-append : (xs ys : List Job) → engines (xs ++ ys) ≡ engines xs + engines ys
engines-append [] ys = omega arith
engines-append (runs_gnet addr o ∷ xs) ys = omega (arith, engines-append xs ys)
engines-append (loops ∷ xs) ys = engines-append xs ys
engines-append (manager_loops ∷ xs) ys = engines-append xs ys

abbrev times : ℕ → (Server → Server) → Server → Server
times zero f s = s
times (suc n) f s = f (times n f s)

module _ (jobs : Server → List Job) where
  once_settled : (n : ℕ) (s : Server) → s.started ≡ true → times n (once jobs) s ≡ s
  unfolding once
  once_settled zero s e = refl
  once_settled (suc n) s e = ap (once jobs) (once_settled n s e) ∙ rw e refl

  engines-once :
      (n : ℕ) (s : Server)
      → s.started ≡ false
      → engines (times n (once jobs) (once jobs s)).submitted
        ≡ engines s.submitted + engines (jobs s)
  unfolding once
  engines-once n s e =
      let went : once jobs s ≡ record s { started = true; submitted = s.submitted ++ jobs s } =
        rw e refl in
      ap (λ (t : Server). engines (times n (once jobs) t).submitted) went
      ∙ ap (λ (t : Server). engines t.submitted)
          (once_settled n (record s { started = true; submitted = s.submitted ++ jobs s }) refl)
      ∙ engines-append s.submitted (jobs s)

-- However often Start of a node is called after the first time, gnet is run once.
engines-start :
    (n : ℕ) (s : Server)
    → s.started ≡ false
    → (engines (times n start_scheduler (start_scheduler s)).submitted ≡ engines s.submitted + 1)
      × (engines (times n start_gcs (start_gcs s)).submitted ≡ engines s.submitted + 1)
      × (engines (times n start_worker (start_worker s)).submitted ≡ engines s.submitted + 1)
unfolding start_scheduler start_gcs start_worker serving
engines-start n s e = (engines-once _ n s e, engines-once _ n s e, engines-once _ n s e)
