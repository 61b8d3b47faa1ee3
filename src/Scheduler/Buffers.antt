-- ===== src/Scheduler/Buffers.antt =====
-- OnTraffic of core/scheduler/connection_manger.go, on whatever bytes a peer sends.
use mini_ray.Base.{ℕ, ◌∷◌, []}
use mini_ray.Client.{Net}
use mini_ray.External.{Proto, Reader}
use mini_ray.Peers.Alive.{IsAlive}
use mini_ray.Scheduler.{Scheduler, on_packet}
use mini_ray.Scheduler.Safety.{on_packet-Safe}
use mini_ray.Scheduler.Sound.{IsSound, Holds}
use mini_ray.Traffic.{serve}
use mini_ray.Traffic.Ends.{Ends, serve-Ends}

module _ (net : Net) (p : Proto) where
  -- Whatever bytes are buffered, a call of OnTraffic for a connection object that is there, on a
  -- scheduler that is sound, neither panics nor waits forever, and leaves the scheduler sound and
  -- the connection object there.
  pub serve-IsSound :
      {C : Type 0} (g : Reader C) (c : C) (conn : ℕ) (s : Scheduler)
      → IsSound s
      → IsAlive conn s.manager.heap
      → Ends
          (λ (t : Scheduler). IsSound t × (IsAlive conn t.manager.heap × Unit {0}))
          (serve g p (on_packet net p conn) c s)
  serve-IsSound g c conn s v alive =
      serve-Ends (Holds (conn ∷ [])) p (on_packet net p conn) (on_packet-Safe net p conn) g c s
        (v, (alive, tt))
