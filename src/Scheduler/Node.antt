-- ===== src/Scheduler/Node.antt =====
-- The scheduler as a gnet event engine: OnOpen, OnClose, OnTraffic, AddConnection and Ontick of
-- core/scheduler/connection_manger.go, and Connect and the round of Loop of core/scheduler/scheduler.go.
-- The managers of the other nodes do the same on their own tables.
use mini_ray.Codec.{Header}
use mini_ray.Messages.{Message}
use mini_ray.Peers.Deliver.{hand, peer_on_packet}
use mini_ray.Base.{recovered, ◌>>=◌, Bool, List, ltb, M, if◌then◌else◌, length, ok, GoString, ℕ}
use mini_ray.Scheduler.{mode_scheduler, on_manager, Scheduler, assign_task_of, on_packet}
use mini_ray.Client.{Net}
use mini_ray.External.{Reader, Proto}
use mini_ray.Peers.{with_peer, on_close, on_open, take_id, ignore}
use mini_ray.Peers.Ticks.{tick_all, add_outgoing}
use mini_ray.Traffic.{stay, Action, Served, on_traffic}

-- GetMode: what the node's outgoing connections say in Establish.
abbrev pub get_mode : ℕ
get_mode = mode_scheduler

-- OnBoot does nothing but a log line.
abbrev pub on_boot : Action
on_boot = stay

unfoldable pub accept : GoString → M Scheduler ℕ
unfolding on_manager
accept remote = on_manager (on_open remote)

unfoldable pub forget : ℕ → Scheduler → Scheduler
forget id s = record s { manager = on_close id s.manager }

unfoldable pub connect : GoString → M Scheduler ℕ
unfolding on_manager
connect addr = on_manager (add_outgoing addr)

module _ (net : Net) (p : Proto) where
  unfoldable pub traffic :
      {C : Type 0} → Reader C → Bool → Bool → ℕ → C → Scheduler → Served C Scheduler
  traffic g started known conn = on_traffic g p (on_packet net p conn) started known

  unfoldable pub on_tick : List ℕ → M Scheduler (Unit {0})
  unfolding on_manager
  on_tick order = on_manager (tick_all net p take_id order)

  -- One round of Loop; the error of AssignTask is not looked at.
  unfoldable pub poll : List ℕ → M Scheduler (Unit {0})
  poll order s =
      if ltb 0 (length s.task_chan) then ignore (assign_task_of net p order) s else (ok tt, s)

  -- A packet over an outgoing connection: HandlePacket passes it on to OnPacket, and the OnPacket of
  -- the connection recovers from a panic.
  unfoldable pub receive : ℕ → ℕ → Header → Message → M Scheduler (Unit {0})
  unfolding on_manager
  receive now conn h m s =
      recovered
        ((on_manager (with_peer conn (peer_on_packet now h m)) >>= hand (on_packet net p conn)) s)
