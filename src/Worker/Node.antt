-- ===== src/Worker/Node.antt =====
-- A worker as a gnet event engine: OnOpen, OnClose, OnTraffic, AddConnection and Ontick of
-- core/worker/connection_manger.go, and NewWorker and Connect of core/worker/worker.go. The table
-- connAddrs is only written to, and is left out.
use mini_ray.Base.Maps.{Map}
use mini_ray.Options.{options_of, Options}
use mini_ray.Scheduler.{mode_worker}
use mini_ray.Codec.{Header}
use mini_ray.Messages.{Message}
use mini_ray.Peers.Deliver.{peer_on_packet}
use mini_ray.Base.{◌>>=◌, pure, [], Bool, M, List, ℕ, none, GoString}
use mini_ray.Worker.{Object, Worker}
use mini_ray.Worker.Packets.{on_packet, on_manager}
use mini_ray.Client.{Net}
use mini_ray.External.{Proto, Reader}
use mini_ray.Peers.{with_peer, take_id, on_open, empty_manager, on_close}
use mini_ray.Peers.Ticks.{add_outgoing, tick_all}
use mini_ray.Traffic.{stay, Action, on_traffic, Served}

unfoldable pub new_worker : ℕ → Worker
unfolding empty_manager
new_worker register_chan_size = record {
  manager = empty_manager;
  gcs_conn = none;
  register_chan = [];
  register_chan_size = register_chan_size;
  objects = [];
  get_object_location_chan = [];
  get_object_chan = [];
}

-- GetMode: what the node's outgoing connections say in Establish.
abbrev pub get_mode : ℕ
get_mode = mode_worker

-- NewConnectionManager makes the channel of results of the size that the options give.
unfoldable new_connection_manager : List (Options → Options) → Worker
unfolding new_worker options_of
new_connection_manager opts = new_worker (options_of opts).register_object_chan_size

unfoldable new_object_storage : Map GoString Object
new_object_storage = []

-- OnBoot does nothing but a log line.
abbrev pub on_boot : Action
on_boot = stay

unfoldable pub accept : GoString → M Worker ℕ
unfolding on_manager
accept remote = on_manager (on_open remote)

unfoldable pub forget : ℕ → Worker → Worker
forget id w = record w { manager = on_close id w.manager }

unfoldable pub connect : GoString → M Worker ℕ
unfolding on_manager
connect addr = on_manager (add_outgoing addr)

module _ (net : Net) (p : Proto) where
  unfoldable pub traffic :
      {C : Type 0} → Reader C → Bool → Bool → ℕ → ℕ → C → Worker → Served C Worker
  traffic g started known now conn = on_traffic g p (on_packet net p now conn) started known

  unfoldable pub on_tick : List ℕ → M Worker (Unit {0})
  unfolding on_manager
  on_tick order = on_manager (tick_all net p take_id order)

  -- HandlePacket of a worker does nothing: what comes over an outgoing connection is dropped.
  unfoldable pub receive : ℕ → ℕ → Header → Message → M Worker (Unit {0})
  unfolding on_manager
  receive now conn h m =
      on_manager (with_peer conn (peer_on_packet now h m)) >>= (λ delivery. pure tt)
