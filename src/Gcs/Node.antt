-- ===== src/Gcs/Node.antt =====
-- The GCS as a gnet event engine: OnOpen, OnClose, OnTraffic, AddConnection and Ontick of
-- core/gcs/connection_manager.go, and Connect of core/gcs/gcs.go.
use mini_ray.Scheduler.{mode_gcs}
use mini_ray.Codec.{Header}
use mini_ray.Messages.{Message}
use mini_ray.Peers.Deliver.{hand, peer_on_packet}
use mini_ray.Base.{[], ◌>>◌, ◌∷◌, pure, recovered, ◌>>=◌, GoString, M, Bool, List, ℕ}
use mini_ray.Gcs.{on_manager, on_packet, Gcs}
use mini_ray.Client.{Net}
use mini_ray.External.{Proto, Reader}
use mini_ray.Peers.{empty_manager, Manager, with_peer, on_open, on_close, take_seq}
use mini_ray.Peers.Ticks.{add_outgoing, tick_all}
use mini_ray.Traffic.{Action, stay, on_traffic, Served}

-- GetMode: what the node's outgoing connections say in Establish.
abbrev pub get_mode : ℕ
get_mode = mode_gcs

-- NewConnectionManager.
unfoldable pub new_manager : Manager
unfolding empty_manager
new_manager = empty_manager

-- OnBoot does nothing but a log line.
abbrev pub on_boot : Action
on_boot = stay

unfoldable pub accept : GoString → M Gcs ℕ
unfolding on_manager
accept remote = on_manager (on_open remote)

unfoldable pub forget : ℕ → Gcs → Gcs
forget id s = record s { manager = on_close id s.manager }

unfoldable pub connect : GoString → M Gcs ℕ
unfolding on_manager
connect addr = on_manager (add_outgoing addr)

module _ (net : Net) (p : Proto) where
  unfoldable pub traffic : {C : Type 0} → Reader C → Bool → Bool → ℕ → C → Gcs → Served C Gcs
  traffic g started known conn = on_traffic g p (on_packet net p conn) started known

  -- A handshake of the GCS takes its number from nextSeq.
  unfoldable pub on_tick : List ℕ → M Gcs (Unit {0})
  unfolding on_manager
  on_tick order = on_manager (tick_all net p take_seq order)

  -- A packet over an outgoing connection: HandlePacket passes it on to OnPacket, and the OnPacket of
  -- the connection recovers from a panic.
  unfoldable pub receive : ℕ → ℕ → Header → Message → M Gcs (Unit {0})
  unfolding on_manager
  receive now conn h m s =
      recovered
        ((on_manager (with_peer conn (peer_on_packet now h m)) >>= hand (on_packet net p conn)) s)

  -- Loop: a tick each second, one for each order in which the connections are visited. Its error or
  -- panic would be that of Ontick.
  unfoldable loop_ticks : List (List ℕ) → M Gcs (Unit {0})
  loop_ticks [] = pure tt
  loop_ticks (order ∷ orders) = on_tick order >> loop_ticks orders
