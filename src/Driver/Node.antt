-- ===== src/Driver/Node.antt =====
-- The driver as a gnet event engine: OnOpen, OnClose, OnTraffic and Ontick of
-- core/driver/connection_manager.go, and what its connections send of core/driver/connection.go.
use mini_ray.Base.{M, Bool, List, ℕ, GoString}
use mini_ray.Driver.{add_connection, on_manager, Driver, on_packet, mode_driver}
use mini_ray.Client.{Net}
use mini_ray.External.{Reader, Proto}
use mini_ray.Peers.{empty_manager, Manager, take_seq, on_open, on_close}
use mini_ray.Peers.Ticks.{tick_all, establish}
use mini_ray.Traffic.{Action, stay, on_traffic, Served}

-- NewConnectionManager.
unfoldable pub new_manager : Manager
unfolding empty_manager
new_manager = empty_manager

-- OnBoot does nothing but a log line.
abbrev pub on_boot : Action
on_boot = stay

unfoldable pub accept : GoString → M Driver ℕ
unfolding on_manager
accept remote = on_manager (on_open remote)

unfoldable pub forget : ℕ → Driver → Driver
forget id d = record d { manager = on_close id d.manager }

-- ConnectToScheduler and ConnectToGCS of core/driver/driver.go do the same.
unfoldable connect_to_scheduler : GoString → M Driver ℕ
unfolding add_connection
connect_to_scheduler addr = add_connection addr

unfoldable connect_to_gcs : GoString → M Driver ℕ
unfolding add_connection
connect_to_gcs addr = add_connection addr

module _ (net : Net) (p : Proto) where
  unfoldable pub traffic : {C : Type 0} → Reader C → Bool → Bool → ℕ → C → Driver → Served C Driver
  traffic g started known conn = on_traffic g p (on_packet net p conn) started known

  -- Handshakes and Establish take their numbers from nextSeq.
  unfoldable pub on_tick : List ℕ → M Driver (Unit {0})
  unfolding on_manager
  on_tick order = on_manager (tick_all net p take_seq order)

  -- Establish of a connection, with the address that the driver advertises and its mode.
  unfoldable pub greet : GoString → ℕ → M Driver (Unit {0})
  unfolding on_manager
  greet advertise conn = on_manager (establish net p take_seq advertise mode_driver conn)
