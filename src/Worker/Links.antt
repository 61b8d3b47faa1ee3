-- ===== src/Worker/Links.antt =====
-- core/worker/connection.go: what an incoming connection of a worker does through its manager, and
-- writeFull. The rest is in Peers, Peers/Ticks and Peers/Transports.
use mini_ray.Peers.Ticks.{loop_round}
use mini_ray.Base.{ℕ, List, modify, Option, Result, M}
use mini_ray.Worker.{Worker}
use mini_ray.Worker.Packets.{on_manager, on_packet}
use mini_ray.Client.{Net}
use mini_ray.Codec.{Header}
use mini_ray.External.{Proto, Writer}
use mini_ray.Link.Write.{write_full}
use mini_ray.Messages.{Message}
use mini_ray.Peers.{peer_set_established, with_peer}

unfoldable pub marks_established : ℕ → M Worker (Unit {0})
unfolding on_manager
marks_established conn = on_manager (with_peer conn (modify peer_set_established))

-- writeFull.
unfoldable pub writes : {W : Type 0} → Writer W → List ℕ → W → Option (Result (Unit {0}) × W)
unfolding write_full
writes o bytes w = write_full o bytes w

-- A round of Loop that takes the notice of an EstablishAck, if there is one.
unfoldable pub notice : ℕ → Worker → Worker
notice id w = record w { manager = loop_round id w.manager }

module _ (net : Net) (p : Proto) where
  -- OnPacket of an incoming connection, at a time.
  unfoldable pub takes_packet : ℕ → ℕ → Header → Message → M Worker (Unit {0})
  takes_packet now conn h m = on_packet net p now conn h m
