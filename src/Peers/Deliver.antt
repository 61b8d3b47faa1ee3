-- ===== src/Peers/Deliver.antt =====
-- OnPacket of the two kinds of connections: an incoming one hands every packet to its manager, an
-- outgoing one hands on what OnPacket of common/client_conn.go lets through.
use mini_ray.Base.{pure, ok, ℕ, M}
use mini_ray.Peers.{outbound, inbound, Peer, on_outbound}
use mini_ray.Client.Packets.{absorbed, on_packet, handed_over, Delivery}
use mini_ray.Codec.{Header}
use mini_ray.Messages.{Message}

unfoldable pub peer_on_packet : ℕ → Header → Message → M Peer Delivery
unfolding on_outbound
peer_on_packet now h m (inbound c) = (ok (handed_over h m), inbound c)
peer_on_packet now h m (outbound c) = on_outbound (on_packet now h m c)

-- HandlePacket of a manager that passes packets on to its OnPacket.
abbrev pub hand : {S : Type 0} → (Header → Message → M S (Unit {0})) → Delivery → M S (Unit {0})
hand f absorbed = pure tt
hand f (handed_over h m) = f h m
