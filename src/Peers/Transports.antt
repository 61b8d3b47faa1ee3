-- ===== src/Peers/Transports.antt =====
-- The two transports of a connection of core/worker/connection.go, of which an accepted connection has
-- the one of gnet, and a connection that the driver dials the net.Conn.
use mini_ray.Base.{ℕ, if◌then◌else◌, err, some, List, Result, Option, none, no_net_conn}
use mini_ray.Peers.{Connection}
use mini_ray.Link.{read_frame}

pub data Transport : Type 0 where
  over_gnet over_net : Transport

-- readFrame, on the bytes that the net.Conn delivers, where there is one.
unfoldable pub read_frame_of : Option (List ℕ) → Result (List ℕ) × Option (List ℕ)
unfolding read_frame
read_frame_of none = (err no_net_conn, none)
read_frame_of (some bs) = let (r, rest) = read_frame bs in (r, some rest)

-- The transport that Close closes.
unfoldable pub closed_transport : Connection → Option Transport
closed_transport c = if c.gnet_c then some over_gnet else if c.net_c then some over_net else none
