-- ===== src/Peers.antt =====
-- The connections of a node: the connection objects with their identities, and the manager's table.
-- An incoming connection is a `connection` of core/*/connection.go, an outgoing one the `connection`
-- of common/client_conn.go; handlers use either through the interface common.Connection. Objects
-- stand in a heap, under the numbers that `nextID` gave them, so that an alias is a number.
pub mod Alive
pub mod Ticks
pub mod Grows
pub mod Deliver
pub mod Hands
pub mod Heartbeat
pub mod Tabled
pub mod Transports
use mini_ray.Base.{
  nat_eq, bytes_eq, err, nil_deref, pure, some, Bool, GoString, List, false, ◌%◌, none, ◌∷◌, M,
  no_transport, write_failed, Option, ◌+◌, ◌^◌, if◌then◌else◌, [], ◌||◌, modify, ok, true, panics,
  Result, ℕ, ◌>>=◌, ◌>>◌,
}
use mini_ray.Base.Maps.{insert, delete, Map, lookup}
use mini_ray.Frame.{make_frame}
use mini_ray.Client.{set_established, send, Net, Client}

-- core/worker/connection.go; the copies in core/gcs and core/scheduler have the same fields.
-- `establish_chan` says whether the channel of capacity one is full. `outbox` holds the frames that
-- were handed to the transport, the newest first.
pub record Connection : Type 0 where
  pub id : ℕ
  pub remote : GoString
  pub gnet_c : Bool
  pub net_c : Bool
  pub established : Bool
  pub establish_chan : Bool
  pub outbox : List (List ℕ)

unfoldable pub incoming : ℕ → GoString → Connection
incoming id remote = record {
  id = id;
  remote = remote;
  gnet_c = true;
  net_c = false;
  established = false;
  establish_chan = false;
  outbox = [];
}

-- The answer of the transport is that of `writeFull` or of `AsyncWrite`.
unfoldable pub connection_send : Net → List ℕ → M Connection (Unit {0})
connection_send net payload c =
    let c' = record c { outbox = make_frame payload ∷ c.outbox } in
    if c.net_c || c.gnet_c
    then if net c.id c'.outbox then (ok tt, c') else (err write_failed, c')
    else (err no_transport, c)

-- A full channel is left as it is.
unfoldable pub connection_notify_establish : Connection → Connection
connection_notify_establish c = record c { establish_chan = true }

pub data Peer : Type 0 where
  inbound : Connection → Peer
  outbound : Client → Peer

pub on_inbound : {A : Type 0} → Result A × Connection → Result A × Peer
on_inbound (r, c) = (r, inbound c)

pub on_outbound : {A : Type 0} → Result A × Client → Result A × Peer
on_outbound (r, c) = (r, outbound c)

unfoldable pub peer_remote : Peer → GoString
peer_remote (inbound c) = c.remote
peer_remote (outbound c) = c.endpoint

unfoldable pub peer_send : Net → List ℕ → M Peer (Unit {0})
unfolding connection_send on_inbound on_outbound
peer_send net payload (inbound c) = on_inbound (connection_send net payload c)
peer_send net payload (outbound c) = on_outbound (send net payload c)

unfoldable pub peer_set_established : Peer → Peer
unfolding set_established
peer_set_established (inbound c) = inbound (record c { established = true })
peer_set_established (outbound c) = outbound (set_established c)

unfoldable pub peer_notify_establish : Peer → Peer
unfolding set_established connection_notify_establish
peer_notify_establish (inbound c) = inbound (connection_notify_establish c)
peer_notify_establish (outbound c) = outbound (set_established c)

-- `conns` is the manager's sync.Map from numbers to connections.
pub record Manager : Type 0 where
  pub next_id : ℕ
  pub next_seq : ℕ
  pub heap : Map ℕ Peer
  pub conns : Map ℕ ℕ

unfoldable pub empty_manager : Manager
empty_manager = record { next_id = 0; next_seq = 0; heap = []; conns = [] }

-- `atomic.AddUint64(&cm.nextID, 1)`
unfoldable pub take_id : M Manager ℕ
take_id m = let id = (m.next_id + 1) % 2 ^ 64 in (ok id, record m { next_id = id })

-- `atomic.AddUint64(&cm.nextSeq, 1)`, of the managers that count sequence numbers apart.
unfoldable pub take_seq : M Manager ℕ
take_seq m = let seq = (m.next_seq + 1) % 2 ^ 64 in (ok seq, record m { next_seq = seq })

on_peer : {A : Type 0} → ℕ → Manager → Result A × Peer → Result A × Manager
on_peer id m (r, c) = (r, record m { heap = insert id c m.heap })

-- A method call on the connection with this number; a call through a nil interface panics.
with_peer_at : {A : Type 0} → ℕ → M Peer A → Option Peer → M Manager A
unfolding on_peer
with_peer_at id f none m = (panics nil_deref, m)
with_peer_at id f (some c) m = on_peer id m (f c)

unfoldable pub with_peer : {A : Type 0} → ℕ → M Peer A → M Manager A
unfolding with_peer_at
with_peer id f m = with_peer_at id f (lookup id m.heap) m

-- OnOpen of the connection managers, for the peer's address. It returns no bytes and gnet.None.
unfoldable pub on_open : GoString → M Manager ℕ
unfolding take_id incoming
on_open remote = do
  id ← take_id
  modify (λ m. record m {
    heap = insert id (inbound (incoming id remote)) m.heap;
    conns = insert id id m.conns;
  })
  pure id

-- OnClose of the connection managers.
unfoldable pub on_close : ℕ → Manager → Manager
on_close id m = record m { conns = delete id m.conns }

-- A pointer that a type assertion may have left nil.
abbrev pub deref : {S A : Type 0} → Option A → M S A
deref none s = (panics nil_deref, s)
deref (some a) s = (ok a, s)

-- A call whose error value is not looked at.
abbrev pub ignore_result : {S : Type 0} → Result (Unit {0}) × S → Result (Unit {0}) × S
ignore_result (err e, s) = (ok tt, s)
ignore_result (r, s) = (r, s)

abbrev pub ignore : {S : Type 0} → M S (Unit {0}) → M S (Unit {0})
ignore m s = ignore_result (m s)
