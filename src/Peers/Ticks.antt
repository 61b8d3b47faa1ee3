-- ===== src/Peers/Ticks.antt =====
-- The rest of an incoming connection, core/*/connection.go: handshakes, ticks, its Loop, and the
-- connections that a node makes itself. A node whose manager has a counter nextSeq numbers its
-- packets with it, the others with nextID: `take` is the one.
use mini_ray.Client.Backoff.{second}
use mini_ray.Base.{
  panics, panic, GoString, ℕ, false, List, err, some, block, ◌∷◌, Result, Bool, pure, modify, M,
  Option, [], true, blocks, ok, ◌>>◌, gets, ◌*◌, if◌then◌else◌, nat_eq, bytes_eq, ◌>>=◌,
}
use mini_ray.Peers.{peer_send, outbound, ignore, take_id, Manager, with_peer, Peer, inbound}
use mini_ray.Base.Maps.{insert, lookup}
use mini_ray.Client.{start, Net, new_connection, with_dial_timeout}
use mini_ray.Codec.{meta_establish, encode_payload, meta_shake_hand}
use mini_ray.External.{Proto}
use mini_ray.Messages.{shake_hand_req, establish_req}

unfoldable pub is_established : Peer → Bool
is_established (inbound c) = c.established
is_established (outbound c) = c.established

module _ (net : Net) (p : Proto) (take : M Manager ℕ) where
  -- Errors of the encoding and of the send are logged only.
  unfoldable pub send_encoded : ℕ → Result (List ℕ) → M Manager (Unit {0})
  send_encoded conn (ok payload) = ignore (with_peer conn (peer_send net payload))
  send_encoded conn (err e) = pure tt
  send_encoded conn (panics x) = panic x
  send_encoded conn blocks = block

  -- Establish; the nodes but the driver leave `mode` 0.
  unfoldable pub establish : GoString → ℕ → ℕ → M Manager (Unit {0})
  establish advertise mode conn = do
    seq ← take
    send_encoded conn (
        encode_payload p (record { uri = meta_establish; seq_id = seq })
          (establish_req (record { addr = advertise; mode = mode })))

  unfoldable pub shake_hand : ℕ → M Manager (Unit {0})
  shake_hand conn = do
    seq ← take
    send_encoded conn
        (encode_payload p (record { uri = meta_shake_hand; seq_id = seq }) shake_hand_req)

  -- Ontick of one connection.
  unfoldable pub tick : ℕ → M Manager (Unit {0})
  unfolding shake_hand
  tick conn = do
    established ← with_peer conn (gets is_established)
    if established then shake_hand conn else pure tt

  -- Ontick of the manager, in the order in which Go visits the connections.
  unfoldable pub tick_all : List ℕ → M Manager (Unit {0})
  unfolding tick
  tick_all [] = pure tt
  tick_all (conn ∷ rest) = tick conn >> tick_all rest

-- Loop takes the notice of an EstablishAck: the connection is established and filed.
unfoldable pub take_notice : ℕ → Manager → Option Peer → Manager
take_notice id m (some (inbound c)) =
    if c.establish_chan
    then record m {
      heap = insert id (inbound (record c { establish_chan = false; established = true })) m.heap;
      conns = insert id id m.conns;
    }
    else m
take_notice id m _ = m

unfoldable pub loop_round : ℕ → Manager → Manager
unfolding take_notice
loop_round id m = take_notice id m (lookup id m.heap)

-- common.ShakeHandTimeout
abbrev pub shake_hand_timeout : ℕ
shake_hand_timeout = 5 * second

-- AddConnection of the scheduler, the GCS and a worker: an outgoing connection that is started.
unfoldable pub add_outgoing : GoString → M Manager ℕ
unfolding take_id new_connection with_dial_timeout start
add_outgoing addr = do
  id ← take_id
  modify (λ m. record m {
    heap =
        insert id
          (outbound (start (new_connection id addr (with_dial_timeout shake_hand_timeout ∷ []))).0)
          m.heap;
  })
  pure id
