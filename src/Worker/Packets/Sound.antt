-- ===== src/Worker/Packets/Sound.antt =====
-- What is kept of a worker, and the calls through its connection manager that keep it.
use mini_ray.Peers.Tabled.{IsFiled, with_peer-IsFiled}
use mini_ray.Base.{
  err, ℕ, ◌≡◌, panics, M, ◌>>=◌, true, blocks, All, Result, some, arith, ok, List, length, refl,
  ◌≤◌,
}
use mini_ray.Worker.{Object, get_object, Worker}
use mini_ray.Worker.Packets.{send_to, on_manager, returned, lift}
use mini_ray.Base.Safety.{Lands, >>=-Safe, result-Safe, returns, Safe}
use mini_ray.Client.{Net}
use mini_ray.Codec.{encode_payload, Header}
use mini_ray.External.{Proto}
use mini_ray.Messages.{Message}
use mini_ray.Peers.{Peer, Manager, ignore_result, ignore, peer_send, with_peer}
use mini_ray.Peers.Alive.{peer_send-returns, IsAlive}
use mini_ray.Peers.Grows.{with_peer-Proceeds, Proceeds, Grows}

-- The GCS connection is alive, the channel of results is within its capacity, and every result on it
-- is stored; and the manager's table names living connections.
pub record IsSound (w : Worker) : Type 0 where
  pub gcs : (id : ℕ) → w.gcs_conn ≡ some id → IsAlive id w.manager.heap
  pub bounded : length w.register_chan ≤ w.register_chan_size
  pub stored : All (λ id. (o : Object) × (get_object id w ≡ some o)) w.register_chan
  pub filed : IsFiled w.manager

-- The same, with a connection in hand.
abbrev pub Holds : ℕ → Worker → Type 0
Holds conn w = IsSound w × IsAlive conn w.manager.heap

pub on_manager-Holds :
    {A : Type 0} (f : M Manager A) (w : Worker)
    → IsSound w
    → Proceeds w.manager (f w.manager)
    → IsFiled (f w.manager).1
    → IsSound (on_manager f w).1
      × (returns (on_manager f w).0 ≡ true)
      × Grows w.manager (on_manager f w).1.manager
unfolding on_manager returned get_object
on_manager-Holds f w v (grow, back) filed = (
  record {
    gcs = λ id e. grow id (v.gcs id e);
    bounded = v.bounded;
    stored = v.stored;
    filed = filed;
  },
  back,
  grow,
)

pub on_manager-Safe :
    {A : Type 0} (conn : ℕ) (f : M Manager A)
    → ((m : Manager) → IsAlive conn m.heap → IsFiled m → Proceeds m (f m) × IsFiled (f m).1)
    → Safe (Holds conn) (on_manager f)
on_manager-Safe conn f h w (v, alive) =
    let (went, filed) = h w.manager alive v.filed in
    let (kept, back, grow) = on_manager-Holds f w v went filed in ((kept, grow conn alive), back)

pub on_peer-Safe :
    {A : Type 0} (conn : ℕ) (f : M Peer A)
    → ((c : Peer) → returns (f c).0 ≡ true)
    → Safe (Holds conn) (on_manager (with_peer conn f))
on_peer-Safe conn f h = on_manager-Safe conn (with_peer conn f) (λ m alive filed.
    (with_peer-Proceeds conn f m h alive, with_peer-IsFiled conn f m h alive filed))

pub ignore-Safe {ℓ} : (P : Worker → Type ℓ) (m : M Worker (Unit {0})) → Safe P m → Safe P (ignore m)
ignore-Safe P m h w v = go (m w) (h w v)
  where
    go : (r : Result (Unit {0}) × Worker) → Lands P r → Lands P (ignore_result r)
    go (ok u, w) l = l
    go (err e, w) l = (l.0, refl)
    go (panics x, w) l = absurd (ground arith)
    go (blocks, w) l = absurd (ground arith)

module _ (net : Net) (p : Proto) (conn : ℕ) where
  pub send_to-Safe : (payload : List ℕ) → Safe (Holds conn) (send_to net p conn payload)
  unfolding send_to
  send_to-Safe payload = on_peer-Safe conn (peer_send net payload) (peer_send-returns net payload)

  pub lift-Safe : {A : Type 0} (r : Result A) → returns r ≡ true → Safe (Holds conn) (lift r)
  unfolding lift
  lift-Safe r back = result-Safe (Holds conn) r back

  pub encode-returns : (h : Header) (m : Message) → returns (encode_payload p h m) ≡ true
  unfolding encode_payload
  encode-returns h m = ground arith

  pub answer-Safe :
      (h : Header) (m : Message)
      → Safe (Holds conn) (lift (encode_payload p h m) >>= send_to net p conn)
  answer-Safe h m =
      >>=-Safe (Holds conn) (lift (encode_payload p h m)) (send_to net p conn)
        (lift-Safe (encode_payload p h m) (encode-returns h m)) send_to-Safe
