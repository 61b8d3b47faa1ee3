-- ===== src/Scheduler/Sound.antt =====
-- What is kept of a scheduler, and the calls through its connection manager that keep it.
use mini_ray.Peers.Tabled.{renewed-IsFiled, IsFiled}
use mini_ray.Client.{Net}
use mini_ray.Codec.{Header, encode_payload}
use mini_ray.External.{Proto}
use mini_ray.Messages.{Message}
use mini_ray.Base.{
  ◌==◌, ok, err, blocks, panics, Bool-cases, subst, refl, inl, sym, arith, ◌>>=◌, inr, ◌∷◌, List, ℕ,
  Result, length, ◌≤◌, true, [], All, M, ◌≡◌, GoString, some, nat_eq, bytes_eq,
}
use mini_ray.Base.Maps.{lookup-insert, lookup, insert, Map}
use mini_ray.Base.Safety.{>>=-Safe, Lands, result-Safe, Safe, returns}
use mini_ray.Peers.Alive.{peer_send-returns, IsAlive-insert, IsAlive, with_peer-alive}
use mini_ray.Peers.{ignore_result, ignore, peer_send, take_id, with_peer, Peer, Manager}
use mini_ray.Scheduler.{Scheduler, on_manager, returned, lift, send_to}

-- The channel is within its capacity, and every connection that a table names is alive.
pub record IsSound (s : Scheduler) : Type 0 where
  pub bounded : length s.task_chan ≤ s.task_chan_size
  pub workers :
      (k : GoString) (id : ℕ) → lookup k s.worker_conns ≡ some id → IsAlive id s.manager.heap
  pub gcs : (k : GoString) (id : ℕ) → lookup k s.gcs_conns ≡ some id → IsAlive id s.manager.heap
  pub filed : IsFiled s.manager

-- The same, with connections in hand.
abbrev pub Holds : List ℕ → Scheduler → Type 0
Holds ids s = IsSound s × All (λ id. IsAlive id s.manager.heap) ids

All-IsAlive :
    (ids : List ℕ) (j : ℕ) (c : Peer) (heap : Map ℕ Peer)
    → All (λ id. IsAlive id heap) ids
    → All (λ id. IsAlive id (insert j c heap)) ids
All-IsAlive [] j c heap h = tt
All-IsAlive (i ∷ ids) j c heap (a, h) = (IsAlive-insert i j c heap a, All-IsAlive ids j c heap h)

module _ (ids : List ℕ) where
  renewed-Holds :
      (s : Scheduler) (id : ℕ) (c : Peer)
      → Holds ids s
      → Holds ids (record s { manager = record s.manager { heap = insert id c s.manager.heap } })
  renewed-Holds s id c (v, h) = (
    record {
      bounded = v.bounded;
      workers = λ k i e. IsAlive-insert i id c s.manager.heap (v.workers k i e);
      gcs = λ k i e. IsAlive-insert i id c s.manager.heap (v.gcs k i e);
      filed = renewed-IsFiled s.manager id c v.filed;
    },
    All-IsAlive ids id c s.manager.heap h,
  )

  returned-Lands :
      {A : Type 0} (s : Scheduler) (id : ℕ) (c : Peer) (r : Result A × Manager)
      → Holds ids s
      → r.1 ≡ record s.manager { heap = insert id c s.manager.heap }
      → returns r.0 ≡ true
      → Lands (Holds ids) (returned s r)
  unfolding returned
  returned-Lands s id c (r, m) v e h = (
    subst (λ (m : Manager). Holds ids (record s { manager = m })) (sym e) (renewed-Holds s id c v),
    h,
  )

  pub on_peer-Safe :
      {A : Type 0} (conn : ℕ) (f : M Peer A)
      → ((c : Peer) → returns (f c).0 ≡ true)
      → ((s : Scheduler) → Holds ids s → IsAlive conn s.manager.heap)
      → Safe (Holds ids) (on_manager (with_peer conn f))
  unfolding on_manager
  on_peer-Safe conn f h alive s v =
      let (c, e, r) = with_peer-alive conn f s.manager h (alive s v) in
      returned-Lands s conn c (with_peer conn f s.manager) v e r

  pub send_to-Safe :
      (net : Net) (p : Proto) (conn : ℕ) (payload : List ℕ)
      → ((s : Scheduler) → Holds ids s → IsAlive conn s.manager.heap)
      → Safe (Holds ids) (send_to net p conn payload)
  unfolding send_to
  send_to-Safe net p conn payload alive =
      on_peer-Safe conn (peer_send net payload) (peer_send-returns net payload) alive

  encode-returns : (p : Proto) (h : Header) (m : Message) → returns (encode_payload p h m) ≡ true
  unfolding encode_payload
  encode-returns p h m = ground arith

  pub take_id-Safe : Safe (Holds ids) (on_manager take_id)
  unfolding on_manager returned take_id
  take_id-Safe s (v, h) =
      ((record { bounded = v.bounded; workers = v.workers; gcs = v.gcs; filed = v.filed }, h), refl)

  pub encode_then-Safe :
      (net : Net) (p : Proto) (h : Header) (m : Message) (conn : ℕ)
      → ((s : Scheduler) → Holds ids s → IsAlive conn s.manager.heap)
      → Safe (Holds ids) (lift (encode_payload p h m) >>= send_to net p conn)
  unfolding lift
  encode_then-Safe net p h m conn alive =
      >>=-Safe (Holds ids) (λ s. (encode_payload p h m, s)) (send_to net p conn)
        (result-Safe (Holds ids) (encode_payload p h m) (encode-returns p h m))
        (λ payload. send_to-Safe net p conn payload alive)

-- A table that gets a living connection names living connections only.
pub inserted :
    (remote : GoString) (conn : ℕ) (table : Map GoString ℕ) (heap : Map ℕ Peer)
    → ((k : GoString) (id : ℕ) → lookup k table ≡ some id → IsAlive id heap)
    → IsAlive conn heap
    → (k : GoString) (id : ℕ) → lookup k (insert remote conn table) ≡ some id
    → IsAlive id heap
inserted remote conn table heap h alive k id e = elim (Bool-cases (remote == k)) [
  | inl same ↦
      let found : some conn ≡ some id = rw (lookup-insert remote k conn table, same) at e in
      subst (λ i. IsAlive i heap) (cc found) alive
  | inr other ↦ h k id (rw (lookup-insert remote k conn table, other) at e)
]

pub ignore-Safe :
    (ids : List ℕ) (m : M Scheduler (Unit {0})) → Safe (Holds ids) m → Safe (Holds ids) (ignore m)
ignore-Safe ids m h s v = go (m s) (h s v)
  where
    go :
        (r : Result (Unit {0}) × Scheduler)
        → Lands (Holds ids) r
        → Lands (Holds ids) (ignore_result r)
    go (ok u, s) l = l
    go (err e, s) l = (l.0, refl)
    go (panics x, s) l = absurd (ground arith)
    go (blocks, s) l = absurd (ground arith)
