-- ===== src/Peers/Tabled.antt =====
-- The manager's table of connections names connection objects.
use mini_ray.Base.{
  sym, take, refl, Option-cases, ◌^◌, ℕ, All, ◌≡◌, Option, Bool-cases, ◌==◌, ok, ◌%◌, subst, List,
  GoString, ◌∷◌, blocks, ◌+◌, inr, M, [], false, some, arith, err, true, Result, inl, panics, gets,
  none, nat_eq, bytes_eq,
}
use mini_ray.Peers.{
  take_seq, outbound, take_id, inbound, Manager, with_peer, ignore_result, on_close, Peer,
  peer_send, on_open, incoming,
}
use mini_ray.Peers.Alive.{with_peer-alive, IsAlive, IsAlive-insert}
use mini_ray.Peers.Grows.{tick_all-Proceeds, Proceeds, Grows}
use mini_ray.Peers.Ticks.{
  is_established, loop_round, tick_all, take_notice, tick, shake_hand, add_outgoing, send_encoded,
}
use mini_ray.Base.Maps.{lookup-delete, insert, lookup-insert_self, Map, lookup, lookup-insert}
use mini_ray.Base.Safety.{returns, if-Keeps, Keeps, >>=-Keeps}
use mini_ray.Client.{Net}
use mini_ray.External.{Proto}

abbrev pub IsFiled : Manager → Type 0
IsFiled m = (k id : ℕ) → lookup k m.conns ≡ some id → IsAlive id m.heap

-- The connections to visit are values of the table.
abbrev pub Tabled : Manager → List ℕ → Type 0
Tabled m order = All (λ id. (k : ℕ) × (lookup k m.conns ≡ some id)) order

Tabled-IsAlive :
    (m : Manager) (order : List ℕ)
    → IsFiled m
    → Tabled m order
    → All (λ id. IsAlive id m.heap) order
Tabled-IsAlive m [] v h = tt
Tabled-IsAlive m (id ∷ order) v ((k, e), h) = (v k id e, Tabled-IsAlive m order v h)

pub renewed-IsFiled :
    (m : Manager) (id : ℕ) (c : Peer) → IsFiled m → IsFiled (record m { heap = insert id c m.heap })
renewed-IsFiled m id c v k i e = IsAlive-insert i id c m.heap (v k i e)

pub with_peer-IsFiled :
    {A : Type 0} (id : ℕ) (f : M Peer A) (m : Manager)
    → ((c : Peer) → returns (f c).0 ≡ true)
    → IsAlive id m.heap
    → IsFiled m
    → IsFiled (with_peer id f m).1
with_peer-IsFiled id f m h alive v =
    let (c, e, back) = with_peer-alive id f m h alive in
    subst IsFiled (sym e) (renewed-IsFiled m id c v)

-- A new entry names an object.
filed-IsFiled :
    (m : Manager) (id : ℕ)
    → IsFiled m
    → IsAlive id m.heap
    → IsFiled (record m { conns = insert id id m.conns })
filed-IsFiled m id v alive k i e = elim (Bool-cases (id == k)) [
  | inl same ↦
      let found : some id ≡ some i = rw (lookup-insert id k id m.conns, same) at e in
      subst (λ i. IsAlive i m.heap) (cc found) alive
  | inr other ↦ v k i (rw (lookup-insert id k id m.conns, other) at e)
]

pub on_open-IsFiled : (remote : GoString) (m : Manager) → IsFiled m → IsFiled (on_open remote m).1
unfolding on_open take_id
on_open-IsFiled remote m v =
    let id : ℕ = (m.next_id + 1) % 2 ^ 64 in
    filed-IsFiled
      (record m { next_id = id; heap = insert id (inbound (incoming id remote)) m.heap }) id
      (renewed-IsFiled m id (inbound (incoming id remote)) v)
      (inbound (incoming id remote), lookup-insert_self id (inbound (incoming id remote)) m.heap)

pub on_close-IsFiled : (id : ℕ) (m : Manager) → IsFiled m → IsFiled (on_close id m)
unfolding on_close
on_close-IsFiled id m v k i e = elim (Bool-cases (id == k)) [
  | inl same ↦
      let gone : none ≡ some i = rw (lookup-delete id k m.conns, same) at e in absurd (ground arith)
  | inr other ↦ v k i (rw (lookup-delete id k m.conns, other) at e)
]

pub add_outgoing-IsFiled :
    (addr : GoString) (m : Manager) → IsFiled m → IsFiled (add_outgoing addr m).1
unfolding add_outgoing take_id
add_outgoing-IsFiled addr m v = renewed-IsFiled m _ _ v

pub loop_round-Grows : (id : ℕ) (m : Manager) → Grows m (loop_round id m)
unfolding loop_round take_notice
loop_round-Grows id m i alive = go (lookup id m.heap)
  where
    go : (o : Option Peer) → IsAlive i (take_notice id m o).heap
    go none = alive
    go (some (outbound c)) = alive
    go (some (inbound c)) = elim (Bool-cases c.establish_chan) [
      | inl full ↦ rw full (IsAlive-insert i id _ m.heap alive)
      | inr empty ↦ rw empty alive
    ]

pub loop_round-IsFiled : (id : ℕ) (m : Manager) → IsFiled m → IsFiled (loop_round id m)
unfolding loop_round
loop_round-IsFiled id m v = go (lookup id m.heap)
  where
    go : (o : Option Peer) → IsFiled (take_notice id m o)
    go none = v
    go (some (outbound c)) = v
    go (some (inbound c)) = elim (Bool-cases c.establish_chan) [
      | inl full ↦
          let c' : Peer = inbound (record c { establish_chan = false; established = true }) in
          rw full (
            filed-IsFiled (record m { heap = insert id c' m.heap }) id (renewed-IsFiled m id c' v)
              (c', lookup-insert_self id c' m.heap))
      | inr empty ↦ rw empty v
    ]

-- The calls that leave the table as it is keep it on objects, losing none.
table-IsFiled : (m n : Manager) → IsFiled m → n.conns ≡ m.conns → Grows m n → IsFiled n
table-IsFiled m n v e grow k id f =
    grow id (v k id (subst (λ (t : Map ℕ ℕ). lookup k t ≡ some id) e f))

pub take_seq-Same : (t : Map ℕ ℕ) → Keeps (λ (m : Manager). m.conns ≡ t) take_seq
unfolding take_seq
take_seq-Same t m e = e

pub take_id-Same : (t : Map ℕ ℕ) → Keeps (λ (m : Manager). m.conns ≡ t) take_id
unfolding take_id
take_id-Same t m e = e

module _ (net : Net) (p : Proto) (take : M Manager ℕ) (t : Map ℕ ℕ)
    (take-Keeps : Keeps (λ (m : Manager). m.conns ≡ t) take) where
  -- The table is this one.
  abbrev Same : Manager → Type 0
  Same m = m.conns ≡ t

  with_peer-Same : {A : Type 0} (id : ℕ) (f : M Peer A) → Keeps Same (with_peer id f)
  unfolding with_peer
  with_peer-Same id f m e = elim (Option-cases (lookup id m.heap)) [
    | inl missing ↦ rw missing e
    | inr (c, found) ↦ rw found e
  ]

  send_encoded-Same : (conn : ℕ) (r : Result (List ℕ)) → Keeps Same (send_encoded net p take conn r)
  unfolding send_encoded
  send_encoded-Same conn (ok payload) m e =
      go (with_peer conn (peer_send net payload) m)
        (with_peer-Same conn (peer_send net payload) m e)
    where
      go : (r : Result (Unit {0}) × Manager) → Same r.1 → Same (ignore_result r).1
      go (ok u, n) h = h
      go (err x, n) h = h
      go (panics x, n) h = h
      go (blocks, n) h = h
  send_encoded-Same conn (err x) m e = e
  send_encoded-Same conn (panics x) m e = e
  send_encoded-Same conn blocks m e = e

  tick-Same : (conn : ℕ) → Keeps Same (tick net p take conn)
  unfolding tick shake_hand
  tick-Same conn =
      >>=-Keeps Same (with_peer conn (gets is_established)) _
        (with_peer-Same conn (gets is_established))
        (λ established.
          if-Keeps Same established _ _
            (>>=-Keeps Same take _ take-Keeps (λ seq. send_encoded-Same conn _)) (λ m e. e))

  tick_all-Same : (order : List ℕ) → Keeps Same (tick_all net p take order)
  unfolding tick_all
  tick_all-Same [] = λ m e. e
  tick_all-Same (conn ∷ order) =
      >>=-Keeps Same (tick net p take conn) _ (tick-Same conn) (λ _. tick_all-Same order)

-- A tick over the table comes back, loses no object and leaves the table on objects.
pub tick_all-IsFiled :
    (net : Net) (p : Proto) (take : M Manager ℕ)
    → ((m : Manager) → Proceeds m (take m))
    → ((t : Map ℕ ℕ) → Keeps (λ (m : Manager). m.conns ≡ t) take)
    → (order : List ℕ) (m : Manager) → IsFiled m
    → Tabled m order
    → Proceeds m (tick_all net p take order m) × IsFiled (tick_all net p take order m).1
tick_all-IsFiled net p take proceeds same order m v tabled =
    let went = tick_all-Proceeds net p take proceeds order m (Tabled-IsAlive m order v tabled) in
    (
      went,
      table-IsFiled m (tick_all net p take order m).1 v
          (tick_all-Same net p take m.conns (same m.conns) order m refl) went.0,
    )
