-- ===== src/Peers/Heartbeat/Apart.antt =====
-- A tick of other connections leaves a connection as it is.
use mini_ray.Base.{
  ==_apart, err, ◌∙◌, Result, All, ℕ, panics, M, inl, ◌≡◌, ◌∷◌, some, [], ◌≢◌, inr, ok, gets, List,
  blocks, Option-cases, nat_eq, bytes_eq,
}
use mini_ray.Peers.{
  Peer, ignore_result, with_peer, inbound, peer_send, Connection, Manager, take_id,
}
use mini_ray.Peers.Ticks.{tick_all, tick, is_established, shake_hand, send_encoded}
use mini_ray.Base.Maps.{lookup, lookup-insert}
use mini_ray.Base.Safety.{>>=-Keeps, if-Keeps, Keeps}
use mini_ray.Client.{Net}
use mini_ray.External.{Proto}

-- The number stands for this connection.
abbrev pub At : ℕ → Connection → Manager → Type 0
At id c m = lookup id m.heap ≡ some (inbound c)

module _ (net : Net) (p : Proto) where
  -- A call on another connection.
  with_peer-At :
      {A : Type 0} (other id : ℕ) (c : Connection) (f : M Peer A)
      → other ≢ id
      → Keeps (At id c) (with_peer other f)
  unfolding with_peer
  with_peer-At other id c f apart m v = elim (Option-cases (lookup other m.heap)) [
    | inl missing ↦ rw missing v
    | inr (d, found) ↦
        rw found (lookup-insert other id (f d).1 m.heap ∙ rw (==_apart other id apart) v)
  ]

  send_encoded-At :
      (other id : ℕ) (c : Connection) (r : Result (List ℕ))
      → other ≢ id
      → Keeps (At id c) (send_encoded net p take_id other r)
  unfolding send_encoded
  send_encoded-At other id c (ok payload) apart m v =
      go (with_peer other (peer_send net payload) m)
        (with_peer-At other id c (peer_send net payload) apart m v)
    where
      go : (r : Result (Unit {0}) × Manager) → At id c r.1 → At id c (ignore_result r).1
      go (ok u, n) h = h
      go (err x, n) h = h
      go (panics x, n) h = h
      go (blocks, n) h = h
  send_encoded-At other id c (err e) apart m v = v
  send_encoded-At other id c (panics x) apart m v = v
  send_encoded-At other id c blocks apart m v = v

  take_id-At : (id : ℕ) (c : Connection) → Keeps (At id c) take_id
  unfolding take_id
  take_id-At id c m v = v

  tick-At :
      (other id : ℕ) (c : Connection) → other ≢ id → Keeps (At id c) (tick net p take_id other)
  unfolding tick shake_hand
  tick-At other id c apart =
      >>=-Keeps (At id c) (with_peer other (gets is_established)) _
        (with_peer-At other id c (gets is_established) apart)
        (λ established.
          if-Keeps (At id c) established _ _
            (>>=-Keeps (At id c) take_id _ (take_id-At id c)
              (λ seq. send_encoded-At other id c _ apart))
            (λ m v. v))

  pub tick_all-At :
      (order : List ℕ) (id : ℕ) (c : Connection)
      → All (λ other. other ≢ id) order
      → Keeps (At id c) (tick_all net p take_id order)
  unfolding tick_all
  tick_all-At [] id c apart = λ m v. v
  tick_all-At (other ∷ order) id c (here, apart) =
      >>=-Keeps (At id c) (tick net p take_id other) _ (tick-At other id c here)
        (λ _. tick_all-At order id c apart)
