-- ===== src/Peers/Alive.antt =====
-- Objects never leave the heap, and methods of connections come back.
use mini_ray.Base.{
  some, List, ℕ, ◌≡◌, M, true, inl, ◌∙◌, ◌==◌, arith, Bool-cases, inr, refl, nat_eq, bytes_eq,
}
use mini_ray.Base.Maps.{Map, insert, lookup, lookup-insert}
use mini_ray.Base.Safety.{returns}
use mini_ray.Client.{Net, send}
use mini_ray.Peers.{inbound, outbound, Peer, peer_send, with_peer, Manager}

-- The number stands for a connection object.
abbrev pub IsAlive : ℕ → Map ℕ Peer → Type 0
IsAlive id heap = (c : Peer) × (lookup id heap ≡ some c)

pub IsAlive-insert :
    (id j : ℕ) (c : Peer) (heap : Map ℕ Peer) → IsAlive id heap → IsAlive id (insert j c heap)
IsAlive-insert id j c heap (d, h) = elim (Bool-cases (j == id)) [
  | inl same ↦ (c, lookup-insert j id c heap ∙ rw same refl)
  | inr other ↦ (d, lookup-insert j id c heap ∙ rw other h)
]

pub peer_send-returns :
    (net : Net) (payload : List ℕ) (c : Peer) → returns (peer_send net payload c).0 ≡ true
unfolding peer_send send
peer_send-returns net payload (inbound c) = ground arith
peer_send-returns net payload (outbound c) = ground arith

-- What a call of a connection's method leaves: the connection anew, under its number.
pub with_peer-alive :
    {A : Type 0} (id : ℕ) (f : M Peer A) (m : Manager)
    → ((c : Peer) → returns (f c).0 ≡ true)
    → IsAlive id m.heap
    → (c : Peer) × ((with_peer id f m).1 ≡ record m { heap = insert id c m.heap })
      × (returns (with_peer id f m).0 ≡ true)
unfolding with_peer
with_peer-alive id f m h (d, e) = rw e ((f d).1, refl, h d)
