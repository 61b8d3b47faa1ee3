-- ===== src/Peers/Hands.antt =====
-- What a connection hands to its manager is the packet that it got, and a manager that takes the
-- packet well takes the delivery well, whether or not it recovers from a panic.
use mini_ray.Peers.Alive.{IsAlive}
use mini_ray.Client.Packets.Passes.{Passes, on_packet-Passes}
use mini_ray.Base.Safety.{returns, Lands}
use mini_ray.Base.{
  sym, ◌≡◌, true, arith, subst, recovered, M, and_then, panics, err, Result, blocks, ok, ℕ, refl,
  nat_eq, bytes_eq,
}
use mini_ray.Peers.{Manager, with_peer, outbound, Peer, inbound, on_outbound}
use mini_ray.Peers.Deliver.{hand, peer_on_packet}
use mini_ray.Client.Packets.{Delivery, absorbed, handed_over}
use mini_ray.Codec.{Header}
use mini_ray.Messages.{Message}

peer_on_packet-Passes :
    (now : ℕ) (h : Header) (m : Message) (c : Peer) → Passes h m (peer_on_packet now h m c).0
unfolding peer_on_packet on_outbound
peer_on_packet-Passes now h m (inbound c) = (refl, refl)
peer_on_packet-Passes now h m (outbound c) = on_packet-Passes now h m c

recovered_state : {S : Type 0} (r : Result (Unit {0}) × S) → (recovered r).1 ≡ r.1
recovered_state (ok u, s) = refl
recovered_state (err e, s) = refl
recovered_state (panics x, s) = refl
recovered_state (blocks, s) = refl

-- However the delivery ends, what holds of the state before it and of that after the packet holds.
pub delivered-kept {ℓ κ} :
    {S : Type 0} (P : S → Type ℓ) (Q : S → Type κ) (r : Result Delivery × S)
    (f : Header → Message → M S (Unit {0}))
    → P r.1
    → ((s : S) → P s → Q s)
    → ((h : Header) (m : Message) (s : S) → P s → Q (f h m s).1)
    → Q (recovered (and_then r (hand f))).1
delivered-kept P Q (ok absorbed, s) f v h k = h s v
delivered-kept P Q (ok (handed_over a m), s) f v h k =
    subst Q (sym (recovered_state (f a m s))) (k a m s v)
delivered-kept P Q (err e, s) f v h k = h s v
delivered-kept P Q (panics x, s) f v h k = h s v
delivered-kept P Q (blocks, s) f v h k = h s v

module _ {ℓ} {S : Type 0} (P : S → Type ℓ) where
  pub recovered-Lands : (r : Result (Unit {0}) × S) → Lands P r → Lands P (recovered r)
  recovered-Lands (ok u, s) l = l
  recovered-Lands (err e, s) l = l
  recovered-Lands (panics x, s) l = absurd (ground arith)
  recovered-Lands (blocks, s) l = absurd (ground arith)

  pub delivered-Lands :
      (h : Header) (m : Message) (f : Header → Message → M S (Unit {0})) (r : Result Delivery × S)
      → Passes h m r.0
      → Lands P r
      → ((s : S) → P s → Lands P (recovered (f h m s)))
      → Lands P (recovered (and_then r (hand f)))
  delivered-Lands h m f (ok absorbed, s) e l safe = (l.0, refl)
  delivered-Lands h m f (ok (handed_over k n), s) (eh, em) l safe =
      subst (λ (k : Header). Lands P (recovered (f k n s))) eh
        (subst (λ (n : Message). Lands P (recovered (f h n s))) em (safe s l.0))
  delivered-Lands h m f (err e, s) q l safe = l
  delivered-Lands h m f (panics x, s) q l safe = absurd q
  delivered-Lands h m f (blocks, s) q l safe = absurd q

pub with_peer-Passes :
    (now conn : ℕ) (h : Header) (m : Message) (s : Manager)
    → IsAlive conn s.heap
    → Passes h m (with_peer conn (peer_on_packet now h m) s).0
unfolding with_peer
with_peer-Passes now conn h m s (c, e) = rw e (peer_on_packet-Passes now h m c)

pub peer_on_packet-returns :
    (now : ℕ) (h : Header) (m : Message) (c : Peer) → returns (peer_on_packet now h m c).0 ≡ true
peer_on_packet-returns now h m c = go (peer_on_packet now h m c).0 (peer_on_packet-Passes now h m c)
  where
    go : (r : Result Delivery) → Passes h m r → returns r ≡ true
    go (ok d) q = refl
    go (err e) q = refl
    go (panics x) q = absurd q
    go blocks q = absurd q
