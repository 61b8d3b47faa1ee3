-- ===== src/Peers/Grows.antt =====
-- Calls of a connection manager come back, and lose no connection object.
use mini_ray.Base.{
  All, pure, [], if◌then◌else◌, blocks, Bool, M, arith, and_then, true, List, err, subst, false,
  ◌≡◌, Result, refl, ◌∷◌, panics, GoString, gets, ℕ, ok, sym,
}
use mini_ray.Peers.{take_seq, Peer, take_id, peer_send, with_peer, on_open, Manager, ignore_result}
use mini_ray.Peers.Alive.{peer_send-returns, IsAlive-insert, IsAlive, with_peer-alive}
use mini_ray.Peers.Ticks.{send_encoded, tick_all, tick, is_established, shake_hand, add_outgoing}
use mini_ray.Base.Safety.{returns}
use mini_ray.Client.{Net}
use mini_ray.Codec.{encode_payload, Header}
use mini_ray.External.{Proto}
use mini_ray.Messages.{Message, shake_hand_req}

-- Every object of the first manager is one of the second.
abbrev pub Grows : Manager → Manager → Type 0
Grows m n = (id : ℕ) → IsAlive id m.heap → IsAlive id n.heap

abbrev pub Proceeds : {A : Type 0} → Manager → Result A × Manager → Type 0
Proceeds m r = Grows m r.1 × (returns r.0 ≡ true)

and_then-Proceeds :
    {A B : Type 0} (m : Manager) (r : Result A × Manager) (f : A → M Manager B)
    → Proceeds m r
    → ((a : A) (n : Manager) → Grows m n → Proceeds n (f a n))
    → Proceeds m (and_then r f)
and_then-Proceeds m (ok a, n) f (grow, back) h =
    let (more, again) = h a n grow in (λ id alive. more id (grow id alive), again)
and_then-Proceeds m (err e, n) f h k = h
and_then-Proceeds m (panics x, n) f h k = absurd (ground arith)
and_then-Proceeds m (blocks, n) f h k = absurd (ground arith)

ignore_result-Proceeds :
    (m : Manager) (r : Result (Unit {0}) × Manager) → Proceeds m r → Proceeds m (ignore_result r)
ignore_result-Proceeds m (ok u, n) h = h
ignore_result-Proceeds m (err e, n) h = (h.0, refl)
ignore_result-Proceeds m (panics x, n) h = absurd (ground arith)
ignore_result-Proceeds m (blocks, n) h = absurd (ground arith)

pub with_peer-Proceeds :
    {A : Type 0} (id : ℕ) (f : M Peer A) (m : Manager)
    → ((c : Peer) → returns (f c).0 ≡ true)
    → IsAlive id m.heap
    → Proceeds m (with_peer id f m)
with_peer-Proceeds id f m h alive =
    let (c, e, r) = with_peer-alive id f m h alive in
    (λ i a. subst (λ (n : Manager). IsAlive i n.heap) (sym e) (IsAlive-insert i id c m.heap a), r)

pub take_id-Proceeds : (m : Manager) → Proceeds m (take_id m)
unfolding take_id
take_id-Proceeds m = (λ i a. a, refl)

pub take_seq-Proceeds : (m : Manager) → Proceeds m (take_seq m)
unfolding take_seq
take_seq-Proceeds m = (λ i a. a, refl)

pub on_open-Proceeds : (remote : GoString) (m : Manager) → Proceeds m (on_open remote m)
unfolding on_open take_id
on_open-Proceeds remote m = (λ i a. IsAlive-insert i _ _ m.heap a, refl)

pub add_outgoing-Proceeds : (addr : GoString) (m : Manager) → Proceeds m (add_outgoing addr m)
unfolding add_outgoing take_id
add_outgoing-Proceeds addr m = (λ i a. IsAlive-insert i _ _ m.heap a, refl)

module _ (net : Net) (p : Proto) (take : M Manager ℕ)
    (take-Proceeds : (m : Manager) → Proceeds m (take m)) where
  send_encoded-Proceeds :
      (conn : ℕ) (r : Result (List ℕ)) (m : Manager)
      → returns r ≡ true
      → IsAlive conn m.heap
      → Proceeds m (send_encoded net p take conn r m)
  unfolding send_encoded
  send_encoded-Proceeds conn (ok payload) m back alive =
      ignore_result-Proceeds m (with_peer conn (peer_send net payload) m)
        (with_peer-Proceeds conn (peer_send net payload) m (peer_send-returns net payload) alive)
  send_encoded-Proceeds conn (err e) m back alive = (λ i a. a, refl)
  send_encoded-Proceeds conn (panics x) m back alive = absurd (ground arith)
  send_encoded-Proceeds conn blocks m back alive = absurd (ground arith)

  encode-returns : (h : Header) (msg : Message) → returns (encode_payload p h msg) ≡ true
  unfolding encode_payload
  encode-returns h msg = ground arith

  shake_hand-Proceeds :
      (conn : ℕ) (m : Manager) → IsAlive conn m.heap → Proceeds m (shake_hand net p take conn m)
  unfolding shake_hand
  shake_hand-Proceeds conn m alive = and_then-Proceeds m (take m) _ (take-Proceeds m) (λ seq n grow.
      send_encoded-Proceeds conn _ n (encode-returns _ shake_hand_req) (grow conn alive))

  pub tick-Proceeds :
      (conn : ℕ) (m : Manager) → IsAlive conn m.heap → Proceeds m (tick net p take conn m)
  unfolding tick
  tick-Proceeds conn m alive =
      and_then-Proceeds m (with_peer conn (gets is_established) m) _
        (with_peer-Proceeds conn (gets is_established) m (λ c. refl) alive)
        (λ established n grow. shake_if established n (grow conn alive))
    where
      shake_if :
          (b : Bool) (n : Manager)
          → IsAlive conn n.heap
          → Proceeds n ((if b then shake_hand net p take conn else pure tt) n)
      shake_if true n a = shake_hand-Proceeds conn n a
      shake_if false n a = (λ i a. a, refl)

  pub tick_all-Proceeds :
      (order : List ℕ) (m : Manager)
      → All (λ id. IsAlive id m.heap) order
      → Proceeds m (tick_all net p take order m)
  unfolding tick_all
  tick_all-Proceeds [] m alive = (λ i a. a, refl)
  tick_all-Proceeds (conn ∷ order) m (here, alive) =
      and_then-Proceeds m (tick net p take conn m) _ (tick-Proceeds conn m here)
        (λ _ n grow. tick_all-Proceeds order n (kept order n grow alive))
    where
      kept :
          (order : List ℕ) (n : Manager)
          → Grows m n
          → All (λ id. IsAlive id m.heap) order
          → All (λ id. IsAlive id n.heap) order
      kept [] n grow h = tt
      kept (i ∷ is) n grow (a, h) = (grow i a, kept is n grow h)
