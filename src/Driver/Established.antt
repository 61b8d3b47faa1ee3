-- ===== src/Driver/Established.antt =====
-- Packets and ticks of a driver leave an established connection established.
use mini_ray.Base.{
  Bool, none, pure, gets, ◌>>=◌, Option, if◌then◌else◌, refl, arith, M, ok, panics, Bool-cases, ◌∷◌,
  inl, ◌==◌, err, and_then, Result, Option-cases, [], inr, blocks, ap, ◌∙◌, some, false, List, true,
  modify, ℕ, ◌≡◌, nat_eq, bytes_eq,
}
use mini_ray.Driver.{
  file_connection, Driver, on_packet, on_manager, returned, lift, send_to, on_establish,
  on_establish_ack,
}
use mini_ray.Base.Maps.{lookup-insert_self, lookup-insert, lookup}
use mini_ray.Client.{Net}
use mini_ray.Codec.{
  meta_shake_hand, meta_establish_ack, scheduler_submit_task_resp_uri, meta_establish, Header,
}
use mini_ray.External.{Proto}
use mini_ray.Peers.Ticks.{tick_all, tick, shake_hand, send_encoded, is_established}
use mini_ray.Messages.{as_establish_req, as_scheduler_submit_task_resp, EstablishReq, Message}
use mini_ray.Peers.{
  deref, peer_set_established, peer_notify_establish, connection_notify_establish, ignore_result,
  take_seq, connection_send, peer_send, Manager, inbound, Connection, with_peer, Peer,
}

-- Connection k is an incoming object that is established.
abbrev pub Up : ℕ → Manager → Type 0
Up k m = (c : Connection) × (lookup k m.heap ≡ some (inbound c)) × (c.established ≡ true)

-- A call on a connection that leaves an established one established.
abbrev KeepsUp : {A : Type 0} → M Peer A → Type 0
KeepsUp f =
    (c : Connection)
    → c.established ≡ true
    → (c' : Connection) × ((f (inbound c)).1 ≡ inbound c') × (c'.established ≡ true)

and_then-keeps :
    {A B S : Type 0} (P : S → Type 0) (r : Result A × S) (f : A → M S B)
    → P r.1
    → ((a : A) (s : S) → P s → P (f a s).1)
    → P (and_then r f).1
and_then-keeps P (ok a, s) f v h = h a s v
and_then-keeps P (err e, s) f v h = v
and_then-keeps P (panics x, s) f v h = v
and_then-keeps P (blocks, s) f v h = v

module _ (k : ℕ) where
  with_peer-Up :
      {A : Type 0} (j : ℕ) (f : M Peer A) (m : Manager)
      → KeepsUp f
      → Up k m
      → Up k (with_peer j f m).1
  unfolding with_peer
  with_peer-Up j f m h (c, e, up) = elim (Bool-cases (j == k)) [
    | inl same ↦
        let q : j ≡ k = (nat_eq.beq_iff j k).0 same in
        let (c', kept, up') = h c up in
        rw (q, e) (c', lookup-insert_self k (f (inbound c)).1 m.heap ∙ ap some kept, up')
    | inr other ↦ elim (Option-cases (lookup j m.heap)) [
      | inl missing ↦ rw missing (c, e, up)
      | inr (x, found) ↦ rw found (c, lookup-insert j k (f x).1 m.heap ∙ rw other e, up)
    ]
  ]

  ignore-Up : (r : Result (Unit {0}) × Manager) → Up k r.1 → Up k (ignore_result r).1
  ignore-Up (ok u, m) v = v
  ignore-Up (err e, m) v = v
  ignore-Up (panics x, m) v = v
  ignore-Up (blocks, m) v = v

peer_send-KeepsUp : (net : Net) (payload : List ℕ) → KeepsUp (peer_send net payload)
unfolding peer_send connection_send
peer_send-KeepsUp net payload c up = ((connection_send net payload c).1, refl, ground (arith, up))

module _ (net : Net) (p : Proto) (k : ℕ) where
  send_encoded-Up :
      (conn : ℕ) (r : Result (List ℕ)) (m : Manager)
      → Up k m
      → Up k (send_encoded net p take_seq conn r m).1
  unfolding send_encoded
  send_encoded-Up conn (ok payload) m v =
      ignore-Up k (with_peer conn (peer_send net payload) m)
        (with_peer-Up k conn (peer_send net payload) m (peer_send-KeepsUp net payload) v)
  send_encoded-Up conn (err e) m v = v
  send_encoded-Up conn (panics x) m v = v
  send_encoded-Up conn blocks m v = v

  shake_hand-Up :
      (b : Bool) (conn : ℕ) (m : Manager)
      → Up k m
      → Up k ((if b then shake_hand net p take_seq conn else pure tt) m).1
  unfolding shake_hand take_seq
  shake_hand-Up true conn m v = send_encoded-Up conn _ _ v
  shake_hand-Up false conn m v = v

  tick-Up : (conn : ℕ) (m : Manager) → Up k m → Up k (tick net p take_seq conn m).1
  unfolding tick
  tick-Up conn m v =
      and_then-keeps (Up k) (with_peer conn (gets is_established) m) _
        (with_peer-Up k conn (gets is_established) m (λ c up. (c, refl, up)) v)
        (λ b n w. shake_hand-Up b conn n w)

  pub tick_all-Up :
      (order : List ℕ) (m : Manager) → Up k m → Up k (tick_all net p take_seq order m).1
  unfolding tick_all
  tick_all-Up [] m v = v
  tick_all-Up (conn ∷ rest) m v =
      and_then-keeps (Up k) (tick net p take_seq conn m) _ (tick-Up conn m v)
        (λ _ n w. tick_all-Up rest n w)

  pub on_manager-Up :
      {A : Type 0} (f : M Manager A) (d : Driver)
      → Up k (f d.manager).1
      → Up k (on_manager f d).1.manager
  unfolding on_manager returned
  on_manager-Up f d v = v

  send_to-Up :
      (conn : ℕ) (payload : List ℕ) (d : Driver)
      → Up k d.manager
      → Up k (send_to net p conn payload d).1.manager
  unfolding send_to
  send_to-Up conn payload d v =
      on_manager-Up (with_peer conn (peer_send net payload)) d
        (with_peer-Up k conn (peer_send net payload) d.manager (peer_send-KeepsUp net payload) v)

  on_establish-Up :
      (conn : ℕ) (h : Header) (r : EstablishReq) (d : Driver)
      → Up k d.manager
      → Up k (on_establish net p conn h r d).1.manager
  unfolding on_establish lift file_connection
  on_establish-Up conn h r d v =
      and_then-keeps (λ e. Up k e.manager)
        (on_manager (with_peer conn (modify peer_set_established)) d) _
        (on_manager-Up (with_peer conn (modify peer_set_established)) d (
          with_peer-Up k conn (modify peer_set_established) d.manager
            (λ c up. (record c { established = true }, unfold peer_set_established in refl, refl))
            v))
        (λ _ e w.
          and_then-keeps (λ e. Up k e.manager) (_, file_connection r.mode conn e)
            (send_to net p conn) w (λ payload. send_to-Up conn payload))

  on_establish_ack-Up :
      (conn : ℕ) (d : Driver) → Up k d.manager → Up k (on_establish_ack net p conn d).1.manager
  unfolding on_establish_ack
  on_establish_ack-Up conn d v = on_manager-Up (with_peer conn (modify peer_notify_establish)) d (
      with_peer-Up k conn (modify peer_notify_establish) d.manager
        (λ c up. (
          record c { establish_chan = true },
          unfold peer_notify_establish connection_notify_establish in refl,
          up,
        ))
        v)

  deref-Up :
      {A : Type 0} (o : Option A) (f : A → M Driver (Unit {0})) (d : Driver)
      → Up k d.manager
      → ((a : A) → Up k (f a d).1.manager)
      → Up k ((deref o >>= f) d).1.manager
  deref-Up none f d v h = v
  deref-Up (some a) f d v h = h a

  pub on_packet-Up :
      (conn : ℕ) (h : Header) (m : Message) (d : Driver)
      → Up k d.manager
      → Up k (on_packet net p conn h m d).1.manager
  unfolding on_packet
  on_packet-Up conn h m d v = elim (Bool-cases (h.uri == meta_establish)) [
    | inl a ↦ rw a (deref-Up (as_establish_req m) _ d v (λ r. on_establish-Up conn h r d v))
    | inr a ↦ elim (Bool-cases (h.uri == meta_establish_ack)) [
      | inl b ↦ rw (a, b) (on_establish_ack-Up conn d v)
      | inr b ↦ elim (Bool-cases (h.uri == meta_shake_hand)) [
        | inl c ↦ rw (a, b, c) v
        | inr c ↦ elim (Bool-cases (h.uri == scheduler_submit_task_resp_uri)) [
          | inl e ↦ rw (a, b, c, e) (deref-Up (as_scheduler_submit_task_resp m) _ d v (λ r. v))
          | inr e ↦ rw (a, b, c, e) v
        ]
      ]
    ]
  ]
