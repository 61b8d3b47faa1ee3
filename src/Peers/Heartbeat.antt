-- ===== src/Peers/Heartbeat.antt =====
-- Ontick of a manager that numbers its packets with nextID, exactly: which connections get a handshake.
mod Apart
use mini_ray.Peers.Heartbeat.Apart.{At, tick_all-At}
use mini_ray.Peers.Grows.{Grows, take_id-Proceeds, tick-Proceeds}
use mini_ray.Peers.Alive.{with_peer-alive, peer_send-returns, IsAlive}
use mini_ray.Gcs.{returned}
use mini_ray.Messages.{shake_hand_req, Message}
use mini_ray.Base.{
  sym, and_then, false, ap, ==_apart, ◌%◌, refl, ◌+◌, arith, ◌^◌, true, Bool-cases, err, ◌∙◌,
  Result, All, ℕ, panics, M, inl, if◌then◌else◌, ◌≡◌, ◌++◌, ◌∷◌, some, [], ◌≢◌, inr, ok, gets, List,
  blocks, Option-cases, nat_eq, bytes_eq,
}
use mini_ray.Peers.{
  connection_send, Peer, ignore_result, with_peer, inbound, peer_send, Connection, Manager, take_id,
}
use mini_ray.Peers.Ticks.{tick_all, tick, is_established, shake_hand, send_encoded}
use mini_ray.Base.Maps.{lookup-insert_self, insert, lookup, lookup-insert}
use mini_ray.Base.Safety.{and_then-Keeps, returns, >>=-Keeps, if-Keeps, Keeps}
use mini_ray.Client.{Net}
use mini_ray.Codec.{Header, encode_payload, meta_shake_hand}
use mini_ray.Codec.Endian.{put_uint}
use mini_ray.External.{Proto}
use mini_ray.Frame.{make_frame}

-- The frame of a handshake under a number.
abbrev pub beat_frame : List ℕ → ℕ → List ℕ
beat_frame body seq = make_frame (put_uint 2 meta_shake_hand ++ (put_uint 8 seq ++ body))

-- A connection after Ontick: an established one has been handed a handshake, another one nothing.
abbrev pub beaten : List ℕ → ℕ → Connection → Connection
beaten body seq c =
    if c.established then record c { outbox = beat_frame body seq ∷ c.outbox } else c

module _ (net : Net) (p : Proto) where
  -- Errors of a handshake are not passed on.
  send_encoded-ok :
      (conn : ℕ) (r : Result (List ℕ)) (m : Manager)
      → returns r ≡ true
      → IsAlive conn m.heap
      → (send_encoded net p take_id conn r m).0 ≡ ok tt
  unfolding send_encoded
  send_encoded-ok conn (ok payload) m back alive =
      let (c, e, returned) =
        with_peer-alive conn (peer_send net payload) m (peer_send-returns net payload) alive in
      go (with_peer conn (peer_send net payload) m) returned
    where
      go : (r : Result (Unit {0}) × Manager) → returns r.0 ≡ true → (ignore_result r).0 ≡ ok tt
      go (ok u, n) h = refl
      go (err x, n) h = refl
      go (panics x, n) h = absurd (ground arith)
      go (blocks, n) h = absurd (ground arith)
  send_encoded-ok conn (err e) m back alive = refl
  send_encoded-ok conn (panics x) m back alive = absurd (ground arith)
  send_encoded-ok conn blocks m back alive = absurd (ground arith)

  encode-returns : (h : Header) (msg : Message) → returns (encode_payload p h msg) ≡ true
  unfolding encode_payload
  encode-returns h msg = ground arith

  -- After the look at whether it is established.
  abbrev looked : ℕ → Peer → Manager → Manager
  looked id d m = record m { heap = insert id d m.heap }

  abbrev numbered : Manager → Manager
  numbered m = record m { next_id = (m.next_id + 1) % 2 ^ 64 }

  abbrev beat_of : Manager → Result (List ℕ)
  beat_of m =
      encode_payload p (record { uri = meta_shake_hand; seq_id = (m.next_id + 1) % 2 ^ 64 })
        shake_hand_req

  tick-up :
      (id : ℕ) (d : Peer) (m : Manager)
      → lookup id m.heap ≡ some d
      → is_established d ≡ true
      → tick net p take_id id m
        ≡ send_encoded net p take_id id (beat_of m) (numbered (looked id d m))
  unfolding tick shake_hand with_peer take_id
  tick-up id d m e up = rw (e, up) refl

  tick-down :
      (id : ℕ) (d : Peer) (m : Manager)
      → lookup id m.heap ≡ some d
      → is_established d ≡ false
      → tick net p take_id id m ≡ (ok tt, looked id d m)
  unfolding tick with_peer
  tick-down id d m e down = rw (e, down) refl

  tick-ok : (id : ℕ) (m : Manager) → IsAlive id m.heap → (tick net p take_id id m).0 ≡ ok tt
  tick-ok id m (d, e) = elim (Bool-cases (is_established d)) [
    | inl up ↦
        ap (λ r. r.0) (tick-up id d m e up)
        ∙ send_encoded-ok id (beat_of m) (numbered (looked id d m))
            (encode-returns _ shake_hand_req) (d, lookup-insert_self id d m.heap)
    | inr down ↦ ap (λ r. r.0) (tick-down id d m e down)
  ]

  -- Ticks over connection objects come back without an error, and go on to what follows.
  tick_all-append :
      (before after : List ℕ) (m : Manager)
      → All (λ id. IsAlive id m.heap) before
      → tick_all net p take_id (before ++ after) m
        ≡ tick_all net p take_id after (tick_all net p take_id before m).1
  unfolding tick_all
  tick_all-append [] after m alive = refl
  tick_all-append (id ∷ before) after m (here, alive) =
      let went = tick-Proceeds net p take_id take_id-Proceeds id m here in
      step (tick net p take_id id m) (tick-ok id m here)
      ∙ tick_all-append before after (tick net p take_id id m).1 (kept before went.0 alive)
      ∙ ap (λ (n : Manager). tick_all net p take_id after n)
          (sym (state (tick net p take_id id m) (tick-ok id m here)))
    where
      step :
          (r : Result (Unit {0}) × Manager)
          → r.0 ≡ ok tt
          → and_then r (λ _. tick_all net p take_id (before ++ after))
            ≡ tick_all net p take_id (before ++ after) r.1
      step (ok u, n) h = refl
      step (err x, n) h = cc
      step (panics x, n) h = cc
      step (blocks, n) h = cc

      state :
          (r : Result (Unit {0}) × Manager)
          → r.0 ≡ ok tt
          → (and_then r (λ _. tick_all net p take_id before)).1
            ≡ (tick_all net p take_id before r.1).1
      state (ok u, n) h = refl
      state (err x, n) h = cc
      state (panics x, n) h = cc
      state (blocks, n) h = cc

      kept :
          (order : List ℕ)
          → Grows m (tick net p take_id id m).1
          → All (λ i. IsAlive i m.heap) order
          → All (λ i. IsAlive i (tick net p take_id id m).1.heap) order
      kept [] grow h = tt
      kept (i ∷ is) grow (a, h) = (grow i a, kept is grow h)

  sent : List ℕ → Connection → Connection
  sent payload c = record c { outbox = make_frame payload ∷ c.outbox }

  -- Whether or not the transport takes it.
  send_encoded-sent :
      (id : ℕ) (c : Connection) (payload : List ℕ) (m : Manager)
      → c.gnet_c ≡ true
      → At id c m
      → send_encoded net p take_id id (ok payload) m
        ≡ (ok tt, looked id (inbound (sent payload c)) m)
  unfolding send_encoded with_peer peer_send connection_send sent
  send_encoded-sent id c payload m transport e = rw e (ground arith)

  encoded :
      (h : Header) (body : List ℕ)
      → p.marshal shake_hand_req ≡ some body
      → encode_payload p h shake_hand_req ≡ ok (put_uint 2 h.uri ++ (put_uint 8 h.seq_id ++ body))
  unfolding encode_payload
  encoded h body marshals = rw (encode_payload, marshals) refl

  -- Ontick of one connection.
  tick-beats :
      (id : ℕ) (c : Connection) (body : List ℕ) (m : Manager)
      → p.marshal shake_hand_req ≡ some body
      → c.gnet_c ≡ true
      → At id c m
      → At id (beaten body ((m.next_id + 1) % 2 ^ 64) c) (tick net p take_id id m).1
  unfolding is_established sent
  tick-beats id c body m marshals transport e = elim (Bool-cases c.established) [
    | inl up ↦
        let mid : Manager = numbered (looked id (inbound c) m) in
        let here : At id c mid = lookup-insert_self id (inbound c) m.heap in
        ap (λ r. lookup id r.1.heap)
          (tick-up id (inbound c) m e up
            ∙ ap (λ r. send_encoded net p take_id id r mid) (encoded _ body marshals)
            ∙ send_encoded-sent id c _ mid transport here)
        ∙ lookup-insert_self id _ mid.heap
        ∙ ap
            (λ b. some (
              inbound (
                if b
                then record c { outbox = beat_frame body ((m.next_id + 1) % 2 ^ 64) ∷ c.outbox }
                else c)))
            (sym up)
    | inr down ↦
        ap (λ r. lookup id r.1.heap) (tick-down id (inbound c) m e down)
        ∙ lookup-insert_self id (inbound c) m.heap
        ∙ ap
            (λ b. some (
              inbound (
                if b
                then record c { outbox = beat_frame body ((m.next_id + 1) % 2 ^ 64) ∷ c.outbox }
                else c)))
            (sym down)
  ]

  -- A tick of a manager that numbers its packets with nextID visits connection objects, one of them
  -- exactly once, an incoming one with a gnet connection; the handshake can be marshalled. Then
  -- that connection, if it is established, has been handed exactly one more frame, the one of a
  -- handshake under some number, whether or not the transports take what they are handed, and
  -- otherwise nothing; and nothing else of it has changed.
  pub tick_all-beats :
      (before after : List ℕ) (id : ℕ) (c : Connection) (body : List ℕ) (m : Manager)
      → p.marshal shake_hand_req ≡ some body
      → All (λ other. IsAlive other m.heap) before
      → All (λ other. other ≢ id) before
      → All (λ other. other ≢ id) after
      → lookup id m.heap ≡ some (inbound c)
      → c.gnet_c ≡ true
      → (seq : ℕ) × (lookup id (tick_all net p take_id (before ++ (id ∷ after)) m).1.heap
          ≡ some (inbound (beaten body seq c)))
  unfolding tick_all
  tick_all-beats before after id c body m marshals alive apart_before apart_after e transport =
      let there : Manager = (tick_all net p take_id before m).1 in
      let here : At id c there = tick_all-At net p before id c apart_before m e in
      let seq : ℕ = (there.next_id + 1) % 2 ^ 64 in
      (
        seq,
        ap (λ r. lookup id r.1.heap) (tick_all-append before (id ∷ after) m alive)
            ∙ and_then-Keeps (At id (beaten body seq c)) (tick net p take_id id there) _
                (tick-beats id c body there marshals transport here)
                (λ _. tick_all-At net p after id (beaten body seq c) apart_after),
      )
