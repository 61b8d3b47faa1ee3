-- ===== src/Client/Recover.antt =====
-- A loop that goes on can get a new connection established, whatever happened to it before.
use mini_ray.Client.Dials.{dialed, enter-open}
use mini_ray.Client.Packets.Sent.{on_packet_ack}
use mini_ray.Codec.Endian.{put_uint}
use mini_ray.Base.{
  blocks, panics, List, ◌%◌, ap, ◌∙◌, ok, Result, ◌^◌, err, ◌+◌, codes, subst, ◌++◌, none, refl,
  inr, inl, arith, Option-cases, Option, true, ◌≡◌, false, ℕ, some, Bool,
}
use mini_ray.Client.{
  wait_close, stop, hour, dial_once, notify_reconnect, on_tick, Net, Client, send_establish,
  maybe_shake,
}
use mini_ray.Client.Loop.{
  client_of, sub_cancelled, context_done, here, stopped, closes, breaks, ticks, stops_waiting,
  redials, dial_fails, receives, unstarted, next, dials, Reach, send_establish_lem, entered, Phase,
  is_return, Step, enter, waiting, inner, at, top, exited, Loop,
}
use mini_ray.Client.Packets.{rejection, on_packet}
use mini_ray.Codec.{meta_establish, meta_establish_ack, Header, encode_payload}
use mini_ray.External.{Proto}
use mini_ray.Messages.{establish_response, establish_req, Message}

abbrev is_some : Option Bool → Bool
is_some none = false
is_some (some b) = true

-- In the inner loop there is a subCtx to cancel; a loop that has returned was stopped.
abbrev Lives : Loop → Type 0
Lives (at inner c) = is_some c.sub_done ≡ true
Lives (at exited c) = c.started ≡ false
Lives (at top c) = Unit {0}
Lives (at waiting c) = Unit {0}

notify_reconnect-is_some : (c : Client) → is_some (notify_reconnect c).sub_done ≡ is_some c.sub_done
unfolding notify_reconnect
notify_reconnect-is_some c = elim (Option-cases c.sub_done) [
  | inl e ↦ rw e refl
  | inr (b, e) ↦ rw e refl
]

notify_reconnect-sub_cancelled :
    (c : Client) → is_some c.sub_done ≡ true → sub_cancelled (notify_reconnect c) ≡ true
unfolding notify_reconnect
notify_reconnect-sub_cancelled c e = elim (Option-cases c.sub_done) [
  | inl q ↦ absurd (ground arith)
  | inr (b, q) ↦ rw q (ground arith)
]

module _ (net : Net) (p : Proto) where
  send_establish-sub_done :
      (now mode : ℕ) (c : Client) → (send_establish net p now mode c).1.sub_done ≡ c.sub_done
  unfolding send_establish encode_payload
  send_establish-sub_done now mode c = ground arith

  maybe_shake-is_some :
      (now : ℕ) (c : Client) → is_some (maybe_shake net p now c).sub_done ≡ is_some c.sub_done
  unfolding maybe_shake encode_payload
  maybe_shake-is_some now c = ground (arith, notify_reconnect-is_some c)

  on_tick-is_some : (now : ℕ) (c : Client) → is_some (on_tick now c).sub_done ≡ is_some c.sub_done
  unfolding on_tick
  on_tick-is_some now c = ground (arith, notify_reconnect-is_some c)

on_packet-is_some :
    (now : ℕ) (h : Header) (m : Message) (c : Client)
    → is_some (on_packet now h m c).1.sub_done ≡ is_some c.sub_done
unfolding on_packet
on_packet-is_some now h m c = elim (Option-cases (rejection m)) [
  | inl accepted ↦ ground (arith, notify_reconnect-is_some c)
  | inr (text, rejected) ↦ ground (arith, notify_reconnect-is_some c)
]

on_packet-started :
    (now : ℕ) (h : Header) (m : Message) (c : Client) → (on_packet now h m c).1.started ≡ c.started
unfolding on_packet
on_packet-started now h m c = elim (Option-cases (rejection m)) [
  | inl accepted ↦ ground arith
  | inr (text, rejected) ↦ ground arith
]

entered-Lives :
    (r : Result (Unit {0}) × Client)
    → is_return r.0 ≡ true
    → is_some r.1.sub_done ≡ true
    → Lives (entered r)
unfolding entered
entered-Lives (ok u, c) back sub = sub
entered-Lives (err e, c) back sub = tt
entered-Lives (panics x, c) back sub = absurd (ground arith)
entered-Lives (blocks, c) back sub = absurd (ground arith)

phase-Lives :
    (ph : Phase) (c c' : Client)
    → is_some c'.sub_done ≡ is_some c.sub_done
    → (c.started ≡ false → c'.started ≡ false)
    → Lives (at ph c)
    → Lives (at ph c')
phase-Lives top c c' sub st v = tt
phase-Lives waiting c c' sub st v = tt
phase-Lives inner c c' sub st v = sub ∙ v
phase-Lives exited c c' sub st v = st v

stop-is_some : (c : Client) → is_some (stop c).sub_done ≡ is_some c.sub_done
unfolding stop
stop-is_some c = ground (arith, notify_reconnect-is_some c)

module _ (net : Net) (p : Proto) (mode : ℕ) where
  Step-Lives : {l m : Loop} → Step net p mode l m → Lives l → Lives m
  unfolding enter dial_once notify_reconnect stop
  Step-Lives (unstarted c s) v = s
  Step-Lives (context_done c d) v = refl
  Step-Lives (dial_fails c now s d) v = tt
  Step-Lives (dials c now h s d) v =
      let e : Client = record c {
        raw_conn = some h;
        last_recv = now;
        last_sent = now;
        next_dial = now + hour;
        sub_done = some false;
      } in
      let (raw, est, back) = send_establish_lem net p now mode h e refl in
      entered-Lives (send_establish net p now mode e) back
        (ap is_some (send_establish-sub_done net p now mode e))
  Step-Lives (redials c) v = tt
  Step-Lives (stops_waiting c d) v = refl
  Step-Lives (ticks c now) v =
      maybe_shake-is_some net p now (on_tick now c) ∙ on_tick-is_some net p now c ∙ v
  Step-Lives (breaks c d) v = tt
  Step-Lives (receives {ph} c now h m) v =
      phase-Lives ph c _ (on_packet-is_some now h m c) (λ e. on_packet-started now h m c ∙ e) v
  Step-Lives (closes {ph} c) v =
      phase-Lives ph c (notify_reconnect c) (notify_reconnect-is_some c) (λ e. e) v
  Step-Lives (stopped {ph} c) v = phase-Lives ph c (stop c) (stop-is_some c) (λ e. ground arith) v

  Reach-Lives : (c : Client) (l : Loop) → Reach net p mode (at top c) l → Lives l
  Reach-Lives c l here = tt
  Reach-Lives c l (next {m} r s) = Step-Lives s (Reach-Lives c m r)

  module _ (taken : (id : ℕ) (frames : List (List ℕ)) → net id frames ≡ true) where
    -- From the top of a round: a dial, and the answer to Establish.
    from_top :
        (l : Loop) (now now' h seq peer : ℕ) (body : List ℕ) (c : Client)
        → p.marshal (establish_req (record { addr = c.local_addr; mode = mode })) ≡ some body
        → Reach net p mode l (at top c)
        → c.started ≡ true
        → c.ctx_done ≡ false
        → (c' : Client) × Reach net p mode l (at inner c')
          × (c'.raw_conn ≡ some h)
          × (c'.established ≡ true)
          × (c'.failure ≡ 0)
    unfolding encode_payload
    from_top l now now' h seq peer body c marshals r s d =
        let n : ℕ = (c.seq_id + 1) % 2 ^ 64 in
        let bytes : List ℕ = put_uint 2 meta_establish ++ (put_uint 8 n ++ body) in
        let encoded : encode_payload p (record { uri = meta_establish; seq_id = n })
              (establish_req (record { addr = c.local_addr; mode = mode }))
            ≡ ok bytes =
          rw (encode_payload, marshals) refl in
        let there : Step net p mode (at top c) (at inner (dialed now h bytes c)) =
          subst (Step net p mode (at top c))
            (enter-open net p mode now h bytes c encoded (taken c.id _)) (dials c now h s d) in
        let ack = on_packet_ack now' seq peer (dialed now h bytes c) in
        (
          _,
          next (next r there) (
              receives (dialed now h bytes c) now'
                (record { uri = meta_establish_ack; seq_id = seq })
                (establish_response (record { mode = peer; error = codes "OK" }))),
          ap (λ q. q.1.raw_conn) ack,
          ap (λ q. q.1.established) ack,
          ap (λ q. q.1.failure) ack,
        )

    from_inner :
        (l : Loop) (now now' h seq peer : ℕ) (body : List ℕ) (c : Client)
        → p.marshal (establish_req (record { addr = c.local_addr; mode = mode })) ≡ some body
        → Reach net p mode l (at inner c)
        → is_some c.sub_done ≡ true
        → c.started ≡ true
        → c.ctx_done ≡ false
        → (c' : Client) × Reach net p mode l (at inner c')
          × (c'.raw_conn ≡ some h)
          × (c'.established ≡ true)
          × (c'.failure ≡ 0)
    unfolding wait_close
    from_inner l now now' h seq peer body c marshals r sub s d =
        from_top l now now' h seq peer body (wait_close (notify_reconnect c))
          (unfold notify_reconnect in marshals)
          (next (next r (closes c))
            (breaks (notify_reconnect c) (notify_reconnect-sub_cancelled c sub)))
          (unfold notify_reconnect in s) (unfold notify_reconnect in d)

    by_phase :
        (ph : Phase) (now now' h seq peer : ℕ) (body : List ℕ) (c : Client)
        → p.marshal (establish_req (record { addr = c.local_addr; mode = mode })) ≡ some body
        → Lives (at ph c)
        → c.started ≡ true
        → c.ctx_done ≡ false
        → (c' : Client) × Reach net p mode (at ph c) (at inner c')
          × (c'.raw_conn ≡ some h)
          × (c'.established ≡ true)
          × (c'.failure ≡ 0)
    by_phase top now now' h seq peer body c marshals v s d =
        from_top (at top c) now now' h seq peer body c marshals here s d
    by_phase waiting now now' h seq peer body c marshals v s d =
        from_top (at waiting c) now now' h seq peer body c marshals (next here (redials c)) s d
    by_phase inner now now' h seq peer body c marshals v s d =
        from_inner (at inner c) now now' h seq peer body c marshals here v s d
    by_phase exited now now' h seq peer body c marshals v s d = absurd (ground arith)

    -- In every state that the loop of an outgoing connection reaches from its start, while it is
    -- started and its context is not done, it can go on to its inner loop with any new gnet
    -- connection, established and without failures: if a dial gives that gnet connection, Establish
    -- can be marshalled, the transports take what is written, and the peer answers Establish
    -- without an error.
    pub Reach-recovers :
        (c : Client) (l : Loop) (now now' h seq peer : ℕ) (body : List ℕ)
        → p.marshal (establish_req (record { addr = (client_of l).local_addr; mode = mode }))
          ≡ some body
        → Reach net p mode (at top c) l
        → (client_of l).started ≡ true
        → (client_of l).ctx_done ≡ false
        → (c' : Client) × Reach net p mode l (at inner c')
          × (c'.raw_conn ≡ some h)
          × (c'.established ≡ true)
          × (c'.failure ≡ 0)
    Reach-recovers c (at ph d) now now' h seq peer body marshals r s running =
        by_phase ph now now' h seq peer body d marshals (Reach-Lives c (at ph d) r) s running
