-- ===== src/Client/Loop.antt =====
-- Loop of common/client_conn.go as a step relation, with what happens beside it: packets and closes
-- on gnet's thread, and Stop. Dialing, making subCtx and sending Establish are one step.
use mini_ray.Base.{
  ◌⊎◌, Bool-cases, ◌∙◌, refl, ok, blocks, some, inl, Option-cases, inr, arith, panics, ◌||◌, ◌≡◌,
  err, none, false, Bool, ℕ, true, Result,
}
use mini_ray.Client.Packets.{on_packet_establishes, on_packet, rejection}
use mini_ray.Codec.{meta_establish_ack, Header, encode_payload}
use mini_ray.External.{Proto}
use mini_ray.Messages.{Message}
use mini_ray.Client.{
  maybe_shake, on_tick, dial_once, stop, Net, notify_reconnect, wait_close, send_establish, Client,
}

-- Where the loop is: before a dial, waiting to dial again, in the inner loop, or returned.
pub data Phase : Type 0 where
  top waiting inner exited : Phase

pub data Loop : Type 0 where
  at : Phase → Client → Loop

-- `<-c.subCtx.Done()`: cancelled itself, or with its parent.
abbrev pub sub_cancelled : Client → Bool
sub_cancelled c = c.ctx_done || elim c.sub_done [ none ↦ false | some b ↦ b ]

-- `c.subCtx, c.subCancel = context.WithCancel(c.ctx)`
abbrev fresh_sub : Client → Client
fresh_sub c = record c { sub_done = some false }

abbrev pub client_of : Loop → Client
client_of (at ph c) = c

-- `_ = c.rawConn.Close(); c.rawConn = nil`
abbrev pub dropped : Client → Client
dropped c = record c { raw_conn = none }

abbrev pub quit : Client → Client
quit c = record c { started = false }

unfoldable pub entered : Result (Unit {0}) × Client → Loop
entered (ok _, c) = at inner c
entered (err _, c) = at top (dropped c)
entered (panics _, c) = at exited c
entered (blocks, c) = at exited c

module _ (net : Net) (p : Proto) (mode : ℕ) where
  -- After a dial that gave a connection.
  unfoldable pub enter : ℕ → ℕ → Client → Loop
  unfolding entered dial_once
  enter now h c = entered (send_establish net p now mode (fresh_sub (dial_once now (some h) c).1))

  pub data Step : Loop → Loop → Type 0 where
    -- `for c.started.IsSet()` ends, or `<-c.ctx.Done()` at the top of a round.
    unstarted : (c : Client) → c.started ≡ false → Step (at top c) (at exited c)
    context_done : (c : Client) → c.ctx_done ≡ true → Step (at top c) (at exited (quit c))
    dial_fails :
        (c : Client) (now : ℕ)
        → c.started ≡ true
        → c.ctx_done ≡ false
        → Step (at top c) (at waiting (dial_once now none c).1)
    dials :
        (c : Client) (now h : ℕ)
        → c.started ≡ true
        → c.ctx_done ≡ false
        → Step (at top c) (enter now h c)
    redials : (c : Client) → Step (at waiting c) (at top c)
    stops_waiting : (c : Client) → c.ctx_done ≡ true → Step (at waiting c) (at exited (quit c))
    ticks :
        (c : Client) (now : ℕ)
        → Step (at inner c) (at inner (maybe_shake net p now (on_tick now c)))
    breaks : (c : Client) → sub_cancelled c ≡ true → Step (at inner c) (at top (wait_close c))
    -- Beside the loop: a packet, a close by the peer, a call of Stop.
    receives :
        {ph : Phase} (c : Client) (now : ℕ) (h : Header) (m : Message)
        → Step (at ph c) (at ph (on_packet now h m c).1)
    closes : {ph : Phase} (c : Client) → Step (at ph c) (at ph (notify_reconnect c))
    stopped : {ph : Phase} (c : Client) → Step (at ph c) (at ph (stop c))

  pub data Reach (l : Loop) : Loop → Type 0 where
    here : Reach l l
    next : {m n : Loop} → Reach l m → Step m n → Reach l n

-- Whether the loop is in its inner loop.
abbrev pub in_inner : Loop → Bool
in_inner (at top c) = false
in_inner (at waiting c) = false
in_inner (at inner c) = true
in_inner (at exited c) = false

same_phase : (ph : Phase) (c c' : Client) → in_inner (at ph c) ≡ in_inner (at ph c')
same_phase top c c' = refl
same_phase waiting c c' = refl
same_phase inner c c' = refl
same_phase exited c c' = refl

-- A gnet connection is held in the inner loop and nowhere else.
abbrev pub IsSound : Loop → Type 0
IsSound (at top c) = c.raw_conn ≡ none
IsSound (at waiting c) = c.raw_conn ≡ none
IsSound (at inner c) = (h : ℕ) × (c.raw_conn ≡ some h)
IsSound (at exited c) = c.raw_conn ≡ none

-- A value or an error, no panic.
abbrev pub is_return : Result (Unit {0}) → Bool
is_return (ok _) = true
is_return (err _) = true
is_return (panics _) = false
is_return blocks = false

module _ (net : Net) (p : Proto) where
  pub send_establish_lem :
      (now mode h : ℕ) (c : Client)
      → c.raw_conn ≡ some h
      → ((send_establish net p now mode c).1.raw_conn ≡ some h)
        × ((send_establish net p now mode c).1.established ≡ false)
        × (is_return (send_establish net p now mode c).0 ≡ true)
  unfolding send_establish encode_payload
  send_establish_lem now mode h c e = ground arith

  maybe_shake-raw_conn : (now : ℕ) (c : Client) → (maybe_shake net p now c).raw_conn ≡ c.raw_conn
  unfolding maybe_shake encode_payload
  maybe_shake-raw_conn now c = ground arith

on_packet-raw_conn :
    (now : ℕ) (h : Header) (m : Message) (c : Client)
    → (on_packet now h m c).1.raw_conn ≡ c.raw_conn
unfolding on_packet
on_packet-raw_conn now h m c = elim (Option-cases (rejection m)) [
  | inl accepted ↦ ground arith
  | inr (text, rejected) ↦ ground arith
]

entered-IsSound :
    (h : ℕ) (r : Result (Unit {0}) × Client)
    → r.1.raw_conn ≡ some h
    → is_return r.0 ≡ true
    → IsSound (entered r)
unfolding entered
entered-IsSound h (ok u, c) raw ret = (h, raw)
entered-IsSound h (err e, c) raw ret = refl
entered-IsSound h (panics x, c) raw ret = absurd (ground arith)
entered-IsSound h (blocks, c) raw ret = absurd (ground arith)

entered-established :
    (r : Result (Unit {0}) × Client)
    → r.1.established ≡ false
    → (client_of (entered r)).established ≡ false
unfolding entered
entered-established (ok u, c) est = est
entered-established (err e, c) est = est
entered-established (panics x, c) est = est
entered-established (blocks, c) est = est

module _ (net : Net) (p : Proto) (mode : ℕ) where
  enter-IsSound :
      (now h : ℕ) (c : Client)
      → IsSound (enter net p mode now h c)
        × ((client_of (enter net p mode now h c)).established ≡ false)
  unfolding enter
  enter-IsSound now h c =
      let (raw, est, ret) =
        send_establish_lem net p now mode h (fresh_sub (dial_once now (some h) c).1)
          (unfold dial_once in refl) in
      (entered-IsSound h _ raw ret, entered-established _ est)

  quiet-IsSound :
      (ph : Phase) (c c' : Client)
      → c'.raw_conn ≡ c.raw_conn
      → IsSound (at ph c)
      → IsSound (at ph c')
  quiet-IsSound top c c' raw n = raw ∙ n
  quiet-IsSound waiting c c' raw n = raw ∙ n
  quiet-IsSound inner c c' raw (h, e) = (h, raw ∙ e)
  quiet-IsSound exited c c' raw n = raw ∙ n

  on_tick-raw_conn : (now : ℕ) (c : Client) → (on_tick now c).raw_conn ≡ c.raw_conn
  unfolding on_tick
  on_tick-raw_conn now c = ground arith

  Step-IsSound : {l m : Loop} → Step net p mode l m → IsSound l → IsSound m
  unfolding dial_once wait_close notify_reconnect stop
  Step-IsSound (unstarted c s) v = v
  Step-IsSound (context_done c d) v = v
  Step-IsSound (dial_fails c now s d) v = v
  Step-IsSound (dials c now h s d) v = (enter-IsSound now h c).0
  Step-IsSound (redials c) v = v
  Step-IsSound (stops_waiting c d) v = v
  Step-IsSound (ticks c now) (h, e) =
      (h, maybe_shake-raw_conn net p now (on_tick now c) ∙ on_tick-raw_conn now c ∙ e)
  Step-IsSound (breaks c d) v = refl
  Step-IsSound (receives {ph} c now hd m) v = quiet-IsSound ph c _ (on_packet-raw_conn now hd m c) v
  Step-IsSound (closes {ph} c) v = quiet-IsSound ph c (notify_reconnect c) refl v
  Step-IsSound (stopped {ph} c) v = quiet-IsSound ph c (stop c) (ground arith) v

  -- What a step that establishes is: a packet EstablishAck without a rejection.
  abbrev pub Acknowledged : Loop → Loop → Type 0
  Acknowledged l m =
      (now : ℕ) × (h : Header) × (msg : Message) × (h.uri ≡ meta_establish_ack)
      × (rejection msg ≡ none)
      × (client_of m ≡ (on_packet now h msg (client_of l)).1)

  tick-established :
      (now : ℕ) (c : Client)
      → c.established ≡ false
      → (maybe_shake net p now (on_tick now c)).established ≡ false
  unfolding maybe_shake on_tick notify_reconnect
  tick-established now c e = ground arith

  Step-Acknowledged :
      {l m : Loop}
      → Step net p mode l m
      → (client_of l).established ≡ false
      → (client_of m).established ≡ true
      → Acknowledged l m
  unfolding dial_once wait_close notify_reconnect stop
  Step-Acknowledged (unstarted c s) e t = absurd (ground arith)
  Step-Acknowledged (context_done c d) e t = absurd (ground arith)
  Step-Acknowledged (dial_fails c now s d) e t = absurd (ground arith)
  Step-Acknowledged (dials c now h s d) e t =
      let low = (enter-IsSound now h c).1 in absurd (ground arith)
  Step-Acknowledged (redials c) e t = absurd (ground arith)
  Step-Acknowledged (stops_waiting c d) e t = absurd (ground arith)
  Step-Acknowledged (ticks c now) e t = let low = tick-established now c e in absurd (ground arith)
  Step-Acknowledged (breaks c d) e t = absurd (ground arith)
  Step-Acknowledged (receives c now hd m) e t =
      let (ack, accepted, reset) = on_packet_establishes now hd m c e t in
      (now, hd, m, ack, accepted, refl)
  Step-Acknowledged (closes c) e t = absurd (ground arith)
  Step-Acknowledged (stopped c) e t = absurd (ground arith)

  reached-IsSound :
      (c : Client) (l : Loop) → c.raw_conn ≡ none → Reach net p mode (at top c) l → IsSound l
  reached-IsSound c l raw here = raw
  reached-IsSound c l raw (next {m} r s) = Step-IsSound s (reached-IsSound c m raw r)

  Step-same_side :
      {l m : Loop}
      → Step net p mode l m
      → (client_of m).established ≡ true
      → in_inner l ≡ in_inner m
  unfolding wait_close
  Step-same_side (dials c now h s d) t =
      let low = (enter-IsSound now h c).1 in absurd (ground arith)
  Step-same_side (breaks c d) t = absurd (ground arith)
  Step-same_side (unstarted c s) t = refl
  Step-same_side (context_done c d) t = refl
  Step-same_side (dial_fails c now s d) t = refl
  Step-same_side (redials c) t = refl
  Step-same_side (stops_waiting c d) t = refl
  Step-same_side (ticks c now) t = refl
  Step-same_side (receives {ph} c now hd m) t = same_phase ph c _
  Step-same_side (closes {ph} c) t = same_phase ph c _
  Step-same_side (stopped {ph} c) t = same_phase ph c _

  -- If the loop of an outgoing connection started without a gnet connection, then after every step
  -- from a state that it reached, packets arriving in every phase, it holds a gnet connection
  -- exactly in the inner loop; and either it is not established, or it was established before the
  -- step, which neither enters nor leaves the inner loop, or the step has received an EstablishAck
  -- without a rejection.
  pub Reach-IsSound :
      (c : Client) (l m : Loop)
      → c.raw_conn ≡ none
      → Reach net p mode (at top c) l
      → Step net p mode l m
      → IsSound m
        × (((client_of m).established ≡ false)
            ⊎ (((client_of l).established ≡ true) × (in_inner l ≡ in_inner m))
            ⊎ Acknowledged l m)
  Reach-IsSound c l m raw r s = (
    Step-IsSound s (reached-IsSound c l raw r),
    elim (Bool-cases (client_of m).established) [
      | inr low ↦ inl low
      | inl up ↦ elim (Bool-cases (client_of l).established) [
        | inl before ↦ inr (inl (before, Step-same_side s up))
        | inr low ↦ inr (inr (Step-Acknowledged s low up))
      ]
    ],
  )
