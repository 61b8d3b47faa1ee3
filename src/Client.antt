-- ===== src/Client.antt =====
-- common/client_conn.go: the outgoing connection. Times and durations are nanoseconds; a method gets
-- the current time as an argument. `outbox` holds the frames that were handed to rawConn.AsyncWrite,
-- the newest first, and `net` is gnet's answer to a write: whether it took the frame. `sub_done` is
-- the state of subCtx, absent before the first one, and `ctx_done` that of ctx; `failure` is an int64,
-- as its 64-bit pattern.
pub mod Backoff
pub mod Packets
pub mod Loop
pub mod Dials
pub mod Recover
pub mod Events
use mini_ray.Base.{
  nat_eq, bytes_eq, ◌>>=◌, ◌>>◌, nil_deref, ◌+◌, ok, ◌%◌, modify, gets, none, List, err, Result,
  Bool, ℕ, write_failed, ◌^◌, not_established, ltb, false, dial_failed, M, Option, ◌==◌, ◌-◌,
  GoString, some, no_raw_conn, ◌∷◌, panic, if◌then◌else◌, fail, ◌*◌, not, true, [],
}
use mini_ray.Codec.{meta_shake_hand, encode_payload, meta_establish, Header}
use mini_ray.External.{Proto}
use mini_ray.Frame.{make_frame}
use mini_ray.Messages.{establish_req, shake_hand_req, Message}
use Backoff.{get_back_off, second, later}
use mathlib.Core.List.{foldl}

abbrev pub Net : Type 0
Net = ℕ → List (List ℕ) → Bool

pub record Client : Type 0 where
  pub id : ℕ
  pub endpoint : GoString
  pub local : GoString
  pub local_addr : GoString
  pub seq_id : ℕ
  pub failure : ℕ
  pub next_dial : ℕ
  pub dial_timeout : ℕ
  pub establish_timeout : ℕ
  pub recv_idle_timeout : ℕ
  pub shake_every : ℕ
  pub started : Bool
  pub established : Bool
  pub last_recv : ℕ
  pub last_sent : ℕ
  pub raw_conn : Option ℕ
  pub sub_done : Option Bool
  pub ctx_done : Bool
  pub outbox : List (List ℕ)

unfoldable pub new_connection : ℕ → GoString → List (Client → Client) → Client
new_connection id endpoint opts = foldl (λ c opt. opt c) fresh opts
  where
    fresh : Client
    fresh = record {
      id = id;
      endpoint = endpoint;
      local = [];
      local_addr = [];
      seq_id = 0;
      failure = 0;
      next_dial = 0;
      dial_timeout = 30 * second;
      establish_timeout = 10 * second;
      recv_idle_timeout = 30 * second;
      shake_every = 3 * second;
      started = false;
      established = false;
      last_recv = 0;
      last_sent = 0;
      raw_conn = none;
      sub_done = none;
      ctx_done = false;
      outbox = [];
    }

unfoldable pub with_dial_timeout : ℕ → Client → Client
with_dial_timeout d c = record c { dial_timeout = d }

unfoldable with_establish_timeout : ℕ → Client → Client
with_establish_timeout d c = record c { establish_timeout = d }

unfoldable with_recv_idle_timeout : ℕ → Client → Client
with_recv_idle_timeout d c = record c { recv_idle_timeout = d }

unfoldable with_shake_interval : ℕ → Client → Client
with_shake_interval d c = record c { shake_every = d }

-- `if c.subCancel != nil { c.subCancel() }`
unfoldable pub notify_reconnect : Client → Client
notify_reconnect c = record c { sub_done = elim c.sub_done [ none ↦ none | some _ ↦ some true ] }

-- The flag is true where the loop was submitted to the pool.
unfoldable pub start : Client → Client × Bool
start c = if c.started then (c, false) else (record c { started = true }, true)

unfoldable pub stop : Client → Client
unfolding notify_reconnect
stop c =
    if c.started
    then record (notify_reconnect (record c { started = false; ctx_done = true })) {
      established = false;
    }
    else c

unfoldable pub set_established : Client → Client
set_established c = record c { established = true }

next_seq : Client → Client
next_seq c = record c { seq_id = (c.seq_id + 1) % 2 ^ 64 }

module _ (net : Net) where
  async_write : List ℕ → M Client (Unit {0})
  async_write frame c =
      let c' = record c { outbox = frame ∷ c.outbox } in
      if net c.id c'.outbox then (ok tt, c') else (err write_failed, c')

  write_raw : List ℕ → Option ℕ → M Client (Unit {0})
  unfolding async_write
  write_raw frame none = panic nil_deref
  write_raw frame (some h) = async_write frame

  send_ready : List ℕ → Option ℕ → Bool → M Client (Unit {0})
  unfolding async_write
  send_ready inner none established = fail no_raw_conn
  send_ready inner (some h) false = fail not_established
  send_ready inner (some h) true = async_write (make_frame inner)

  unfoldable pub send : List ℕ → M Client (Unit {0})
  unfolding send_ready
  send inner c = send_ready inner c.raw_conn c.established c

  after_write : Result (Unit {0}) × Client → Result (Unit {0}) × Client
  unfolding notify_reconnect
  after_write (err e, c) = (err e, notify_reconnect c)
  after_write (r, c) = (r, c)

  reconnect_on_error : M Client (Unit {0}) → M Client (Unit {0})
  unfolding after_write
  reconnect_on_error m c = after_write (m c)

  module _ (p : Proto) where
    lift : {A : Type 0} → Result A → M Client A
    lift r c = (r, c)

    number_header : Header → M Client Header
    unfolding next_seq
    number_header h c =
        if h.seq_id == 0
        then (ok (record h { seq_id = (next_seq c).seq_id }), next_seq c)
        else (ok h, c)

    -- A zero sequence number is replaced by the next one.
    unfoldable encode_and_send : ℕ → Header → Message → M Client (Unit {0})
    unfolding lift number_header
    encode_and_send now h msg = do
      h' ← number_header h
      inner ← lift (encode_payload p h' msg)
      send inner
      modify (λ c. record c { last_sent = now })

    -- `Addr` is `localAddr`, and `rawConn` must not be nil.
    pub send_establish : ℕ → ℕ → M Client (Unit {0})
    unfolding lift next_seq write_raw
    send_establish now mode = do
      modify (λ c. next_seq (record c { established = false }))
      c ← gets (λ c. c)
      inner ← lift (
          encode_payload p (record { uri = meta_establish; seq_id = c.seq_id })
            (establish_req (record { addr = c.local_addr; mode = mode })))
      write_raw (make_frame inner) c.raw_conn
      modify (λ c. record c { last_sent = now })

    -- A failed write also asks for a new connection.
    pub send_shake_hand : ℕ → M Client (Unit {0})
    unfolding lift next_seq write_raw reconnect_on_error
    send_shake_hand now = do
      modify next_seq
      c ← gets (λ c. c)
      inner ←
          lift
            (encode_payload p (record { uri = meta_shake_hand; seq_id = c.seq_id }) shake_hand_req)
      reconnect_on_error (write_raw (make_frame inner) c.raw_conn)
      modify (λ c. record c { last_sent = now })

    -- The error of the handshake is logged only.
    pub maybe_shake : ℕ → Client → Client
    unfolding send_shake_hand
    maybe_shake now c =
        if not c.established
        then c
        else if ltb (now - c.last_sent) c.shake_every
        then c
        else (send_shake_hand now c).1

unfoldable pub on_tick : ℕ → Client → Client
unfolding notify_reconnect
on_tick now c =
    if not c.established
    then if ltb c.establish_timeout (now - c.last_sent) then notify_reconnect c else c
    else if ltb c.recv_idle_timeout (now - c.last_recv)
    then notify_reconnect c
    else c

-- The connection is closed; the call waits for the close to be done.
unfoldable pub wait_close : Client → Client
wait_close c = record c { established = false; raw_conn = none }

abbrev pub hour : ℕ
hour = 3600 * second

-- `dialed` is the answer of DialWithTimeout: a gnet connection, or none for an error.
unfoldable pub dial_once : ℕ → Option ℕ → M Client (Unit {0})
unfolding get_back_off later
dial_once now (some h) c = (
  ok tt,
  record c { raw_conn = some h; last_recv = now; last_sent = now; next_dial = now + hour },
)
dial_once now none c = (
  err dial_failed,
  record c {
    failure = (c.failure + 1) % 2 ^ 64;
    next_dial = later now (get_back_off ((c.failure + 1) % 2 ^ 64));
  },
)
