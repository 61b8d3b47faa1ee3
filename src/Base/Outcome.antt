-- ===== src/Base/Outcome.antt =====
-- What a Go call can do: return a value, return an error value, panic, or wait: on a nil channel for
-- ever, on a full one for another goroutine.
-- A handler threads its node's state, and what it wrote before an error or a panic stays written.
use Prim.Native.Nat.{ℕ}
use mathlib.Core.List.{List}

-- The error values of the code, and those that it passes on from gnet, protobuf and the network.
pub data Error : Type 0 where
  short_buffer : Error
  marshal_failed unmarshal_failed : Error
  unknown_uri not_ray_uri : ℕ → Error
  no_transport no_net_conn no_raw_conn not_established write_failed dial_failed : Error
  establish_rejected : List ℕ → Error
  channel_full channel_empty task_not_found : Error
  data_too_short wrong_arg_num : Error
  gcs_conn_not_found context_done : Error
  frame_too_large read_failed : Error
  recovered_panic : Error

pub data Fault : Type 0 where
  nil_deref index_out_of_range type_assertion : Fault

pub data Result {ℓ} (A : Type ℓ) : Type ℓ where
  ok : A → Result A
  err : Error → Result A
  panics : Fault → Result A
  blocks : Result A

abbrev pub M : Type 0 → Type 0 → Type 0
M S A = S → Result A × S

module _ {S : Type 0} where
  abbrev pub pure : {A : Type 0} → A → M S A
  pure a s = (ok a, s)

  abbrev pub fail : {A : Type 0} → Error → M S A
  fail e s = (err e, s)

  abbrev pub panic : {A : Type 0} → Fault → M S A
  panic f s = (panics f, s)

  abbrev pub block : {A : Type 0} → M S A
  block s = (blocks, s)

  abbrev pub modify : (S → S) → M S (Unit {0})
  modify f s = (ok tt, f s)

  abbrev pub gets : {A : Type 0} → (S → A) → M S A
  gets f s = (ok (f s), s)

  abbrev pub and_then : {A B : Type 0} → Result A × S → (A → M S B) → Result B × S
  and_then (ok a, s) f = f a s
  and_then (err e, s) f = (err e, s)
  and_then (panics x, s) f = (panics x, s)
  and_then (blocks, s) f = (blocks, s)

  infixl 5 ◌>>=◌ ◌>>◌
  abbrev pub ◌>>=◌ : {A B : Type 0} → M S A → (A → M S B) → M S B
  ◌>>=◌ m f s = and_then (m s) f

  abbrev pub ◌>>◌ : {B : Type 0} → M S (Unit {0}) → M S B → M S B
  m >> k = m >>= λ _. k

  -- A deferred `recover` that makes an error value of a panic.
  abbrev pub recovered : Result (Unit {0}) × S → Result (Unit {0}) × S
  recovered (panics x, s) = (err recovered_panic, s)
  recovered (r, s) = (r, s)
