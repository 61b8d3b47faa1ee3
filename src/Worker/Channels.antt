-- ===== src/Worker/Channels.antt =====
-- The channels in the maps getObjectLocationChan and getObjectChan of
-- core/worker/connection_manger.go, and the keys of its sync.Map conns.
use mini_ray.Base.{
  Option, none, some, List, length, ltb, if◌then◌else◌, ◌++◌, ◌∷◌, [], ℕ, Bool, Result, ok, err,
  blocks, context_done, GoString, ◌==◌, ◌↔◌, true, false, ◌≡◌, Eq, nat_eq, bytes_eq, arith, refl,
}
use mini_ray.Base.Maps.{Map, lookup}

-- A channel that was made, with what it holds, the oldest first.
pub record Chan (A : Type 0) : Type 0 where
  pub capacity : ℕ
  pub queued : List A

module _ {A : Type 0} where
  -- A send, with nobody at the other end meanwhile. A key that is not in the map, or a nil map, gives
  -- a nil channel: `none`. No channel comes back from a send that waits.
  unfoldable pub chan_send : A → Option (Chan A) → Option (Chan A)
  chan_send a none = none
  chan_send a (some ch) =
      if ltb (length ch.queued) ch.capacity
      then some (record ch { queued = ch.queued ++ (a ∷ []) })
      else none

  chan_take : Chan A → List A → Option (A × Chan A)
  chan_take ch [] = none
  chan_take ch (a ∷ rest) = some (a, record ch { queued = rest })

  -- What a receive takes, where something is there.
  unfoldable pub chan_receive : Option (Chan A) → Option (A × Chan A)
  unfolding chan_take
  chan_receive none = none
  chan_receive (some ch) = chan_take ch ch.queued

  -- A select of a receive and `<-cm.ctx.Done()`; the flag says that it takes the end of the context.
  unfoldable pub select : Bool → Option (A × Chan A) → Result (A × Chan A)
  select true r = err context_done
  select false none = blocks
  select false (some r) = ok r

-- A key of conns: connections are stored under their uint64, and getConnection loads a string.
pub data ConnKey : Type 0 where
  by_id : ℕ → ConnKey
  by_address : GoString → ConnKey

abbrev conn_key_beq : ConnKey → ConnKey → Bool
conn_key_beq (by_id a) (by_id b) = a == b
conn_key_beq (by_address a) (by_address b) = a == b
conn_key_beq _ _ = false

pub conn_key_beq_iff : (a b : ConnKey) → (conn_key_beq a b ≡ true) ↔ (a ≡ b)
conn_key_beq_iff (by_id a) (by_id b) = ground (arith, nat_eq.beq_iff a b)
conn_key_beq_iff (by_address a) (by_address b) = ground (arith, bytes_eq.beq_iff a b)
conn_key_beq_iff (by_id a) (by_address b) = (λ h. cc, λ h. cc)
conn_key_beq_iff (by_address a) (by_id b) = (λ h. cc, λ h. cc)

instance abbrev pub conn_key_eq : Eq ConnKey
conn_key_eq = record { beq = conn_key_beq; beq_iff = conn_key_beq_iff }

-- The table as a sync.Map, whose keys have any type.
abbrev pub keyed : Map ℕ ℕ → Map ConnKey ℕ
keyed [] = []
keyed ((id, conn) ∷ rest) = (by_id id, conn) ∷ keyed rest

-- `cm.conns.Load(address)`; none stands for the nil connection.
unfoldable pub get_connection : GoString → Map ℕ ℕ → Option ℕ
get_connection address conns = lookup (by_address address) (keyed conns)

pub get_connection-none :
    (address : GoString) (conns : Map ℕ ℕ) → get_connection address conns ≡ none
unfolding get_connection lookup
get_connection-none address [] = refl
get_connection-none address ((id, conn) ∷ rest) = get_connection-none address rest
