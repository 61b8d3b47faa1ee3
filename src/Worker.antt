-- ===== src/Worker.antt =====
-- core/worker: codec_util.go, object_storage.go, task_func.go, the state of worker.go and
-- connection_manger.go. A Go int is its 64-bit pattern and a float64 its bits.
pub mod Channels
pub mod Packets
pub mod Codec
pub mod Tasks
pub mod Node
pub mod Links
pub mod Reach
pub mod Threads
use mini_ray.Base.{
  suc, Bool, M, ◌+◌, data_too_short, err, ◌++◌, GoString, codes, Result, ◌%◌, none, zero,
  wrong_arg_num, blocks, ltb, if◌then◌else◌, ℕ, ◌∷◌, ◌==◌, take, ◌/◌, List, not, length, some,
  panics, [], ◌^◌, index_out_of_range, ok, Option, modify, type_assertion, nat_eq, bytes_eq, ◌>>◌,
}
use mini_ray.Base.Maps.{Map, lookup, insert}
use mini_ray.Codec.Endian.{put_uint, uint}
use mini_ray.Peers.{Manager}
use mini_ray.Scheduler.{Task}
use Channels.{Chan}

unfoldable pub decode_int : List ℕ → Result ℕ
decode_int bytes = if ltb (length bytes) 8 then err data_too_short else ok (uint (take 8 bytes))

unfoldable pub encode_int : ℕ → List ℕ
encode_int v = put_uint 8 v

-- A string is its bytes, so both directions are the identity.
unfoldable decode_string : List ℕ → Result GoString
decode_string bytes = ok bytes

unfoldable encode_string : GoString → List ℕ
encode_string s = s

unfoldable pub decode_bool : List ℕ → Result Bool
decode_bool [] = err data_too_short
decode_bool (b ∷ bytes) = ok (not (b == 0))

unfoldable pub encode_bool : Bool → List ℕ
encode_bool b = if b then 1 ∷ [] else 0 ∷ []

unfoldable decode_float64 : List ℕ → Result ℕ
decode_float64 bytes = if ltb (length bytes) 8 then err data_too_short else ok (uint (take 8 bytes))

unfoldable encode_float64 : ℕ → List ℕ
encode_float64 bits = put_uint 8 bits

pub record Object : Type 0 where
  pub object_type : GoString
  pub bytes : List ℕ

abbrev pub object_type_int : GoString
object_type_int = codes "int"

abbrev pub object_type_object : GoString
object_type_object = codes "object"

abbrev pub task_func_add_tow_int : GoString
task_func_add_tow_int = codes "addTowInt"

-- `gcs_conn` is the connection gcsConn, nil at first; `register_chan` is registerObjectChan, the
-- oldest first. A nil map of channels is one without entries.
pub record Worker : Type 0 where
  pub manager : Manager
  pub gcs_conn : Option ℕ
  pub register_chan : List GoString
  pub register_chan_size : ℕ
  pub objects : Map GoString Object
  pub get_object_location_chan : Map GoString (Chan GoString)
  pub get_object_chan : Map GoString (Chan (List ℕ))

unfoldable pub get_object : GoString → Worker → Option Object
get_object id w = lookup id w.objects

unfoldable pub set_object : GoString → Object → Worker → Worker
set_object id object w = record w { objects = insert id object w.objects }

-- The loop over the arguments, with the integers so far, oldest first.
decode_args : List (List ℕ) → Result (List ℕ)
decode_args [] = ok []
decode_args (arg ∷ rest) = elim (decode_int arg) [
  | ok v ↦ elim (decode_args rest) [
    | ok vs ↦ ok (v ∷ vs)
    | err e ↦ err e
    | panics x ↦ panics x
    | blocks ↦ blocks
  ]
  | err e ↦ err e
  | panics x ↦ panics x
  | blocks ↦ blocks
]

-- `intArgs[0] + intArgs[1]`, in 64-bit arithmetic.
add_two : List ℕ → Result ℕ
add_two (a ∷ b ∷ []) = ok ((a + b) % 2 ^ 64)
add_two _ = err wrong_arg_num

add_decoded : Result (List ℕ) → Result ℕ
unfolding add_two
add_decoded (ok vs) = add_two vs
add_decoded (err e) = err e
add_decoded (panics x) = panics x
add_decoded blocks = blocks

unfoldable pub add_tow_int_func : Task → Result ℕ
unfolding add_decoded decode_args
add_tow_int_func task = add_decoded (decode_args task.args)

-- The decimal digits of a number below 10 ^ fuel, in front of those that are there.
format_digits : ℕ → ℕ → GoString → GoString
format_digits zero n digits = digits
format_digits (suc fuel) n digits =
    let more = format_digits fuel (n / 10) ((48 + n % 10) ∷ digits) in
    if ltb n 10 then (48 + n) ∷ digits else more

-- `strconv.FormatInt(n, 10)` of an int64 that is not negative; it has 19 digits at most.
unfoldable pub format_int : ℕ → GoString
unfolding format_digits
format_int n = format_digits 19 n []

unfoldable pub object_id_of : Task → ℕ → GoString
unfolding format_int
object_id_of task now = task.id ++ (task.func_name ++ format_int now)

-- The result beside an error is 0.
abbrev pub value_of : Result ℕ → ℕ
value_of (ok v) = v
value_of (err e) = 0
value_of (panics x) = 0
value_of blocks = 0

abbrev pub error_of : Result ℕ → Result (Unit {0})
error_of (ok v) = ok tt
error_of (err e) = err e
error_of (panics x) = panics x
error_of blocks = blocks

-- `cm.registerObjectChan <- objectID` waits while the channel is full.
pub register_object : GoString → M Worker (Unit {0})
register_object id w =
    if ltb (length w.register_chan) w.register_chan_size
    then (ok tt, record w { register_chan = w.register_chan ++ (id ∷ []) })
    else (blocks, w)

-- The object is stored and registered whether or not the function gave an error.
unfoldable pub on_add_tow_int : ℕ → Task → M Worker (Unit {0})
unfolding add_tow_int_func set_object register_object object_id_of
on_add_tow_int now task = do
  let result = add_tow_int_func task
  let id = object_id_of task now
  modify (
      set_object id
        (record { object_type = object_type_int; bytes = encode_int (value_of result) }))
  register_object id
  (λ w. (error_of result, w))

-- The loop of onAssignTask over the arguments and, by the index, their types. A stored object takes
-- the place of its id. Where none is stored, `objectID.(ObjectID)` meets a string.
unfoldable pub resolve_args : Worker → List (List ℕ) → List GoString → Result (List (List ℕ))
resolve_args w [] types = ok []
resolve_args w (arg ∷ args) [] = panics index_out_of_range
resolve_args w (arg ∷ args) (type ∷ types) =
    let rest = resolve_args w args types in
    if type == object_type_object
    then elim (lookup arg w.objects) [
      | some object ↦ elim rest [
        | ok as' ↦ ok (object.bytes ∷ as')
        | err e ↦ err e
        | panics x ↦ panics x
        | blocks ↦ blocks
      ]
      | none ↦ panics type_assertion
    ]
    else elim rest [
      | ok as' ↦ ok (arg ∷ as')
      | err e ↦ err e
      | panics x ↦ panics x
      | blocks ↦ blocks
    ]
