-- ===== src/Tests/Inputs.antt =====
-- A connection whose buffer is a list, a small message format, and some packets and states.
use mini_ray.Client.{Net}
use mini_ray.Codec.{Header, encode_payload}
use mini_ray.Codec.Dispatch.{uri_of}
use mini_ray.Codec.Endian.{put_uint}
use mini_ray.Traffic.Stream.{IsSent, Packet}
use mini_ray.Base.{
  ◌+◌, M, arith, ok, true, ap, drop, ◌≡◌, length, take, refl, ℕ, sym, some, GoString, none, [], ◌∷◌,
  List, Option,
}
use mini_ray.External.{Proto, Reader}
use mini_ray.Messages.{
  Kind, get_object_location, kind_of, Message, k_get_object_location, k_assign_task,
  AssignTaskRequest, shake_hand_req, assign_task, k_shake_hand_req,
}

-- The buffer is the connection.
abbrev pub list_reader : Reader (List ℕ)
list_reader = record {
  inbound = λ c. c;
  inbound_buffered = length;
  peek = λ c n. take n c;
  next = λ c n. (take n c, drop n c);
  buffered_lem = λ c. refl;
  peek_lem = λ c n h. refl;
  next_lem = λ c n h. (refl, refl);
}

-- The format knows the heartbeat, the request for an object's location without a uuid, and the
-- request to run a function that has one argument and nothing else.
abbrev location_body : GoString → GoString → Option (List ℕ)
location_body id [] = some id
location_body id (x ∷ xs) = none

abbrev assign_body :
    GoString → GoString → List (List ℕ) → List GoString → List GoString → Option (List ℕ)
assign_body [] [] (a ∷ []) [] [] = some a
assign_body _ _ _ _ _ = none

abbrev pub small_marshal : Message → Option (List ℕ)
small_marshal shake_hand_req = some []
small_marshal (get_object_location r) = location_body r.object_id r.uuid
small_marshal (assign_task r) = assign_body r.task_id r.func_name r.args r.dependencies r.args_type
small_marshal _ = none

abbrev pub one_argument : List ℕ → AssignTaskRequest
one_argument a = record {
  task_id = [];
  func_name = [];
  args = a ∷ [];
  dependencies = [];
  args_type = [];
}

abbrev pub small_unmarshal : Kind → List ℕ → Option Message
small_unmarshal k_shake_hand_req b = some shake_hand_req
small_unmarshal k_get_object_location b =
    some (get_object_location (record { object_id = b; uuid = [] }))
small_unmarshal k_assign_task b = some (assign_task (one_argument b))
small_unmarshal _ b = none

location_law :
    (id uuid : GoString) (b : List ℕ)
    → location_body id uuid ≡ some b
    → small_unmarshal k_get_object_location b
      ≡ some (get_object_location (record { object_id = id; uuid = uuid }))
location_law id [] b e = cc
location_law id (x ∷ xs) b e = cc

assign_law :
    (t f : GoString) (as' : List (List ℕ)) (ds ts : List GoString) (b : List ℕ)
    → assign_body t f as' ds ts ≡ some b
    → small_unmarshal k_assign_task b
      ≡ some (
          assign_task
            (record { task_id = t; func_name = f; args = as'; dependencies = ds; args_type = ts }))
assign_law [] [] (a ∷ []) [] [] b e = cc
assign_law _ _ _ _ _ b e = cc

pub small_round_trip :
    (m : Message) (b : List ℕ) → small_marshal m ≡ some b → small_unmarshal (kind_of m) b ≡ some m
unfolding kind_of
small_round_trip shake_hand_req b e = refl
small_round_trip (get_object_location r) b e = location_law r.object_id r.uuid b e
small_round_trip (assign_task r) b e =
    assign_law r.task_id r.func_name r.args r.dependencies r.args_type b e
small_round_trip _ b e = cc

pub small_kinds :
    (k : Kind) (b : List ℕ) (m : Message) → small_unmarshal k b ≡ some m → kind_of m ≡ k
unfolding kind_of
small_kinds k_shake_hand_req b m e = let q : shake_hand_req ≡ m = cc in ap kind_of (sym q)
small_kinds k_get_object_location b m e =
    let q : get_object_location (record { object_id = b; uuid = [] }) ≡ m = cc in ap kind_of (sym q)
small_kinds k_assign_task b m e =
    let q : assign_task (one_argument b) ≡ m = cc in ap kind_of (sym q)
small_kinds _ b m e = cc

abbrev pub small_proto : Proto
small_proto = record {
  marshal = small_marshal;
  unmarshal = small_unmarshal;
  unmarshal-marshal = small_round_trip;
  unmarshal-kind = small_kinds;
}

abbrev pub heartbeat : Packet
heartbeat = record {
  header = record { uri = 3; seq_id = 5 };
  message = shake_hand_req;
  inner = 0 ∷ 3 ∷ 0 ∷ 0 ∷ 0 ∷ 0 ∷ 0 ∷ 0 ∷ 0 ∷ 5 ∷ [];
}

pub heartbeat-IsSent : IsSent small_proto heartbeat
unfolding kind_of uri_of encode_payload put_uint
heartbeat-IsSent = record {
  is_header = record { uri_u16 = omega arith; seq_u64 = omega arith };
  matches = refl;
  encoded = refl;
  fits = omega arith;
}

-- A request for the location of the object with the one-byte id 7.
abbrev pub locate : Packet
locate = record {
  header = record { uri = 106; seq_id = 1 };
  message = get_object_location (record { object_id = 7 ∷ []; uuid = [] });
  inner = 0 ∷ 106 ∷ 0 ∷ 0 ∷ 0 ∷ 0 ∷ 0 ∷ 0 ∷ 0 ∷ 1 ∷ 7 ∷ [];
}

pub locate-IsSent : IsSent small_proto locate
unfolding kind_of uri_of encode_payload put_uint
locate-IsSent = record {
  is_header = record { uri_u16 = omega arith; seq_u64 = omega arith };
  matches = refl;
  encoded = refl;
  fits = omega arith;
}

-- A handler that counts packets.
abbrev pub count_packets : Header → Message → M ℕ (Unit {0})
count_packets h m n = (ok tt, n + 1)

abbrev pub all_accepted : Net
all_accepted id frames = true
