-- ===== src/Codec.antt =====
-- codec/header.go: the header and body of a payload, and the frames that carry payloads.
pub mod Endian
pub mod Dispatch
pub mod Decode
pub mod RoundTrip
pub mod Split
use Endian.{put_uint, uint}
use mini_ray.Messages.{
  k_get_object_data_resp, k_get_object_data, k_assign_task_resp, k_assign_task,
  k_get_task_result_resp, k_get_task_result, k_report_task_result_resp, k_report_task_result,
  k_get_object_location_resp, k_get_object_location, k_fetch_task_resp, k_fetch_task,
  k_register_task_to_gcs_resp, k_shake_hand_resp, k_register_task_to_gcs, k_shake_hand_req,
  k_scheduler_submit_task_resp, k_establish_response, k_establish_req, k_driver_submit_task,
  Message, Kind,
}
use mini_ray.External.{Proto, Reader}
use mini_ray.Base.{
  ℕ, ◌+◌, Bool, List, ◌++◌, Option, none, some, if◌then◌else◌, ltb, leb, ◌==◌, nat_eq, length, take,
  drop, Result, ok, err, Error, short_buffer, marshal_failed, unmarshal_failed, unknown_uri,
  not_ray_uri, M,
}

-- Message numbers.
abbrev pub meta_establish : ℕ
meta_establish = 1

abbrev pub meta_establish_ack : ℕ
meta_establish_ack = 2

abbrev pub meta_shake_hand : ℕ
meta_shake_hand = 3

abbrev pub meta_shake_hand_resp : ℕ
meta_shake_hand_resp = 4

abbrev pub ray_uri_base : ℕ
ray_uri_base = 100

abbrev pub driver_submit_task_uri : ℕ
driver_submit_task_uri = 100

abbrev pub scheduler_submit_task_resp_uri : ℕ
scheduler_submit_task_resp_uri = 101

abbrev pub ray_get_object_location : ℕ
ray_get_object_location = 106

abbrev pub ray_get_object_location_resp : ℕ
ray_get_object_location_resp = 107

abbrev pub ray_report_task_result : ℕ
ray_report_task_result = 108

abbrev pub ray_assign_task : ℕ
ray_assign_task = 112

abbrev pub ray_assign_task_resp : ℕ
ray_assign_task_resp = 113

abbrev pub ray_get_object_data : ℕ
ray_get_object_data = 114

abbrev pub ray_get_object_data_resp : ℕ
ray_get_object_data_resp = 115

pub record Header : Type 0 where
  pub uri : ℕ
  pub seq_id : ℕ

-- [Uri:2][SeqId:8][body]
unfoldable pub encode_payload : Proto → Header → Message → Result (List ℕ)
encode_payload p h msg = elim (p.marshal msg) [
  | none ↦ err marshal_failed
  | some body ↦ ok (put_uint 2 h.uri ++ (put_uint 8 h.seq_id ++ body))
]

-- The type that `UnmarshalRayBody` makes for a message number.
unfoldable pub ray_kind : ℕ → Option Kind
ray_kind uri =
    if uri == 100
    then some k_driver_submit_task
    else if uri == 101
    then some k_scheduler_submit_task_resp
    else if uri == 102
    then some k_register_task_to_gcs
    else if uri == 103
    then some k_register_task_to_gcs_resp
    else if uri == 104
    then some k_fetch_task
    else if uri == 105
    then some k_fetch_task_resp
    else if uri == 106
    then some k_get_object_location
    else if uri == 107
    then some k_get_object_location_resp
    else if uri == 108
    then some k_report_task_result
    else if uri == 109
    then some k_report_task_result_resp
    else if uri == 110
    then some k_get_task_result
    else if uri == 111
    then some k_get_task_result_resp
    else if uri == 112
    then some k_assign_task
    else if uri == 113
    then some k_assign_task_resp
    else if uri == 114
    then some k_get_object_data
    else if uri == 115
    then some k_get_object_data_resp
    else none

-- The type that `unmarshalByURI` makes for a message number below 100.
unfoldable pub meta_kind : ℕ → Option Kind
meta_kind uri =
    if uri == meta_establish
    then some k_establish_req
    else if uri == meta_establish_ack
    then some k_establish_response
    else if uri == meta_shake_hand
    then some k_shake_hand_req
    else if uri == meta_shake_hand_resp
    then some k_shake_hand_resp
    else none

-- `m := new(T); return m, proto.Unmarshal(body, m)`. What m holds beside an error is left out.
unmarshal_as : Proto → Option Kind → Error → List ℕ → Result Message
unmarshal_as p none e body = err e
unmarshal_as p (some k) e body = elim (p.unmarshal k body) [
  | none ↦ err unmarshal_failed
  | some m ↦ ok m
]

unfoldable pub unmarshal_ray_body : Proto → ℕ → List ℕ → Result Message
unfolding unmarshal_as
unmarshal_ray_body p uri body = unmarshal_as p (ray_kind uri) (not_ray_uri uri) body

unfoldable pub unmarshal_by_uri : Proto → ℕ → List ℕ → Result Message
unfolding unmarshal_as unmarshal_ray_body
unmarshal_by_uri p uri body =
    if leb ray_uri_base uri
    then unmarshal_ray_body p uri body
    else unmarshal_as p (meta_kind uri) (unknown_uri uri) body

abbrev pub header_of : List ℕ → Header
header_of payload = record { uri = uint (take 2 payload); seq_id = uint (drop 2 (take 10 payload)) }

-- Go's three results: the header is nil on a short payload only.
unfoldable pub decode_inner_payload : Proto → List ℕ → Option Header × Result Message
decode_inner_payload p payload =
    if ltb (length payload) 10
    then (none, err short_buffer)
    else (some (header_of payload), unmarshal_by_uri p (uint (take 2 payload)) (drop 10 payload))

abbrev pub with_header : Header → Result Message → Result (Header × Message)
with_header h (ok m) = ok (h, m)
with_header h (err e) = err e
with_header h (Result.panics x) = Result.panics x
with_header h Result.blocks = Result.blocks

module _ {C : Type 0} (g : Reader C) (p : Proto) where
  -- The part of `ZeroCopyDecode` after both `Next` calls.
  decode_taken : List ℕ → Result (Header × Message)
  decode_taken payload =
      if ltb (length payload) 10
      then err short_buffer
      else with_header (header_of payload)
          (unmarshal_by_uri p (uint (take 2 payload)) (drop 10 payload))

  unfoldable pub take_frame : ℕ → M C (Header × Message)
  unfolding decode_taken
  take_frame outer_len c =
      let c' = (g.next c 4).1 in
      let (payload, c'') = g.next c' outer_len in (decode_taken payload, c'')

  -- One frame [u32_be len][inner] from the connection; a short buffer is an error value.
  unfoldable pub zero_copy_decode : M C (Header × Message)
  zero_copy_decode c =
      let lb = g.peek c 4 in
      let outer_len = uint lb in
      if ltb (g.inbound_buffered c) 4
      then (err short_buffer, c)
      else if ltb (length lb) 4
      then (err short_buffer, c)
      else if ltb outer_len 10
      then (err short_buffer, c)
      else if ltb (g.inbound_buffered c) (4 + outer_len)
      then (err short_buffer, c)
      else take_frame outer_len c
