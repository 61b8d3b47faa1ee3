-- ===== src/Messages.antt =====
-- The protobuf messages of proto/meta.proto and proto/ray.proto, as proto/meta.pb.go and
-- proto/ray.pb.go declare them. An int32 is its 32-bit pattern, `bytes` and `string` are lists of
-- bytes; the bookkeeping fields of the generated structs are left out.
use mini_ray.Base.{ℕ, Bool, List, GoString, Option, none, some}

pub record EstablishReq : Type 0 where
  pub addr : GoString
  pub mode : ℕ

pub record EstablishResponse : Type 0 where
  pub mode : ℕ
  pub error : GoString

pub record DriverSubmitTaskRequest : Type 0 where
  pub task_id : GoString
  pub func_name : GoString
  pub args : List (List ℕ)
  pub dependencies : List GoString

pub record SchedulerSubmitTaskResponse : Type 0 where
  pub success : Bool
  pub task_id : GoString

pub record RegisterTaskToGcsRequest : Type 0 where
  pub task_id : GoString
  pub status : GoString
  pub dependencies : List GoString

pub record FetchTaskRequest : Type 0 where
  pub worker_id : GoString

pub record FetchTaskResponse : Type 0 where
  pub task_id : GoString
  pub func_name : GoString
  pub args : List (List ℕ)
  pub has_task : Bool

pub record AssignTaskRequest : Type 0 where
  pub task_id : GoString
  pub func_name : GoString
  pub args : List (List ℕ)
  pub dependencies : List GoString
  pub args_type : List GoString

pub record AssignTaskResponse : Type 0 where
  pub accepted : Bool
  pub worker_id : GoString
  pub task_id : GoString

pub record GetObjectLocationRequest : Type 0 where
  pub object_id : GoString
  pub uuid : GoString

pub record GetObjectLocationResponse : Type 0 where
  pub node_addr : GoString
  pub uuid : GoString

pub record GetObjectDataRequest : Type 0 where
  pub object_id : GoString
  pub requester_id : GoString
  pub uuid : GoString

pub record GetObjectDataResponse : Type 0 where
  pub found : Bool
  pub bytes : List ℕ
  pub error : GoString
  pub uuid : GoString

pub record ReportTaskResultRequest : Type 0 where
  pub task_id : GoString
  pub status : GoString
  pub object_id : GoString
  pub result_data : List ℕ

pub record GetTaskResultRequest : Type 0 where
  pub task_id : GoString

pub record GetTaskResultResponse : Type 0 where
  pub status : GoString
  pub result : List ℕ

-- A `proto.Message` that the codec handles: the dynamic type with its value.
pub data Message : Type 0 where
  establish_req : EstablishReq → Message
  establish_response : EstablishResponse → Message
  shake_hand_req shake_hand_resp : Message
  driver_submit_task : DriverSubmitTaskRequest → Message
  scheduler_submit_task_resp : SchedulerSubmitTaskResponse → Message
  register_task_to_gcs : RegisterTaskToGcsRequest → Message
  register_task_to_gcs_resp : Message
  fetch_task : FetchTaskRequest → Message
  fetch_task_resp : FetchTaskResponse → Message
  get_object_location : GetObjectLocationRequest → Message
  get_object_location_resp : GetObjectLocationResponse → Message
  report_task_result : ReportTaskResultRequest → Message
  report_task_result_resp : Message
  get_task_result : GetTaskResultRequest → Message
  get_task_result_resp : GetTaskResultResponse → Message
  assign_task : AssignTaskRequest → Message
  assign_task_resp : AssignTaskResponse → Message
  get_object_data : GetObjectDataRequest → Message
  get_object_data_resp : GetObjectDataResponse → Message

-- The dynamic type alone: the target that `proto.Unmarshal` is given.
pub data Kind : Type 0 where
  k_establish_req k_establish_response k_shake_hand_req k_shake_hand_resp : Kind
  k_driver_submit_task k_scheduler_submit_task_resp : Kind
  k_register_task_to_gcs k_register_task_to_gcs_resp : Kind
  k_fetch_task k_fetch_task_resp k_get_object_location k_get_object_location_resp : Kind
  k_report_task_result k_report_task_result_resp k_get_task_result k_get_task_result_resp : Kind
  k_assign_task k_assign_task_resp k_get_object_data k_get_object_data_resp : Kind

unfoldable pub kind_of : Message → Kind
kind_of (establish_req m) = k_establish_req
kind_of (establish_response m) = k_establish_response
kind_of shake_hand_req = k_shake_hand_req
kind_of shake_hand_resp = k_shake_hand_resp
kind_of (driver_submit_task m) = k_driver_submit_task
kind_of (scheduler_submit_task_resp m) = k_scheduler_submit_task_resp
kind_of (register_task_to_gcs m) = k_register_task_to_gcs
kind_of register_task_to_gcs_resp = k_register_task_to_gcs_resp
kind_of (fetch_task m) = k_fetch_task
kind_of (fetch_task_resp m) = k_fetch_task_resp
kind_of (get_object_location m) = k_get_object_location
kind_of (get_object_location_resp m) = k_get_object_location_resp
kind_of (report_task_result m) = k_report_task_result
kind_of report_task_result_resp = k_report_task_result_resp
kind_of (get_task_result m) = k_get_task_result
kind_of (get_task_result_resp m) = k_get_task_result_resp
kind_of (assign_task m) = k_assign_task
kind_of (assign_task_resp m) = k_assign_task_resp
kind_of (get_object_data m) = k_get_object_data
kind_of (get_object_data_resp m) = k_get_object_data_resp

-- `x, _ := msg.(*pb.T)`: nil where the dynamic type is another.
unfoldable pub as_establish_req : Message → Option EstablishReq
as_establish_req (establish_req r) = some r
as_establish_req _ = none

unfoldable pub as_establish_response : Message → Option EstablishResponse
as_establish_response (establish_response r) = some r
as_establish_response _ = none

unfoldable pub as_scheduler_submit_task_resp : Message → Option SchedulerSubmitTaskResponse
as_scheduler_submit_task_resp (scheduler_submit_task_resp r) = some r
as_scheduler_submit_task_resp _ = none

unfoldable pub as_assign_task : Message → Option AssignTaskRequest
as_assign_task (assign_task r) = some r
as_assign_task _ = none

unfoldable pub as_assign_task_resp : Message → Option AssignTaskResponse
as_assign_task_resp (assign_task_resp r) = some r
as_assign_task_resp _ = none

unfoldable pub as_get_object_data : Message → Option GetObjectDataRequest
as_get_object_data (get_object_data r) = some r
as_get_object_data _ = none

unfoldable pub as_get_object_data_resp : Message → Option GetObjectDataResponse
as_get_object_data_resp (get_object_data_resp r) = some r
as_get_object_data_resp _ = none

unfoldable pub as_get_object_location_resp : Message → Option GetObjectLocationResponse
as_get_object_location_resp (get_object_location_resp r) = some r
as_get_object_location_resp _ = none

unfoldable pub as_report_task_result : Message → Option ReportTaskResultRequest
as_report_task_result (report_task_result r) = some r
as_report_task_result _ = none
