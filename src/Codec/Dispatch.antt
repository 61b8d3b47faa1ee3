-- ===== src/Codec/Dispatch.antt =====
-- unmarshalByURI and UnmarshalRayBody: the message number decides the message type.
use mini_ray.External.{Proto}
use mini_ray.Base.{
  not_ray_uri, sym, ◌∙◌, Error, Bool-cases, unknown_uri, none, ◌≡◌, some, leb, inl, refl, ℕ, inr,
  ◌^◌, ◌<◌, if◌then◌else◌, arith, ok, Option, List,
}
use mini_ray.Messages.{
  k_fetch_task_resp, Kind, k_assign_task, k_get_object_data_resp, k_fetch_task,
  k_get_object_location_resp, kind_of, k_scheduler_submit_task_resp, k_get_object_location,
  k_establish_req, Message, k_shake_hand_req, k_establish_response, k_get_task_result_resp,
  k_get_object_data, k_register_task_to_gcs, k_report_task_result, k_report_task_result_resp,
  k_shake_hand_resp, k_assign_task_resp, k_register_task_to_gcs_resp, k_get_task_result,
  k_driver_submit_task,
}
use mini_ray.Codec.{
  ray_uri_base, ray_kind, meta_kind, unmarshal_as, unmarshal_ray_body, unmarshal_by_uri,
}

-- The number of each message type, as the constants of codec/header.go pair them.
unfoldable pub uri_of : Kind → ℕ
uri_of k_establish_req = 1
uri_of k_establish_response = 2
uri_of k_shake_hand_req = 3
uri_of k_shake_hand_resp = 4
uri_of k_driver_submit_task = 100
uri_of k_scheduler_submit_task_resp = 101
uri_of k_register_task_to_gcs = 102
uri_of k_register_task_to_gcs_resp = 103
uri_of k_fetch_task = 104
uri_of k_fetch_task_resp = 105
uri_of k_get_object_location = 106
uri_of k_get_object_location_resp = 107
uri_of k_report_task_result = 108
uri_of k_report_task_result_resp = 109
uri_of k_get_task_result = 110
uri_of k_get_task_result_resp = 111
uri_of k_assign_task = 112
uri_of k_assign_task_resp = 113
uri_of k_get_object_data = 114
uri_of k_get_object_data_resp = 115

-- The type that a number stands for, over both switches.
kind_at : ℕ → Option Kind
kind_at uri = if leb ray_uri_base uri then ray_kind uri else meta_kind uri

kind_at-uri_of : (k : Kind) → kind_at (uri_of k) ≡ some k
unfolding kind_at ray_kind meta_kind uri_of
kind_at-uri_of k_establish_req = refl
kind_at-uri_of _ = refl

ray_kind-uri_of : (u : ℕ) (k : Kind) → ray_kind u ≡ some k → u ≡ uri_of k
unfolding ray_kind uri_of
ray_kind-uri_of u k h = ground arith

meta_kind-uri_of : (u : ℕ) (k : Kind) → meta_kind u ≡ some k → u ≡ uri_of k
unfolding meta_kind uri_of
meta_kind-uri_of u k h = ground arith

kind_at-eq : (u : ℕ) (k : Kind) → kind_at u ≡ some k → u ≡ uri_of k
unfolding kind_at
kind_at-eq u k h = elim (Bool-cases (leb ray_uri_base u)) [
  | inl ray ↦ ray_kind-uri_of u k (rw ray at h)
  | inr meta ↦ meta_kind-uri_of u k (rw meta at h)
]

uri_of-lt : (k : Kind) → uri_of k < 2 ^ 16
unfolding uri_of
uri_of-lt k_establish_req = omega arith
uri_of-lt _ = omega arith

module _ (p : Proto) where
  error_at : ℕ → Error
  error_at u = if leb ray_uri_base u then not_ray_uri u else unknown_uri u

  unmarshal_by_uri-kind_at :
      (u : ℕ) (body : List ℕ)
      → unmarshal_by_uri p u body ≡ unmarshal_as p (kind_at u) (error_at u) body
  unfolding unmarshal_by_uri unmarshal_ray_body kind_at error_at
  unmarshal_by_uri-kind_at u body = elim (Bool-cases (leb ray_uri_base u)) [
    | inl ray ↦ rw ray refl
    | inr meta ↦ rw meta refl
  ]

  unmarshal_as-some :
      (k : Kind) (e : Error) (body : List ℕ) (m : Message)
      → p.unmarshal k body ≡ some m
      → unmarshal_as p (some k) e body ≡ ok m
  unfolding unmarshal_as
  unmarshal_as-some k e body m h = ground arith

  unmarshal_as-ok :
      (o : Option Kind) (e : Error) (body : List ℕ) (m : Message)
      → unmarshal_as p o e body ≡ ok m
      → o ≡ some (kind_of m)
  unfolding unmarshal_as
  unmarshal_as-ok none e body m h = cc
  unmarshal_as-ok (some k) e body m h = ground (arith, p.unmarshal-kind k body m)

  -- A message that was marshalled is read back under the number of its type.
  pub unmarshal_by_uri-marshal :
      (m : Message) (body : List ℕ)
      → p.marshal m ≡ some body
      → unmarshal_by_uri p (uri_of (kind_of m)) body ≡ ok m
  unmarshal_by_uri-marshal m body e =
      unmarshal_by_uri-kind_at _ body
      ∙ rw (kind_at-uri_of (kind_of m))
          (unmarshal_as-some (kind_of m) _ body m (p.unmarshal-marshal m body e))

  -- If a body is accepted as a message under a number, the number is the one of the type of that
  -- message.
  pub unmarshal_by_uri-uri :
      (u : ℕ) (body : List ℕ) (m : Message)
      → unmarshal_by_uri p u body ≡ ok m
      → u ≡ uri_of (kind_of m)
  unmarshal_by_uri-uri u body m e =
      kind_at-eq u (kind_of m) (
        unmarshal_as-ok (kind_at u) (error_at u) body m (sym (unmarshal_by_uri-kind_at u body) ∙ e))
