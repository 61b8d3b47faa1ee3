-- ===== src/Worker/Packets/Safety.antt =====
-- Which packets a worker takes without a panic and without waiting.
use mini_ray.Codec.Dispatch.{uri_of}
use mini_ray.Peers.Grows.{take_id-Proceeds}
use mini_ray.Base.{
  Bool, ◌>>=◌, codes, M, modify, if◌then◌else◌, false, List, GoString, ltb, [], ◌++◌, ℕ, Bool-cases,
  length-append, ◌≡◌, ◌∙◌, panics, refl, blocks, length, Result, inl, ok, ◌==◌, ◌>>◌, inr, ◌<◌, All,
  true, some, err, ◌∷◌, arith, nat_eq, bytes_eq,
}
use mini_ray.Worker.{
  add_two, add_decoded, register_object, decode_args, task_func_add_tow_int, Object, Worker,
  value_of, get_object, decode_int, add_tow_int_func, object_id_of, resolve_args, on_add_tow_int,
  error_of,
}
use mini_ray.Worker.Packets.{
  on_manager, on_establish_ack, data_response, on_packet, on_establish, on_get_object_data, attempt,
  succeeds, encode_error, run_function, payload_of, on_assign_task, lift, send_to, task_of,
}
use mini_ray.Worker.Packets.Sound.{
  on_peer-Safe, answer-Safe, on_manager-Safe, send_to-Safe, lift-Safe, encode-returns, ignore-Safe,
  Holds,
}
use mini_ray.Worker.Tasks.{stored}
use mini_ray.Base.Maps.{lookup-insert, lookup, Map, insert, lookup-insert_self}
use mini_ray.Base.Safety.{Lands, >>=-Safe, returns, and_then-Lands, Safe}
use mini_ray.Client.{Net}
use mini_ray.Codec.{ray_get_object_data_resp, meta_establish_ack, encode_payload, Header}
use mini_ray.External.{Proto}
use mini_ray.Messages.{
  as_get_object_data, GetObjectDataRequest, establish_response, establish_req, get_object_data,
  kind_of, EstablishReq, as_establish_req, as_assign_task, assign_task, get_object_location_resp,
  Message, get_object_data_resp, AssignTaskRequest,
}
use mini_ray.Peers.{peer_notify_establish, peer_set_established, with_peer, take_id, ignore}
use mini_ray.Scheduler.{mode_gcs, mode_worker, Task}

decode_args-returns : (args : List (List ℕ)) → returns (decode_args args) ≡ true
unfolding decode_args decode_int
decode_args-returns [] = refl
decode_args-returns (arg ∷ rest) = ground (arith, decode_args-returns rest)

add_decoded-returns : (r : Result (List ℕ)) → returns r ≡ true → returns (add_decoded r) ≡ true
unfolding add_decoded add_two
add_decoded-returns (ok []) h = refl
add_decoded-returns (ok (a ∷ [])) h = refl
add_decoded-returns (ok (a ∷ b ∷ [])) h = refl
add_decoded-returns (ok (a ∷ b ∷ c ∷ vs)) h = refl
add_decoded-returns (err e) h = refl
add_decoded-returns (panics x) h = absurd (ground arith)
add_decoded-returns blocks h = absurd (ground arith)

-- The function gives a value or an error, never a panic.
add_tow_int_func-returns : (task : Task) → returns (add_tow_int_func task) ≡ true
unfolding add_tow_int_func
add_tow_int_func-returns task = add_decoded-returns _ (decode_args-returns task.args)

pub on_add_tow_int-stored :
    (now : ℕ) (task : Task) (w : Worker)
    → length w.register_chan < w.register_chan_size
    → on_add_tow_int now task w
      ≡ (error_of (add_tow_int_func task), stored now task (value_of (add_tow_int_func task)) w)
unfolding on_add_tow_int
on_add_tow_int-stored now task w room =
    let open_chan : ltb (length w.register_chan) w.register_chan_size ≡ true = ground arith in
    rw (open_chan, register_object) refl

-- A new object leaves the stored ones stored.
with_object :
    (ids : List GoString) (key : GoString) (o : Object) (objects : Map GoString Object)
    → All (λ id. (a : Object) × (lookup id objects ≡ some a)) ids
    → All (λ id. (a : Object) × (lookup id (insert key o objects) ≡ some a)) (ids ++ (key ∷ []))
with_object [] key o objects h = ((o, lookup-insert_self key o objects), tt)
with_object (id ∷ ids) key o objects ((a, e), h) = (
  elim (Bool-cases (key == id)) [
    | inl same ↦ (o, lookup-insert key id o objects ∙ rw same refl)
    | inr other ↦ (a, lookup-insert key id o objects ∙ rw other e)
  ],
  with_object ids key o objects h,
)

stored-Holds :
    (conn now v : ℕ) (task : Task) (w : Worker)
    → length w.register_chan < w.register_chan_size
    → Holds conn w
    → Holds conn (stored now task v w)
unfolding get_object
stored-Holds conn now v task w room (s, alive) = (
  record {
    gcs = s.gcs;
    bounded = omega (arith, length-append w.register_chan (object_id_of task now ∷ []));
    stored = with_object w.register_chan (object_id_of task now) _ w.objects s.stored;
    filed = s.filed;
  },
  alive,
)

-- What a message needs of the worker that takes it: for a request to run a function, arguments that
-- can be resolved and room for a result. No request for a location or for data is ever open, so
-- no answer to one is taken.
abbrev pub Takes : Worker → Message → Type 0
Takes w (assign_task req) =
    ((args : List (List ℕ)) × (resolve_args w req.args req.args_type ≡ ok args))
    × (length w.register_chan < w.register_chan_size)
Takes w (get_object_location_resp r) = ⊥
Takes w (get_object_data_resp r) = ⊥
Takes w _ = Unit {0}

module _ (net : Net) (p : Proto) where
  run_function-Lands :
      (conn now : ℕ) (task : Task) (w : Worker)
      → length w.register_chan < w.register_chan_size
      → Holds conn w
      → Lands (Holds conn) (run_function net p now task w)
  unfolding run_function
  run_function-Lands conn now task w room v =
      elim (Bool-cases (task.func_name == task_func_add_tow_int)) [
        | inl known ↦
            rw (known, on_add_tow_int-stored now task w room)
              (
                stored-Holds conn now (value_of (add_tow_int_func task)) task w room v,
                error_returns (add_tow_int_func task) (add_tow_int_func-returns task),
              )
        | inr unknown ↦ rw unknown (v, refl)
      ]
    where
      error_returns : (r : Result ℕ) → returns r ≡ true → returns (error_of r) ≡ true
      error_returns (ok v) h = refl
      error_returns (err e) h = refl
      error_returns (panics x) h = h
      error_returns blocks h = h

  attempt-Lands {ℓ} :
      (P : Worker → Type ℓ) (r : Result (Unit {0}) × Worker) → Lands P r → Lands P (attempt r)
  unfolding attempt
  attempt-Lands P (ok u, w) h = h
  attempt-Lands P (err e, w) h = (h.0, refl)
  attempt-Lands P (panics x, w) h = absurd (ground arith)
  attempt-Lands P (blocks, w) h = absurd (ground arith)

  encode_error-returns :
      (r : Result (List ℕ)) → returns r ≡ true → returns (encode_error net p r) ≡ true
  unfolding encode_error
  encode_error-returns (ok payload) h = refl
  encode_error-returns (err e) h = refl
  encode_error-returns (panics x) h = h
  encode_error-returns blocks h = h

  sent-Safe :
      (conn : ℕ) (r : Result (List ℕ))
      → returns r ≡ true
      → Safe
          (Holds conn)
          (ignore (send_to net p conn (payload_of net p r)) >> lift (encode_error net p r))
  sent-Safe conn r back =
      >>=-Safe (Holds conn) (ignore (send_to net p conn (payload_of net p r)))
        (λ _. lift (encode_error net p r))
        (ignore-Safe (Holds conn) (send_to net p conn (payload_of net p r))
          (send_to-Safe net p conn (payload_of net p r)))
        (λ _. lift-Safe net p conn (encode_error net p r) (encode_error-returns r back))

  on_assign_task-Lands :
      (now conn : ℕ) (h : Header) (req : AssignTaskRequest) (w : Worker)
      → Takes w (assign_task req)
      → Holds conn w
      → Lands (Holds conn) (on_assign_task net p now conn h req w)
  unfolding on_assign_task succeeds lift
  on_assign_task-Lands now conn h req w ((args, e), room) v = rw e (
      and_then-Lands (Holds conn) (attempt (run_function net p now (task_of req args) w)) _
        (attempt-Lands (Holds conn) (run_function net p now (task_of req args) w)
          (run_function-Lands conn now (task_of req args) w room v))
        (λ accepted. sent-Safe conn _ (encode-returns net p conn _ _)))

  module _ (conn : ℕ) where
    on_establish-Safe :
        (h : Header) (req : EstablishReq) → Safe (Holds conn) (on_establish net p conn h req)
    unfolding on_establish get_object
    on_establish-Safe h req =
        let noted : M Worker (Unit {0}) =
          modify (λ w. if req.mode == mode_gcs then record w { gcs_conn = some conn } else w) in
        let encoded : Result (List ℕ) =
          encode_payload p (record { uri = meta_establish_ack; seq_id = h.seq_id })
            (establish_response (record { mode = mode_worker; error = codes "OK" })) in
        >>=-Safe (Holds conn) (on_manager (with_peer conn (modify peer_set_established)))
          (λ _. noted >> (lift encoded >>= send_to net p conn))
          (on_peer-Safe conn (modify peer_set_established) (λ c. refl))
          (λ _.
            >>=-Safe (Holds conn) noted (λ _. lift encoded >>= send_to net p conn)
              (λ w v. (note (req.mode == mode_gcs) w v, refl)) (λ _. answer-Safe net p conn _ _))
      where
        note :
            (b : Bool) (w : Worker)
            → Holds conn w
            → Holds conn (if b then record w { gcs_conn = some conn } else w)
        note false w v = v
        note true w (s, (c, e)) = (
          record {
            gcs = λ id q. let same : conn ≡ id = cc in (c, rw (← same) e);
            bounded = s.bounded;
            stored = s.stored;
            filed = s.filed;
          },
          (c, e),
        )

    on_establish_ack-Safe : Safe (Holds conn) (on_establish_ack net p conn)
    unfolding on_establish_ack
    on_establish_ack-Safe = on_peer-Safe conn (modify peer_notify_establish) (λ c. refl)

    on_get_object_data-Safe :
        (req : GetObjectDataRequest) → Safe (Holds conn) (on_get_object_data net p conn req)
    unfolding on_get_object_data take_id
    on_get_object_data-Safe req w v =
        let o = get_object req.object_id w in
        >>=-Safe (Holds conn) (on_manager take_id)
          (λ seq_id.
            lift (
              encode_payload p (record { uri = ray_get_object_data_resp; seq_id = seq_id })
                (get_object_data_resp (data_response net p o)))
            >>= (λ payload. ignore (send_to net p conn payload)))
          (on_manager-Safe conn take_id (λ m alive filed. (take_id-Proceeds m, filed)))
          (λ seq_id.
            >>=-Safe (Holds conn) (lift (encode_payload p _ _))
              (λ payload. ignore (send_to net p conn payload))
              (lift-Safe net p conn _ (encode-returns net p conn _ _))
              (λ payload.
                ignore-Safe (Holds conn) (send_to net p conn payload)
                  (send_to-Safe net p conn payload)))
          w v

  -- A packet that the worker takes leaves it as it should be, and the handler comes back.
  pub on_packet-Lands :
      (now conn : ℕ) (h : Header) (m : Message) (w : Worker)
      → h.uri ≡ uri_of (kind_of m)
      → Takes w m
      → Holds conn w
      → Lands (Holds conn) (on_packet net p now conn h m w)
  unfolding on_packet uri_of kind_of as_establish_req as_assign_task as_get_object_data
      on_assign_task
  on_packet-Lands now conn h (establish_req r) w u t v = rw u (on_establish-Safe conn h r w v)
  on_packet-Lands now conn h (establish_response r) w u t v = rw u (on_establish_ack-Safe conn w v)
  on_packet-Lands now conn h (assign_task r) w u t v =
      rw u (on_assign_task-Lands now conn h r w t v)
  on_packet-Lands now conn h (get_object_data r) w u t v = rw u (on_get_object_data-Safe conn r w v)
  on_packet-Lands now conn h (get_object_location_resp r) w u t v = absurd t
  on_packet-Lands now conn h (get_object_data_resp r) w u t v = absurd t
  on_packet-Lands now conn h _ w u t v = rw u (v, refl)
