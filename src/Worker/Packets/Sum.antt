-- ===== src/Worker/Packets/Sum.antt =====
-- A request to add two numbers, through the handler.
use mini_ray.Base.{
  ◌++◌, ◌>>◌, length, ◌∷◌, ◌==◌, ==_refl, err, Result, some, ◌^◌, false, GoString, refl, List, ◌+◌,
  ℕ, ap, [], ◌≡◌, sym, panics, blocks, ◌%◌, ◌<◌, true, ok, ◌∙◌, nat_eq, bytes_eq,
}
use mini_ray.Worker.Tasks.{stored, add_tow_int_func-encode_int, on_add_tow_int-ok}
use mini_ray.Base.Maps.{lookup-insert_self, lookup, Map}
use mini_ray.Base.Safety.{>>=-Keeps, Keeps}
use mini_ray.Client.{Net}
use mini_ray.Codec.{encode_payload, ray_assign_task_resp, Header}
use mini_ray.External.{Proto}
use mini_ray.Messages.{assign_task_resp, AssignTaskRequest}
use mini_ray.Peers.{ignore_result, ignore}
use mini_ray.Worker.Packets.{encode_error, payload_of, task_of, on_assign_task, send_to, lift}
use mini_ray.Worker.{
  format_int, resolve_args, object_id_of, encode_int, Object, object_type_int, object_type_object,
  task_func_add_tow_int, get_object, Worker,
}

module _ (net : Net) (p : Proto) where
  send_to-objects :
      (objects : Map GoString Object) (conn : ℕ) (payload : List ℕ)
      → Keeps (λ (w : Worker). w.objects ≡ objects) (ignore (send_to net p conn payload))
  unfolding send_to
  send_to-objects objects conn payload w e = go (send_to net p conn payload w) e
    where
      go :
          (r : Result (Unit {0}) × Worker)
          → r.1.objects ≡ objects
          → (ignore_result r).1.objects ≡ objects
      go (ok u, w) h = h
      go (err x, w) h = h
      go (panics x, w) h = h
      go (blocks, w) h = h

  -- The answer to a request leaves the stored objects alone.
  answer-objects :
      (conn : ℕ) (r : Result (List ℕ)) (w : Worker)
      → ((ignore (send_to net p conn (payload_of net p r)) >> lift (encode_error net p r))
          w).1.objects
        ≡ w.objects
  unfolding lift
  answer-objects conn r w =
      >>=-Keeps (λ (v : Worker). v.objects ≡ w.objects)
        (ignore (send_to net p conn (payload_of net p r))) (λ _ v. (encode_error net p r, v))
        (send_to-objects w.objects conn (payload_of net p r)) (λ _ v h. h) w refl

  resolve_plain :
      (w : Worker) (a b : List ℕ) (s t : GoString)
      → (s == object_type_object) ≡ false
      → (t == object_type_object) ≡ false
      → resolve_args w (a ∷ b ∷ []) (s ∷ t ∷ []) ≡ ok (a ∷ b ∷ [])
  unfolding resolve_args
  resolve_plain w a b s t hs ht = rw (hs, ht) refl

  -- A request to add two ints, with a type for each that is not "object", leaves their sum, in
  -- 64-bit arithmetic, stored under the task's id, the name of the function and the time, joined,
  -- if there is room on the channel of results.
  pub on_assign_task-sum :
      (now conn a b : ℕ) (s t : GoString) (h : Header) (req : AssignTaskRequest) (w : Worker)
      → a < 2 ^ 64
      → b < 2 ^ 64
      → req.func_name ≡ task_func_add_tow_int
      → req.args ≡ encode_int a ∷ encode_int b ∷ []
      → req.args_type ≡ s ∷ t ∷ []
      → (s == object_type_object) ≡ false
      → (t == object_type_object) ≡ false
      → length w.register_chan < w.register_chan_size
      → get_object
          (req.task_id ++ (req.func_name ++ format_int now))
          (on_assign_task net p now conn h req w).1
        ≡ some (record { object_type = object_type_int; bytes = encode_int ((a + b) % 2 ^ 64) })
  unfolding on_assign_task get_object object_id_of
  on_assign_task-sum now conn a b s t h req w ha hb f e ty hs ht room =
      let task = task_of req req.args in
      let r : resolve_args w req.args req.args_type ≡ ok req.args =
        (ap (λ as'. resolve_args w as' req.args_type) e
          ∙ ap (resolve_args w (encode_int a ∷ encode_int b ∷ [])) ty)
        ∙ resolve_plain w _ _ s t hs ht
        ∙ ap ok (sym e) in
      let sum = add_tow_int_func-encode_int a b task ha hb e in
      let id = object_id_of task now in
      let encoded : Result (List ℕ) =
        encode_payload p (record { uri = ray_assign_task_resp; seq_id = h.seq_id })
          (assign_task_resp (record { accepted = true; worker_id = []; task_id = req.task_id })) in
      let named : (req.func_name == task_func_add_tow_int) ≡ true =
        ap (λ n. n == task_func_add_tow_int) f ∙ ==_refl task_func_add_tow_int in
      rw (r, named, on_add_tow_int-ok now ((a + b) % 2 ^ 64) task w room sum)
        (ap (lookup id) (answer-objects conn encoded (stored now task ((a + b) % 2 ^ 64) w))
          ∙ lookup-insert_self id _ w.objects)
