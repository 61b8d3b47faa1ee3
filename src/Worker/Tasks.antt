-- ===== src/Worker/Tasks.antt =====
-- The task function, the objects that it stores, and the handler that runs it.
use mini_ray.Base.Maps.{insert}
use mini_ray.Base.{
  nat_eq, bytes_eq, true, ltb, refl, ◌++◌, ◌^◌, ◌<◌, [], ◌+◌, append-nil, ap, length, ℕ, ◌≡◌,
  panics, ◌∷◌, sym, ◌≢◌, ◌%◌, arith, index_out_of_range, ok, List, ◌∙◌,
}
use mini_ray.Worker.Codec.{decode_int-encode_int}
use mini_ray.Client.{Net}
use mini_ray.Codec.{Header, ray_assign_task, encode_payload}
use mini_ray.Codec.Dispatch.{uri_of}
use mini_ray.External.{Reader, Proto}
use mini_ray.Frame.{make_frame}
use mini_ray.Messages.{as_assign_task, kind_of, assign_task}
use mini_ray.Traffic.{crashed, serve}
use mini_ray.Traffic.Bytes.{seen}
use mini_ray.Traffic.Stream.{Packet, serve-first}
use mini_ray.Worker.{
  on_add_tow_int, encode_int, object_id_of, decode_int, Worker, add_tow_int_func, object_type_int,
  decode_args, register_object, resolve_args,
}
use mini_ray.Worker.Packets.{on_assign_task, on_packet}
use mini_ray.Scheduler.{request_of, Task}

pub add_tow_int_func-encode_int :
    (a b : ℕ) (task : Task)
    → a < 2 ^ 64
    → b < 2 ^ 64
    → task.args ≡ encode_int a ∷ encode_int b ∷ []
    → add_tow_int_func task ≡ ok ((a + b) % 2 ^ 64)
unfolding add_tow_int_func
add_tow_int_func-encode_int a b task ha hb e =
    let da : decode_int (encode_int a) ≡ ok a =
      ap decode_int (sym (append-nil (encode_int a))) ∙ decode_int-encode_int a [] ha in
    let db : decode_int (encode_int b) ≡ ok b =
      ap decode_int (sym (append-nil (encode_int b))) ∙ decode_int-encode_int b [] hb in
    rw (e, decode_args, da, db) refl

-- The state after an object is stored and its id is put on the channel.
abbrev pub stored : ℕ → Task → ℕ → Worker → Worker
stored now task v w = record w {
  objects =
      insert (object_id_of task now)
        (record { object_type = object_type_int; bytes = encode_int v }) w.objects;
  register_chan = w.register_chan ++ (object_id_of task now ∷ []);
}

pub on_add_tow_int-ok :
    (now v : ℕ) (task : Task) (w : Worker)
    → length w.register_chan < w.register_chan_size
    → add_tow_int_func task ≡ ok v
    → on_add_tow_int now task w ≡ (ok tt, stored now task v w)
unfolding on_add_tow_int
on_add_tow_int-ok now v task w room e =
    let open_chan : ltb (length w.register_chan) w.register_chan_size ≡ true = ground arith in
    rw (open_chan, register_object, e) refl

module _ (net : Net) (p : Proto) where
  resolve_untyped :
      (w : Worker) (args : List (List ℕ))
      → args ≢ []
      → resolve_args w args [] ≡ panics index_out_of_range
  unfolding resolve_args
  resolve_untyped w [] ne = absurd (ne refl)
  resolve_untyped w (a ∷ args) ne = refl

  on_assign_task-request_of :
      (now conn : ℕ) (h : Header) (task : Task) (w : Worker)
      → task.args ≢ []
      → on_assign_task net p now conn h (request_of task) w ≡ (panics index_out_of_range, w)
  unfolding on_assign_task request_of
  on_assign_task-request_of now conn h task w ne = rw (resolve_untyped w task.args ne) refl

  -- If the buffer begins with the frame that the scheduler sends for a task with arguments, a call
  -- of the worker's OnTraffic panics with an index out of range, in the state it began in.
  pub serve-assign_task :
      {C : Type 0} (g : Reader C) (c : C) (now conn seq : ℕ) (task : Task) (inner rest : List ℕ)
      (w : Worker)
      → seq < 2 ^ 64
      → task.args ≢ []
      → encode_payload p
          (record { uri = ray_assign_task; seq_id = seq })
          (assign_task (request_of task))
        ≡ ok inner
      → length inner < 2 ^ 32
      → g.inbound c ≡ make_frame inner ++ rest
      → seen g.inbound (serve g p (on_packet net p now conn) c w)
        ≡ crashed index_out_of_range rest w
  unfolding on_packet as_assign_task
  serve-assign_task g c now conn seq task inner rest w hs ne e small whole =
      let h : Header = record { uri = ray_assign_task; seq_id = seq } in
      let q : Packet = record {
        header = h;
        message = assign_task (request_of task);
        inner = inner;
      } in
      serve-first g p (on_packet net p now conn) c q rest w
        (record {
          is_header = record { uri_u16 = omega arith; seq_u64 = hs };
          matches = unfold uri_of kind_of in refl;
          encoded = e;
          fits = small;
        })
        whole
      ∙ rw (on_assign_task-request_of now conn h task w ne) refl
