-- ===== src/Worker/Packets/Report.antt =====
-- The manager's Loop, which reports the results of a worker to the GCS.
use mini_ray.Worker.Packets.Sent.{send_to-inbound, with_peer_at, with_frame}
use mini_ray.Base.{
  nil_deref, ◌∙◌, panics, Result, blocks, err, refl, and_then, some, subst, arith, true, Option, [],
  ◌++◌, none, ◌≡◌, ◌+◌, GoString, All, suc, sym, M, List, ◌%◌, ◌^◌, ℕ, pure, zero, ok, length, ◌∷◌,
  ◌>>◌, ap, nat_eq, bytes_eq,
}
use mini_ray.Worker.{Worker, Object, get_object}
use mini_ray.Worker.Packets.{
  report_round, report_to, report_object, lift, send_to, returned, on_manager,
}
use mini_ray.Worker.Packets.Sound.{Holds, send_to-Safe, encode-returns, ignore-Safe, IsSound}
use mini_ray.Base.Maps.{lookup-insert_self, lookup}
use mini_ray.Base.Safety.{returns, Lands}
use mini_ray.Client.{Net}
use mini_ray.Codec.{encode_payload, ray_report_task_result}
use mini_ray.Codec.Endian.{put_uint}
use mini_ray.External.{Proto}
use mini_ray.Frame.{make_frame}
use mini_ray.Messages.{report_task_result, Message}
use mini_ray.Peers.{ignore, take_id, Connection, inbound}

-- The report of an object, as the GCS is to get it.
abbrev pub report_of : GoString → Message
report_of id =
    report_task_result (record { task_id = []; status = []; object_id = id; result_data = [] })

-- How a report is marshalled.
abbrev pub Marshals : Proto → (GoString → List ℕ) → GoString → Type 0
Marshals p body id = p.marshal (report_of id) ≡ some (body id)

abbrev pub report_frame : (GoString → List ℕ) → ℕ → GoString → List ℕ
report_frame body seq id =
    make_frame (put_uint 2 ray_report_task_result ++ (put_uint 8 seq ++ body id))

-- The frames of the reports of these objects, numbered from the number after `n`, the newest first,
-- on top of those sent before.
abbrev pub reported : (GoString → List ℕ) → ℕ → List GoString → List (List ℕ) → List (List ℕ)
reported body n [] sent = sent
reported body n (id ∷ ids) sent =
    let seq = (n + 1) % 2 ^ 64 in reported body seq ids (report_frame body seq id ∷ sent)

module _ (net : Net) (p : Proto) where
  -- As many rounds of Loop as are given; the error of a round is logged only.
  unfoldable pub report_rounds : ℕ → M Worker (Unit {0})
  report_rounds zero = pure tt
  report_rounds (suc n) = ignore (report_object net p) >> report_rounds n

  report_to-Lands :
      (conn : ℕ) (o : Option ℕ) (payload : List ℕ) (w : Worker)
      → o ≡ some conn
      → Holds conn w
      → Lands (Holds conn) (report_to net p o payload w)
  unfolding report_to
  report_to-Lands conn none payload w e v = cc
  report_to-Lands conn (some c) payload w e v =
      let same : conn ≡ c = cc in
      rw (← same) (
        ignore-Safe (Holds conn) (send_to net p conn payload) (send_to-Safe net p conn payload) w v)

  encoded-Lands :
      (conn : ℕ) (r : Result (List ℕ)) (w : Worker)
      → w.gcs_conn ≡ some conn
      → Holds conn w
      → returns r ≡ true
      → Lands (Holds conn) (and_then (r, w) (λ payload v. report_to net p v.gcs_conn payload v))
  encoded-Lands conn (ok payload) w g v back = report_to-Lands conn w.gcs_conn payload w g v
  encoded-Lands conn (err e) w g v back = (v, refl)
  encoded-Lands conn (panics x) w g v back = absurd (ground arith)
  encoded-Lands conn blocks w g v back = absurd (ground arith)

  -- A round with a result to report and a GCS to report it to.
  pub report_object-Lands :
      (conn : ℕ) (id : GoString) (rest : List GoString) (w : Worker)
      → w.register_chan ≡ id ∷ rest
      → w.gcs_conn ≡ some conn
      → Holds conn w
      → Lands (Holds conn) (report_object net p w)
  unfolding report_object report_round get_object on_manager returned take_id lift
  report_object-Lands conn id rest w e g (s, alive) =
      let seq : ℕ = (w.manager.next_id + 1) % 2 ^ 64 in
      let taken : Worker = record w {
        register_chan = rest;
        manager = record w.manager { next_id = seq };
      } in
      let fewer : length w.register_chan ≡ suc (length rest) = ap length e in
      let left : All (λ i. (o : Object) × (lookup i w.objects ≡ some o)) (id ∷ rest) =
        subst (All (λ i. (o : Object) × (lookup i w.objects ≡ some o))) e s.stored in
      let sound : IsSound taken = record {
        gcs = s.gcs;
        bounded = omega (arith, fewer, s.bounded);
        stored = left.1;
        filed = s.filed;
      } in
      subst (λ q. Lands (Holds conn) (report_round net p q w)) (sym e)
        (encoded-Lands conn
          (encode_payload p (record { uri = ray_report_task_result; seq_id = seq }) (report_of id))
          taken g (sound, alive) (encode-returns net p conn _ _))

  report_to-none :
      (o : Option ℕ) (payload : List ℕ) (w : Worker)
      → o ≡ none
      → report_to net p o payload w ≡ (panics nil_deref, w)
  unfolding report_to
  report_to-none o payload w e = rw e refl

  -- A round with a result to report and no GCS to report it to.
  report_object-orphaned :
      (id : GoString) (payload : List ℕ) (ids : List GoString) (w : Worker)
      → w.register_chan ≡ id ∷ ids
      → w.gcs_conn ≡ none
      → encode_payload p
          (record { uri = ray_report_task_result; seq_id = (w.manager.next_id + 1) % 2 ^ 64 })
          (report_of id)
        ≡ ok payload
      → (report_object net p w).0 ≡ panics nil_deref
  unfolding report_object report_round on_manager returned take_id lift
  report_object-orphaned id payload ids w e g enc =
      let taken : Worker = record w {
        register_chan = ids;
        manager = record w.manager { next_id = (w.manager.next_id + 1) % 2 ^ 64 };
      } in
      ap (λ q. (report_round net p q w).0) e
      ∙ ap (λ r. (and_then (r, taken) (λ payload v. report_to net p v.gcs_conn payload v)).0) enc
      ∙ ap (λ r. r.0) (report_to-none w.gcs_conn payload taken g)

  module _ (body : GoString → List ℕ) (conn : ℕ) where
    report_to-sends :
        (o : Option ℕ) (payload : List ℕ) (c : Connection) (w : Worker)
        → o ≡ some conn
        → lookup conn w.manager.heap ≡ some (inbound c)
        → c.gnet_c ≡ true
        → report_to net p o payload w
          ≡ (ok tt, with_peer_at conn (with_frame c (make_frame payload)) w)
    unfolding report_to
    report_to-sends o payload c w g e t = rw g (send_to-inbound net p conn payload c w e t)

    -- A round takes the oldest result and hands the frame of its report to the connection.
    report_object-sends :
        (id : GoString) (rest : List GoString) (c : Connection) (w : Worker)
        → Marshals p body id
        → w.register_chan ≡ id ∷ rest
        → w.gcs_conn ≡ some conn
        → lookup conn w.manager.heap ≡ some (inbound c)
        → c.gnet_c ≡ true
        → let seq = (w.manager.next_id + 1) % 2 ^ 64 in
          report_object net p w ≡ (
            ok tt,
            with_peer_at conn
                (with_frame c (report_frame body seq id))
                (record w { register_chan = rest; manager = record w.manager { next_id = seq } }),
          )
    unfolding report_object report_round on_manager returned take_id lift encode_payload
    report_object-sends id rest c w marshals e g q t =
        let seq : ℕ = (w.manager.next_id + 1) % 2 ^ 64 in
        let taken : Worker = record w {
          register_chan = rest;
          manager = record w.manager { next_id = seq };
        } in
        let encoded : encode_payload p (record { uri = ray_report_task_result; seq_id = seq })
              (report_of id)
            ≡ ok (put_uint 2 ray_report_task_result ++ (put_uint 8 seq ++ body id)) =
          rw (encode_payload, marshals) refl in
        ap (λ q. report_round net p q w) e
        ∙ ap (λ r. and_then (r, taken) (λ payload v. report_to net p v.gcs_conn payload v)) encoded
        ∙ report_to-sends w.gcs_conn _ c taken g q t

    -- If each of the reports can be marshalled and the connection of the GCS is an incoming one
    -- with a transport, then as many rounds of Loop as there are results on the channel end without
    -- an error and leave the channel empty, and that connection has been handed exactly the reports
    -- of these results, in the order of the channel, each in its frame, under the numbers that
    -- follow.
    pub report_rounds-drains :
        (ids : List GoString) (c : Connection) (w : Worker)
        → All (Marshals p body) ids
        → w.register_chan ≡ ids
        → w.gcs_conn ≡ some conn
        → lookup conn w.manager.heap ≡ some (inbound c)
        → c.gnet_c ≡ true
        → ((report_rounds (length ids) w).0 ≡ ok tt)
          × ((report_rounds (length ids) w).1.register_chan ≡ [])
          × (lookup conn (report_rounds (length ids) w).1.manager.heap
              ≡ some (inbound (record c { outbox = reported body w.manager.next_id ids c.outbox })))
    unfolding report_rounds
    report_rounds-drains [] c w m e g q t = (refl, e, q)
    report_rounds-drains (id ∷ ids) c w (m, ms) e g q t =
        rw (report_object-sends id ids c w m e g q t) (
          report_rounds-drains ids (with_frame c (report_frame body _ id)) _ ms refl g
            (lookup-insert_self conn _ w.manager.heap) t)
