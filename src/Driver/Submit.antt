-- ===== src/Driver/Submit.antt =====
-- What the driver's tables allow SubmitTask to do.
use mini_ray.Base.{
  panics, err, codes, ◌>>=◌, blocks, ◌>>◌, ◌==◌, pure, some, M, refl, GoString, ℕ, ◌≡◌, ok, List,
  Result, ◌∙◌, Option, modify, none, nat_eq, bytes_eq,
}
use mini_ray.Driver.{
  enroll, mode_driver, key_eq, key_eq, key_eq, returned, submit_found, on_manager, send_to, lift,
  submit_task, on_packet, node_type_scheduler, Driver, on_establish_ack, file_connection,
  on_establish, by_mode, empty_driver, by_name, add_connection,
}
use mini_ray.Base.Maps.{lookup, lookup-insert}
use mini_ray.Base.Safety.{if-Keeps, >>=-Keeps, Keeps}
use mini_ray.Client.{Net}
use mini_ray.Codec.{
  encode_payload, meta_establish, meta_establish_ack, scheduler_submit_task_resp_uri,
  meta_shake_hand, Header,
}
use mini_ray.External.{Proto}
use mini_ray.Messages.{
  establish_response, as_establish_req, as_scheduler_submit_task_resp, EstablishReq,
  DriverSubmitTaskRequest, Message,
}
use mini_ray.Peers.{
  peer_notify_establish, peer_send, deref, on_open, with_peer, on_close, peer_set_established,
  Manager,
}

-- No connections are filed under a name.
abbrev Unnamed : Driver → Type 0
Unnamed d = (name : GoString) → lookup (by_name name) d.type_conns ≡ none

module _ (net : Net) (p : Proto) where
  -- What can happen to a driver: its listener accepts or loses a connection, it dials, a packet comes
  -- over a connection, or a task is submitted.
  pub data Step : Driver → Driver → Type 0 where
    opens :
        (d : Driver) (remote : GoString)
        → Step d (record d { manager = (on_open remote d.manager).1 })
    closes : (d : Driver) (id : ℕ) → Step d (record d { manager = on_close id d.manager })
    adds : (d : Driver) (addr : GoString) → Step d (add_connection addr d).1
    receives :
        (d : Driver) (conn : ℕ) (h : Header) (m : Message) → Step d (on_packet net p conn h m d).1
    submits :
        (d : Driver) (order : List ℕ) (answer : ℕ → Option GoString)
        (task : DriverSubmitTaskRequest)
        → Step d (submit_task net p order answer task d).1

  pub data Reach : Driver → Type 0 where
    fresh : Reach empty_driver
    next : {d e : Driver} → Reach d → Step d e → Reach e

  on_manager-Keeps : {A : Type 0} (f : M Manager A) → Keeps Unnamed (on_manager f)
  unfolding on_manager returned
  on_manager-Keeps {A = A} f d v = go (f d.manager)
    where
      go : (r : Result A × Manager) → Unnamed (returned d r).1
      go (r, m) = v

  lift-Keeps : {A : Type 0} (r : Result A) → Keeps Unnamed (lift r)
  unfolding lift
  lift-Keeps r d v = v

  deref-Keeps : {A : Type 0} (o : Option A) → Keeps Unnamed (deref o)
  deref-Keeps none d v = v
  deref-Keeps (some a) d v = v

  file_connection-Unnamed :
      (mode conn : ℕ) (d : Driver) → Unnamed d → Unnamed (file_connection mode conn d)
  unfolding file_connection
  file_connection-Unnamed mode conn d v name =
      lookup-insert (by_mode mode) (by_name name) _ d.type_conns ∙ v name

  answer-Keeps : (conn : ℕ) (r : Result (List ℕ)) → Keeps Unnamed (lift r >>= send_to net p conn)
  unfolding lift send_to
  answer-Keeps conn (ok payload) d v = on_manager-Keeps (with_peer conn (peer_send net payload)) d v
  answer-Keeps conn (err e) d v = v
  answer-Keeps conn (panics x) d v = v
  answer-Keeps conn blocks d v = v

  on_establish-Keeps :
      (conn : ℕ) (h : Header) (req : EstablishReq) → Keeps Unnamed (on_establish net p conn h req)
  unfolding on_establish
  on_establish-Keeps conn h req =
      let filing : M Driver (Unit {0}) = modify (file_connection req.mode conn) in
      let encoded : Result (List ℕ) =
        encode_payload p (record { uri = meta_establish_ack; seq_id = h.seq_id })
          (establish_response (record { mode = mode_driver; error = codes "OK" })) in
      >>=-Keeps Unnamed (on_manager (with_peer conn (modify peer_set_established)))
        (λ _. filing >> (lift encoded >>= send_to net p conn))
        (on_manager-Keeps (with_peer conn (modify peer_set_established)))
        (λ _.
          >>=-Keeps Unnamed filing (λ _. lift encoded >>= send_to net p conn)
            (λ d v. file_connection-Unnamed req.mode conn d v) (λ _. answer-Keeps conn encoded))

  on_packet-Keeps : (conn : ℕ) (h : Header) (m : Message) → Keeps Unnamed (on_packet net p conn h m)
  unfolding on_packet on_establish_ack
  on_packet-Keeps conn h m =
      if-Keeps Unnamed (h.uri == meta_establish) _ _
        (>>=-Keeps Unnamed (deref (as_establish_req m)) (on_establish net p conn h)
          (deref-Keeps (as_establish_req m)) (on_establish-Keeps conn h))
        (if-Keeps Unnamed (h.uri == meta_establish_ack) _ _
          (on_manager-Keeps (with_peer conn (modify peer_notify_establish)))
          (if-Keeps Unnamed (h.uri == meta_shake_hand) _ _ (λ d v. v)
            (if-Keeps Unnamed (h.uri == scheduler_submit_task_resp_uri) _ _
              (>>=-Keeps Unnamed (deref (as_scheduler_submit_task_resp m)) (λ resp. pure tt)
                (deref-Keeps (as_scheduler_submit_task_resp m)) (λ resp d v. v))
              (λ d v. v))))

  -- Nothing is found under the name of the scheduler.
  submit_task-Unnamed :
      (d : Driver) (order : List ℕ) (answer : ℕ → Option GoString) (task : DriverSubmitTaskRequest)
      → Unnamed d
      → submit_task net p order answer task d ≡ (ok tt, d)
  unfolding submit_task submit_found
  submit_task-Unnamed d order answer task v = rw (v node_type_scheduler) refl

  add_connection-Unnamed : (addr : GoString) → Keeps Unnamed (add_connection addr)
  unfolding add_connection
  add_connection-Unnamed addr = on_manager-Keeps (enroll addr)

  Step-Unnamed : {d e : Driver} → Step d e → Unnamed d → Unnamed e
  Step-Unnamed (opens d remote) v name = v name
  Step-Unnamed (closes d id) v name = v name
  Step-Unnamed (adds d addr) v name = add_connection-Unnamed addr d v name
  Step-Unnamed (receives d conn h m) v name = on_packet-Keeps conn h m d v name
  Step-Unnamed (submits d order answer task) v name =
      rw (submit_task-Unnamed d order answer task v) (v name)

  -- In every state that a driver reaches, whatever connections and packets it had before,
  -- SubmitTask sends nothing, waits for nothing and changes nothing: it finds no scheduler.
  pub Reach-submit_task :
      (d : Driver) (order : List ℕ) (answer : ℕ → Option GoString) (task : DriverSubmitTaskRequest)
      → Reach d
      → submit_task net p order answer task d ≡ (ok tt, d)
  unfolding lookup empty_driver
  Reach-submit_task d order answer task r = submit_task-Unnamed d order answer task (go r)
    where
      go : {d : Driver} → Reach d → Unnamed d
      go fresh name = refl
      go (next r s) name = Step-Unnamed s (go r) name
