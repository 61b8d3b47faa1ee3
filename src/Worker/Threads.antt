-- ===== src/Worker/Threads.antt =====
-- A worker as two goroutines: the event loop, which runs the handlers and so onAddTowInt of
-- core/worker/worker.go, and Loop of core/worker/connection_manger.go, which the pool of goroutines
-- gives up where it panics. They share the channel registerObjectChan.
pub mod Stuck
pub mod Fifo
use mini_ray.Base.{
  append_assoc, ◌≤◌, ◌∷◌, GoString, ℕ, true, Option, ap, ◌≡◌, sym, none, ◌++◌, false, List, subst,
  [], ltb, inl, inr, length-append, ◌≢◌, ◌∙◌, Bool-cases, append-nil, length, Bool, some, arith,
  refl,
}
use mini_ray.Worker.{
  register_object, Worker, value_of, set_object, Object, object_type_int, encode_int,
  add_tow_int_func, object_id_of,
}
use mini_ray.Worker.Packets.Channel.{report_object-Has, Has, send_to-Has, on_packet-Has}
use mini_ray.Worker.Node.{new_worker}
use mini_ray.Worker.Packets.{send_to, on_packet, report_object}
use mini_ray.Base.Safety.{returns}
use mini_ray.Client.{Net}
use mini_ray.Codec.{Header, ray_assign_task}
use mini_ray.Codec.Dispatch.{uri_of}
use mini_ray.External.{Proto}
use mini_ray.Messages.{kind_of, Message}
use mini_ray.Scheduler.{Task}

-- `offering` is the result that the event loop is about to put on the channel, and `reporting` says
-- whether Loop still runs. The results that were ever offered and taken are recorded, oldest first.
pub record Threads : Type 0 where
  pub worker : Worker
  pub offering : Option GoString
  pub reporting : Bool
  pub offered : List GoString
  pub taken : List GoString

abbrev pub at_start : ℕ → Threads
at_start size = record {
  worker = new_worker size;
  offering = none;
  reporting = true;
  offered = [];
  taken = [];
}

-- The object that onAddTowInt stores.
abbrev pub result_of : Task → Object
result_of task = record {
  object_type = object_type_int;
  bytes = encode_int (value_of (add_tow_int_func task));
}

-- `cm.registerObjectChan <- objectID` where it does not wait.
abbrev pub put : GoString → Threads → Threads
put id t = record t { worker = (register_object id t.worker).1; offering = none }

module _ (net : Net) (p : Proto) where
  -- A round of Loop, after which Loop runs on if it came back.
  abbrev pub after_round : GoString → Threads → Threads
  after_round id t = record t {
    worker = (report_object net p t.worker).1;
    reporting = returns (report_object net p t.worker).0;
    taken = t.taken ++ (id ∷ []);
  }

  pub data Step : Threads → Threads → Type 0 where
    -- A packet that is no request to run a function, of which the handler comes back.
    handles :
        (t : Threads) (now conn : ℕ) (h : Header) (m : Message)
        → t.offering ≡ none
        → h.uri ≡ uri_of (kind_of m)
        → h.uri ≢ ray_assign_task
        → returns (on_packet net p now conn h m t.worker).0 ≡ true
        → Step t (record t { worker = (on_packet net p now conn h m t.worker).1 })
    -- onAddTowInt up to the channel: the result is stored.
    offers :
        (t : Threads) (now : ℕ) (task : Task)
        → t.offering ≡ none
        → Step t (record t {
          worker = set_object (object_id_of task now) (result_of task) t.worker;
          offering = some (object_id_of task now);
          offered = t.offered ++ (object_id_of task now ∷ []);
        })
    puts :
        (t : Threads) (id : GoString)
        → t.offering ≡ some id
        → returns (register_object id t.worker).0 ≡ true
        → Step t (put id t)
    -- A channel without buffer passes a result on when Loop is there to take it.
    passes :
        (t : Threads) (id : GoString)
        → t.offering ≡ some id
        → t.worker.register_chan_size ≡ 0
        → t.reporting ≡ true
        → Step t (
            after_round id
              (record t { worker = record t.worker { register_chan = id ∷ [] }; offering = none }))
    -- The answer to the request, once its result is on the channel.
    answers :
        (t : Threads) (conn : ℕ) (payload : List ℕ)
        → t.offering ≡ none
        → Step t (record t { worker = (send_to net p conn payload t.worker).1 })
    reports :
        (t : Threads) (id : GoString) (rest : List GoString)
        → t.reporting ≡ true
        → t.worker.register_chan ≡ id ∷ rest
        → Step t (after_round id t)

  pub data Reach (t : Threads) : Threads → Type 0 where
    here : Reach t t
    after : {u v : Threads} → Reach t u → Step u v → Reach t v
