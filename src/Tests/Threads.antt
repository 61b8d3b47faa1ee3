-- ===== src/Tests/Threads.antt =====
-- A worker that no GCS has joined: Loop panics at the first result, and the next one waits for ever.
use mini_ray.Codec.{encode_payload}
use mini_ray.Peers.{take_id}
use mini_ray.Worker.Packets.{report_object}
use mini_ray.Base.{◌++◌, GoString, ◌+◌, [], ◌≡◌, ◌∷◌, some, none, ◌≤◌, length, false, refl}
use mini_ray.Tests.Inputs.{all_accepted}
use mini_ray.Tests.Reports.{report_proto}
use mini_ray.Scheduler.{Task}
use mini_ray.Worker.{set_object, object_id_of}
use mini_ray.Worker.Node.{new_worker}
use mini_ray.Worker.Threads.Stuck.{Reach-stopped}
use mini_ray.Worker.Threads.Fifo.{IsFifo, Reach-IsFifo}
use mini_ray.Worker.Threads.{
  after_round, Reach, here, after, offers, passes, Threads, at_start, result_of,
}

abbrev an_int : Task
an_int = record { id = 9 ∷ []; func_name = []; args = []; args_type = []; dependencies = [] }

abbrev first_id : GoString
first_id = object_id_of an_int 1

-- The event loop has a result in hand, which Loop takes.
abbrev with_result : Threads
with_result = record (at_start 0) {
  worker = set_object first_id (result_of an_int) (new_worker 0);
  offering = some first_id;
  offered = first_id ∷ [];
}

abbrev orphaned : Threads
orphaned = after_round all_accepted report_proto first_id (record with_result {
  worker = record with_result.worker { register_chan = first_id ∷ [] };
  offering = none;
})

orphaned-Reach : Reach all_accepted report_proto (at_start 0) orphaned
unfolding new_worker set_object
orphaned-Reach =
    after (after here (offers (at_start 0) 1 an_int refl))
      (passes with_result first_id refl refl refl)

Reach-IsFifo_example : IsFifo 0 orphaned
Reach-IsFifo_example = Reach-IsFifo all_accepted report_proto 0 orphaned orphaned-Reach

-- The next result is offered.
abbrev stuck : Threads
stuck = record orphaned {
  worker = set_object (object_id_of an_int 2) (result_of an_int) orphaned.worker;
  offering = some (object_id_of an_int 2);
  offered = orphaned.offered ++ (object_id_of an_int 2 ∷ []);
}

Reach-stopped_example :
    (stuck.reporting ≡ false)
    × (stuck.taken ≡ orphaned.taken)
    × (length stuck.offered ≤ length orphaned.taken + (0 + 1))
unfolding new_worker set_object report_object take_id encode_payload
Reach-stopped_example =
    Reach-stopped all_accepted report_proto 0 orphaned stuck orphaned-Reach refl
      (after here (offers orphaned 2 an_int refl))
