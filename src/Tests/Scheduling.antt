-- ===== src/Tests/Scheduling.antt =====
-- A scheduler that gets a worker and a task, step by step.
use mini_ray.Scheduler.Answers.{on_assign_task_resp-order}
use mini_ray.Scheduler.Drain.{loop_rounds, loop_rounds-drains}
use mini_ray.Peers.Heartbeat.{beaten, tick_all-beats}
use mini_ray.Peers.Ticks.{tick_all}
use mini_ray.Scheduler.Board.{round, board_of, Move}
use mini_ray.Scheduler.Board.Refine.{Step-Move}
use mini_ray.Base.{
  task_not_found, ◌++◌, err, false, ok, drop, some, ℕ, arith, refl, ◌∷◌, true, ◌≡◌, codes, [],
  nat_eq, bytes_eq,
}
use mini_ray.Tests.Inputs.{small_proto, all_accepted, list_reader, heartbeat}
use mini_ray.Frame.{make_frame}
use mini_ray.Traffic.{serve}
use mini_ray.Traffic.Ends.{Ends}
use mini_ray.Scheduler.Buffers.{serve-IsSound}
use mini_ray.Peers.Alive.{IsAlive}
use mini_ray.Base.Maps.{insert, lookup}
use mini_ray.Base.Safety.{returns}
use mini_ray.Codec.{Header}
use mini_ray.Codec.Dispatch.{uri_of}
use mini_ray.Messages.{
  AssignTaskResponse, as_establish_response, establish_response, kind_of, Message,
}
use mini_ray.Peers.{
  Connection, Manager, with_peer, peer_remote, incoming, take_id, inbound, on_open, empty_manager,
}
use mini_ray.Scheduler.Sound.{IsSound}
use mini_ray.Scheduler.{on_assign_task_resp, on_packet, push_task, new_scheduler, Task, Scheduler}
use mini_ray.Scheduler.Node.{accept, poll}
use mini_ray.Scheduler.Reach.{
  Reach, fresh, next, accepts, receives, pushes, polls, pushes, accepts, fresh, polls, Reach-Step,
  Workers,
}

abbrev worker_answers : Message
worker_answers = establish_response (record { mode = 1; error = codes "OK" })

abbrev second_header : Header
second_header = record { uri = 2; seq_id = 1 }

abbrev job : Task
job = record { id = 9 ∷ []; func_name = []; args = []; args_type = []; dependencies = [] }

-- It accepts a connection, which answers as a worker.
abbrev accepted_state : Scheduler
accepted_state = (accept (120 ∷ []) (new_scheduler 2)).1

abbrev joined : Scheduler
joined = (on_packet all_accepted small_proto 1 second_header worker_answers accepted_state).1

abbrev loaded : Scheduler
loaded = (push_task job joined).1

loaded-Reach : Reach all_accepted small_proto 2 loaded
unfolding uri_of kind_of accept on_open take_id new_scheduler empty_manager insert lookup incoming
loaded-Reach =
    next
      (next (next fresh (accepts (new_scheduler 2) (120 ∷ []))) (
        receives accepted_state 1 second_header worker_answers refl
          (inbound (incoming 1 (120 ∷ [])), refl)))
      (pushes joined job)

loaded-Workers : Workers loaded (1 ∷ [])
unfolding on_packet lookup push_task as_establish_response with_peer accept on_open insert
    new_scheduler peer_remote
loaded-Workers = ((120 ∷ [], refl), tt)

Reach-Step_example :
    IsSound (poll all_accepted small_proto (1 ∷ []) loaded).1
    × (returns (poll all_accepted small_proto (1 ∷ []) loaded).0 ≡ true)
Reach-Step_example =
    Reach-Step all_accepted small_proto 2 loaded
      (
        returns (poll all_accepted small_proto (1 ∷ []) loaded).0,
        (poll all_accepted small_proto (1 ∷ []) loaded).1,
      )
      loaded-Reach (polls loaded (1 ∷ []) loaded-Workers)

-- The round of Loop that takes the task off the queue.
Step-Move_example :
    Move round (board_of loaded) (board_of (poll all_accepted small_proto (1 ∷ []) loaded).1)
Step-Move_example = Step-Move all_accepted small_proto (polls loaded (1 ∷ []) loaded-Workers)

-- Two connections, the second of which is established, are ticked.
abbrev established_link : Connection
unfolding incoming
established_link = record (incoming 2 (66 ∷ [])) { established = true }

abbrev two_links : Manager
unfolding incoming
two_links = record {
  next_id = 2;
  next_seq = 0;
  heap = (1, inbound (incoming 1 (65 ∷ []))) ∷ (2, inbound established_link) ∷ [];
  conns = (1, 1) ∷ (2, 2) ∷ [];
}

tick_all-beats_example :
    (seq : ℕ) × (lookup 2 (tick_all all_accepted small_proto take_id (1 ∷ 2 ∷ []) two_links).1.heap
      ≡ some (inbound (beaten [] seq established_link)))
unfolding incoming lookup
tick_all-beats_example =
    tick_all-beats all_accepted small_proto (1 ∷ []) [] 2 established_link [] two_links refl
      ((inbound (incoming 1 (65 ∷ [])), refl), tt) ((λ e. absurd (omega arith)), tt) tt refl refl

loop_rounds-drains_example :
    ((loop_rounds all_accepted small_proto ((1 ∷ []) ∷ (1 ∷ []) ∷ []) loaded).0 ≡ ok tt)
    × ((loop_rounds all_accepted small_proto ((1 ∷ []) ∷ (1 ∷ []) ∷ []) loaded).1.task_chan
        ≡ drop 2 loaded.task_chan)
loop_rounds-drains_example =
    loop_rounds-drains all_accepted small_proto 2 ((1 ∷ []) ∷ (1 ∷ []) ∷ []) loaded loaded-Reach
      (loaded-Workers, (loaded-Workers, tt))

-- The job has been sent to two workers, of which one refuses it.
abbrev waiting_job : Scheduler
unfolding new_scheduler
waiting_job = record (new_scheduler 2) { pending = (9 ∷ [], job) ∷ [] }

abbrev acceptance : AssignTaskResponse
acceptance = record { accepted = true; worker_id = []; task_id = 9 ∷ [] }

abbrev refusal : AssignTaskResponse
refusal = record { accepted = false; worker_id = []; task_id = 9 ∷ [] }

on_assign_task_resp-order_example :
    let answer = on_assign_task_resp all_accepted small_proto in
    ((answer acceptance waiting_job).0 ≡ ok tt)
    × ((answer refusal (answer acceptance waiting_job).1).0 ≡ err task_not_found)
    × ((answer refusal (answer acceptance waiting_job).1).1.task_chan ≡ waiting_job.task_chan)
    × ((answer refusal waiting_job).0 ≡ ok tt)
    × ((answer acceptance (answer refusal waiting_job).1).0 ≡ ok tt)
    × ((answer acceptance (answer refusal waiting_job).1).1.task_chan
        ≡ waiting_job.task_chan ++ (job ∷ []))
unfolding new_scheduler lookup
on_assign_task_resp-order_example =
    on_assign_task_resp-order all_accepted small_proto acceptance refusal job waiting_job refl refl
      refl refl (omega arith)

accepted-IsSound : IsSound accepted_state
accepted-IsSound =
    (Reach-Step all_accepted small_proto 2 (new_scheduler 2) _ fresh
      (accepts (new_scheduler 2) (120 ∷ []))).0

serve-IsSound_example :
    Ends
      (λ (t : Scheduler). IsSound t × (IsAlive 1 t.manager.heap × Unit {0}))
      (serve list_reader small_proto
        (on_packet all_accepted small_proto 1)
        (make_frame heartbeat.inner ++ (0 ∷ []))
        accepted_state)
unfolding accept on_open take_id new_scheduler empty_manager insert lookup incoming
serve-IsSound_example =
    serve-IsSound all_accepted small_proto list_reader (make_frame heartbeat.inner ++ (0 ∷ [])) 1
      accepted_state accepted-IsSound (inbound (incoming 1 (120 ∷ [])), refl)
