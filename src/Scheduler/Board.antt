-- ===== src/Scheduler/Board.antt =====
-- What a scheduler does to its tasks, with the connections left out: a queue of bounded length, and
-- the task that is in flight under an id. The order of the table of pending tasks is forgotten.
pub mod Refine
use mini_ray.Scheduler.Links.{notice}
use mini_ray.Codec.{Header}
use mini_ray.Peers.Deliver.{peer_on_packet}
use mini_ray.Peers.Hands.{delivered-kept}
use mini_ray.Scheduler.Node.{receive, accept, connect, on_tick, forget, poll}
use mini_ray.Scheduler.Reach.{
  notices, is_delivered, fresh, polls, pushes, ticks, receives, connects, forgets, next, accepts,
  Step, Reach,
}
use mini_ray.Messages.{Message, AssignTaskResponse}
use mini_ray.Peers.Ticks.{tick_all, add_outgoing}
use mini_ray.Base.{
  false, blocks, inr, panics, fun_ext, subst, err, M, refl, Result, Bool-cases, ok, ltb, Bool, inl,
  List, ℕ, length, ◌∷◌, ap, ◌==◌, some, if◌then◌else◌, sym, GoString, arith, ◌≤◌, ◌≡◌, ◌<◌, ◌∙◌,
  none, Option, ◌++◌, [], nat_eq, bytes_eq,
}
use mini_ray.Scheduler.{
  on_packet, assign_next, requeue, push_task, on_assign_task_resp, returned, assign_task_of,
  new_scheduler, on_manager, request_of, assign_to, handle_server_req, Task, Scheduler,
}
use mini_ray.Scheduler.Kept.{on_packet-kept, handle_server_req-Keeps, ignore-Keeps}
use mini_ray.Base.Maps.{lookup, insert, lookup-insert, lookup-delete, delete}
use mini_ray.Base.Safety.{Keeps, >>=-Keeps}
use mini_ray.Client.{Net}
use mini_ray.External.{Proto}
use mini_ray.Peers.{with_peer, Manager, on_open, ignore_result, take_id, ignore}

pub record Board : Type 0 where
  pub capacity : ℕ
  pub queue : List Task
  pub flying : GoString → Option Task

abbrev pub board_of : Scheduler → Board
board_of s = record {
  capacity = s.task_chan_size;
  queue = s.task_chan;
  flying = λ id. lookup id s.pending;
}

abbrev pub put : GoString → Option Task → (GoString → Option Task) → GoString → Option Task
put id v flying k = if id == k then v else flying k

-- What a call of the scheduler is about.
pub data Cause : Type 0 where
  connection packet push round : Cause

-- The moves of the board. It rests where a connection is the cause. A pushed task joins the queue, or
-- is turned away from a full one. A round waits for a task, or has the oldest one take off or,
-- without a worker, be lost. A packet is passed by, settles a task in flight, has it come back to
-- the queue, or has it dropped where the queue is full.
pub data Move : Cause → Board → Board → Type 0 where
  rests : (b : Board) → Move connection b b
  passes_by : (b : Board) → Move packet b b
  turned_away : (b : Board) → b.capacity ≤ length b.queue → Move push b b
  waits : (b : Board) → b.queue ≡ [] → Move round b b
  joins :
      (b : Board) (t : Task)
      → length b.queue < b.capacity
      → Move push b (record b { queue = b.queue ++ (t ∷ []) })
  takes_off :
      (b : Board) (t : Task) (rest : List Task)
      → b.queue ≡ t ∷ rest
      → Move round b (record b { queue = rest; flying = put t.id (some t) b.flying })
  is_lost :
      (b : Board) (t : Task) (rest : List Task)
      → b.queue ≡ t ∷ rest
      → Move round b (record b { queue = rest })
  settles : (b : Board) (id : GoString) → Move packet b (record b { flying = put id none b.flying })
  comes_back :
      (b : Board) (id : GoString) (t : Task)
      → b.flying id ≡ some t
      → length b.queue < b.capacity
      → Move packet b (record b { queue = b.queue ++ (t ∷ []); flying = put id none b.flying })
  finds_full :
      (b : Board) (id : GoString) (t : Task)
      → b.flying id ≡ some t
      → b.capacity ≤ length b.queue
      → Move packet b (record b { flying = put id none b.flying })

-- The state after moves from a board without tasks.
pub data Moves (size : ℕ) : Board → Type 0 where
  bare : Moves size (record { capacity = size; queue = []; flying = λ id. none })
  moved : {c : Cause} {a b : Board} → Moves size a → Move c a b → Moves size b
