-- ===== src/Gtd.antt =====
-- inc/gtd.h: tasks, their order, and the queue that a thread takes its next task from.
pub mod Ordering
pub mod Polling
pub mod Priority
pub mod Draining
mod Examples
use pttp.Prelude.{
  ℕ, ◌+◌, ◌/◌, ◌≡◌, List, [], ◌∷◌, Option, none, some, Bool, ltb, ◌==◌, if◌then◌else◌,
}
use pttp.Bytes.{Bytes}

pub data TaskType : Type 0 where
  send_priority send hello sync_utxo expand_connection req_ips : TaskType
  req_hashset_filter req_hashset sync_hashset : TaskType

-- The value of the enumeration.
unfoldable pub rank : TaskType → ℕ
rank send_priority = 0
rank send = 1
rank hello = 2
rank sync_utxo = 3
rank expand_connection = 4
rank req_ips = 5
rank req_hashset_filter = 6
rank req_hashset = 7
rank sync_hashset = 8

-- The constructors leave `data` empty and `time` at 0 where they are not given.
pub record Task : Type 0 where
  pub kind : TaskType
  pub payload : Bytes
  pub time : ℕ

-- `operator<`
unfoldable pub less : Task → Task → Bool
less l r = if l.time == r.time then ltb (rank l.kind) (rank r.kind) else ltb l.time r.time

-- `operator>`
unfoldable pub greater : Task → Task → Bool
greater l r = if l.time == r.time then ltb (rank r.kind) (rank l.kind) else ltb r.time l.time

-- The tasks of `q`, a `std::priority_queue` by `std::greater`. The mutex makes each access one step.
pub record Gtd : Type 0 where
  pub tasks : List Task

-- `q.top()` and `q.pop()`: a task that is greater than no other, and the rest. Which of several such
-- tasks comes first the standard does not say; here it is the one added last.
unfoldable pub least : Task → List Task → Task × List Task
least t [] = (t, [])
least t (u ∷ q) =
    let (m, rest) = least (if greater t u then u else t) q in
    (m, (if greater t u then t else u) ∷ rest)

unfoldable pub pop : List Task → Option (Task × List Task)
unfolding least
pop [] = none
pop (t ∷ q) = some (least t q)

-- One round of the loop of `operator()()`, at the clock's reading in seconds. Without a task the
-- thread sleeps, and the loop goes on with the next reading.
unfoldable pub poll : ℕ → Gtd → Option Task × Gtd
unfolding pop
poll now g = elim (pop g.tasks) [
  | none ↦ (none, g)
  | some (task, rest) ↦
      if ltb task.time now then (some task, record { tasks = rest }) else (none, g)
]

push : Task → Gtd → Gtd
push task g = record { tasks = task ∷ g.tasks }

-- `add(Task task)`, and `operator()(Task task)`, which calls it.
unfoldable pub add : Task → Gtd → Gtd
unfolding push
add task g = push (record task { time = 0 }) g

-- `add(Task task, std::chrono::milliseconds dur)`, at the clock's reading in milliseconds.
unfoldable pub add_later : ℕ → ℕ → Task → Gtd → Gtd
unfolding push
add_later now_ms dur task g = push (record task { time = (now_ms + dur) / 1000 }) g

-- What happens to the queue while one thread waits in `operator()()`: its own polls, and the tasks
-- that other threads add.
pub data Event : Type 0 where
  tick : ℕ → Event
  added : Task → Event
  added_later : ℕ → ℕ → Task → Event

-- `return task`, or sleep and go on with the loop.
abbrev resume : (Gtd → Option (Task × Gtd)) → Option Task × Gtd → Option (Task × Gtd)
resume loop (none, g) = loop g
resume loop (some task, g) = some (task, g)

-- `operator()()` over a schedule; `none` where the schedule ends and the thread still waits.
unfoldable pub take : List Event → Gtd → Option (Task × Gtd)
unfolding poll add add_later
take [] g = none
take (added t ∷ es) g = take es (add t g)
take (added_later now dur t ∷ es) g = take es (add_later now dur t g)
take (tick now ∷ es) g = resume (take es) (poll now g)
