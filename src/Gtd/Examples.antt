-- ===== src/Gtd/Examples.antt =====
-- The theorems on the task queue at small queues.
use pttp.Prelude.{◌≡◌, refl, arith, ◌⊎◌, inl, List, [], ◌∷◌, ◌++◌, some}
use pttp.Gtd.{
  send_priority, hello, req_ips, Task, rank, greater, Gtd, poll, Event, tick, added_later, take,
}
use pttp.Gtd.Polling.{PollTakes, PollWaits, poll_lem, take-served}

abbrev greet : Task
greet = record { kind = hello; payload = []; time = 0 }

abbrev urgent : Task
urgent = record { kind = send_priority; payload = 7 ∷ []; time = 0 }

abbrev peers : Task
peers = record { kind = req_ips; payload = []; time = 40 }

abbrev queue : Gtd
queue = record { tasks = peers ∷ greet ∷ urgent ∷ [] }

program : Unit {0}
unfolding poll rank greater
program = tt

poll-queue : poll 10 queue ≡ (some urgent, record { tasks = peers ∷ greet ∷ [] })
unfolding program
poll-queue = refl

poll_again :
    poll 10 (record { tasks = peers ∷ greet ∷ [] }) ≡ (some greet, record { tasks = peers ∷ [] })
unfolding program
poll_again = refl

poll_lem_example : PollTakes 10 queue (poll 10 queue) ⊎ PollWaits 10 queue (poll 10 queue)
poll_lem_example = poll_lem 10 queue

abbrev earlier : List Event
earlier = tick 0 ∷ added_later 3_000 1_000 greet ∷ []

take-served_example :
    (t : Task) × (g' : Gtd) × (take (earlier ++ tick 50 ∷ []) (record { tasks = peers ∷ [] })
      ≡ some (t, g'))
take-served_example = take-served earlier [] 50 (record { tasks = peers ∷ [] }) (inl (omega arith))
