-- ===== src/Gtd/Polling.antt =====
-- One round of `operator()()` of `GTD`, and its loop among other threads.
use pttp.Prelude.{
  ℕ, ◌≤◌, ◌<◌, ◌≡◌, refl, arith, List, [], ◌∷◌, ◌++◌, false, ◌⊎◌, inl, inr, Option, none, some, ltb,
  ltb→lt, All, Any, Bool-cases,
}
use mathlib.Core.List.{Perm}
use pttp.Gtd.{
  Task, rank, greater, least, Gtd, poll, add, add_later, push, Event, tick, added, added_later,
  take,
}
use pttp.Gtd.Ordering.{IsLeast, least-Takes, least_among}

time_of_least :
    (m : Task) (q : List Task) (now : ℕ) → IsLeast m q → now ≤ m.time → All (λ u. now ≤ u.time) q
unfolding greater
time_of_least m [] now h late = tt
time_of_least m (u ∷ q) now h late = (ground (arith, h.0), time_of_least m q now h.1 late)

-- A task is due once the clock has passed its time.
abbrev pub IsDue : ℕ → Task → Type 0
IsDue now t = t.time < now

-- The poll takes a due task before which no other task comes, and leaves the rest.
abbrev pub PollTakes : ℕ → Gtd → Option Task × Gtd → Type 0
PollTakes now g result =
    (t : Task) × (rest : List Task) × (result ≡ (some t, record { tasks = rest }))
    × IsDue now t
    × Perm (t ∷ rest) g.tasks
    × IsLeast t g.tasks
    × IsLeast t rest

-- The same, and what comes before no task of the queue does not come before the task that is taken.
abbrev pub PollFinds : ℕ → Gtd → Option Task × Gtd → Type 0
PollFinds now g result =
    (t : Task) × (rest : List Task) × (result ≡ (some t, record { tasks = rest }))
    × IsDue now t
    × Perm (t ∷ rest) g.tasks
    × IsLeast t g.tasks
    × IsLeast t rest
    × ((x : Task) → IsLeast x g.tasks → greater x t ≡ false)

-- The poll changes nothing, and no task is due.
abbrev pub PollWaits : ℕ → Gtd → Option Task × Gtd → Type 0
PollWaits now g result = (result ≡ (none, g)) × All (λ u. now ≤ u.time) g.tasks

poll_tasks :
    (now : ℕ) (q : List Task)
    → PollFinds now (record { tasks = q }) (poll now (record { tasks = q }))
      ⊎ PollWaits now (record { tasks = q }) (poll now (record { tasks = q }))
unfolding poll
poll_tasks now [] = inr (refl, tt)
poll_tasks now (t ∷ q) =
    let m = (least t q).0 in
    let found = least-Takes t q in
    elim (Bool-cases (ltb m.time now)) [
      | inl due ↦ inl (
        m,
        (least t q).1,
        rw due,
        ltb→lt _ _ due,
        found.kept,
        (found.below, found.overall),
        found.first,
        λ x h. least_among x t q h.0 h.1,
      )
      | inr early ↦
          inr (rw early, time_of_least m (t ∷ q) now (found.below, found.overall) (ground arith))
    ]

pub poll_finds : (now : ℕ) (g : Gtd) → PollFinds now g (poll now g) ⊎ PollWaits now g (poll now g)
poll_finds now g = poll_tasks now g.tasks

-- A poll takes a first task of those that are due, and leaves the others, or no task is due and it
-- changes nothing.
pub poll_lem : (now : ℕ) (g : Gtd) → PollTakes now g (poll now g) ⊎ PollWaits now g (poll now g)
poll_lem now g = elim (poll_finds now g) [
  | inl (t, rest, ran, due, kept, first, sorted, among) ↦
      inl (t, rest, ran, due, kept, first, sorted)
  | inr waits ↦ inr waits
]

-- Of two polls in a row that both take a task, the first takes none that the second precedes.
pub poll_in_order :
    (now now' : ℕ) (g : Gtd) (a b : Task) (g' g'' : Gtd)
    → poll now g ≡ (some a, g')
    → poll now' g' ≡ (some b, g'')
    → greater a b ≡ false
poll_in_order now now' g a b g' g'' ran ran' = elim (poll_finds now g) [
  | inr (waits, late) ↦ cc
  | inl (t, rest, took, due, kept, first, sorted, among) ↦ elim (poll_finds now' g') [
    | inr (waits, late) ↦ cc
    | inl (u, rest', took', due', kept', first', sorted', among') ↦
        let ea : a ≡ t = cc in
        let eb : b ≡ u = cc in
        let er : g'.tasks ≡ rest = ground arith in rw (ea, eb) (among' t (rw er sorted))
  ]
]

-- After `add(task)`, whatever the queue holds, the next poll takes a task that was added without a
-- delay and has the task's priority or a higher one.
pub poll-add :
    (now : ℕ) (g : Gtd) (task : Task)
    → 0 < now
    → (t : Task) × (g' : Gtd) × (poll now (add task g) ≡ (some t, g'))
      × (t.time ≡ 0)
      × (rank t.kind ≤ rank task.kind)
unfolding add push greater
poll-add now g task pos = elim (poll_finds now (add task g)) [
  | inl (t, rest, ran, due, kept, first, sorted, among) ↦
      (t, record { tasks = rest }, ran, ground (arith, first.0), ground (arith, first.0))
  | inr (ran, late) ↦ absurd (omega (arith, late.0))
]

not_due : (now : ℕ) (q : List Task) → Any (IsDue now) q → All (λ u. now ≤ u.time) q → ⊥
not_due now [] h late = h
not_due now (u ∷ q) (inl h) late = omega arith
not_due now (u ∷ q) (inr h) late = not_due now q h late.1

-- A waiting thread is served: once a task is in the queue and a later poll reads a clock past its
-- time, the wait ends with some task, whatever other threads add before and after.
pub take-served :
    (es es' : List Event) (now : ℕ) (g : Gtd)
    → Any (IsDue now) g.tasks
    → (t : Task) × (g' : Gtd) × (take (es ++ tick now ∷ es') g ≡ some (t, g'))
unfolding take add add_later push
take-served [] es' now g h = elim (poll_finds now g) [
  | inl (t, rest, ran, due, kept, first, sorted, among) ↦ (t, record { tasks = rest }, rw ran)
  | inr (ran, late) ↦ absurd (not_due now g.tasks h late)
]
take-served (added t ∷ es) es' now g h = take-served es es' now (add t g) (inr h)
take-served (added_later start dur t ∷ es) es' now g h =
    take-served es es' now (add_later start dur t g) (inr h)
take-served (tick early ∷ es) es' now g h = elim (poll_finds early g) [
  | inl (t, rest, ran, due, kept, first, sorted, among) ↦ (t, record { tasks = rest }, rw ran)
  | inr (ran, late) ↦ let (t, g', served) = take-served es es' now g h in (t, g', rw ran served)
]
