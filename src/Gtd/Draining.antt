-- ===== src/Gtd/Draining.antt =====
-- Several rounds of `operator()()`, one after the other, to which no other thread adds.
use mathlib.Core.List.{Memᴰ}
use pttp.Prelude.{
  ℕ, suc, ◌<◌, ◌≤◌, ◌≡◌, refl, ap, arith, List, [], ◌∷◌, length, Option, none, some, true, false,
  ltb, if◌then◌else◌, All, Bool-cases, inl, inr,
}
use pttp.Gtd.{Task, greater, Gtd, least, poll}
use pttp.Gtd.Ordering.{IsLeast, least-Takes}

-- The task of a round before those of the later rounds.
abbrev pub taken : Option Task → List Task → List Task
taken none ts = ts
taken (some t) ts = t ∷ ts

-- The tasks that polls at these readings of the clock take, in order.
abbrev pub drain : List ℕ → Gtd → List Task
drain [] g = []
drain (now ∷ nows) g = let (t, g') = poll now g in taken t (drain nows g')

-- A task that is among the others still is when one that comes first is set aside.
between : (x m t : Task) (rest : List Task) → Memᴰ x (m ∷ rest) → Memᴰ x (m ∷ t ∷ rest)
between x m t rest (Memᴰ.head e) = Memᴰ.head e
between x m t rest (Memᴰ.tail k) = Memᴰ.tail (Memᴰ.tail k)

keeps_later :
    (x m t u : Task) (q rest : List Task)
    → (Memᴰ x (u ∷ q) → Memᴰ x (m ∷ rest))
    → Memᴰ x (t ∷ u ∷ q)
    → Memᴰ x (m ∷ t ∷ rest)
keeps_later x m t u q rest kept (Memᴰ.head e) = Memᴰ.tail (Memᴰ.head e)
keeps_later x m t u q rest kept (Memᴰ.tail k) = between x m t rest (kept k)

keeps_sooner :
    (x m t u : Task) (q rest : List Task)
    → (Memᴰ x (t ∷ q) → Memᴰ x (m ∷ rest))
    → Memᴰ x (t ∷ u ∷ q)
    → Memᴰ x (m ∷ u ∷ rest)
keeps_sooner x m t u q rest kept (Memᴰ.head e) = between x m u rest (kept (Memᴰ.head e))
keeps_sooner x m t u q rest kept (Memᴰ.tail (Memᴰ.head e)) = Memᴰ.tail (Memᴰ.head e)
keeps_sooner x m t u q rest kept (Memᴰ.tail (Memᴰ.tail k)) = between x m u rest (kept (Memᴰ.tail k))

least-keeps : (x t : Task) (q : List Task) → Memᴰ x (t ∷ q) → Memᴰ x ((least t q).0 ∷ (least t q).1)
unfolding least
least-keeps x t [] m = m
least-keeps x t (u ∷ q) m = elim (Bool-cases (greater t u)) [
  | inl e ↦ rw e (keeps_later x (least u q).0 t u q (least u q).1 (least-keeps x u q) m)
  | inr e ↦ rw e (keeps_sooner x (least t q).0 t u q (least t q).1 (least-keeps x t q) m)
]

length-least : (t : Task) (q : List Task) → length (least t q).1 ≡ length q
unfolding least
length-least t [] = refl
length-least t (u ∷ q) = ap suc (length-least (if greater t u then u else t) q)

greater-Memᴰ : (m x : Task) (q : List Task) → IsLeast m q → Memᴰ x q → greater m x ≡ false
greater-Memᴰ m x [] h k = elim k [ ]
greater-Memᴰ m x (u ∷ q) h (Memᴰ.head e) = rw e h.0
greater-Memᴰ m x (u ∷ q) h (Memᴰ.tail k) = greater-Memᴰ m x q h.1 k

due_before : (m x : Task) (now : ℕ) → greater m x ≡ false → x.time < now → ltb m.time now ≡ true
unfolding greater
due_before m x now h late = ground (arith, h, late)

poll-least :
    (now : ℕ) (t : Task) (q : List Task)
    → ltb (Task.time (least t q).0) now ≡ true
    → poll now (record { tasks = t ∷ q }) ≡ (some (least t q).0, record { tasks = (least t q).1 })
unfolding poll
poll-least now t q due = rw due refl

least_due :
    (now : ℕ) (x t : Task) (q : List Task)
    → Memᴰ x (t ∷ q)
    → x.time < now
    → ltb (Task.time (least t q).0) now ≡ true
least_due now x t q m late =
    let found = least-Takes t q in
    due_before (least t q).0 x now
      (greater-Memᴰ (least t q).0 x (t ∷ q) (found.below, found.overall) m) late

-- It is the task that is taken now, or one of those that are left.
taken_now_or_later :
    (x t : Task) (rest ts : List Task)
    → (Memᴰ x rest → Memᴰ x ts)
    → Memᴰ x (t ∷ rest)
    → Memᴰ x (t ∷ ts)
taken_now_or_later x t rest ts later (Memᴰ.head e) = Memᴰ.head e
taken_now_or_later x t rest ts later (Memᴰ.tail k) = Memᴰ.tail (later k)

drain_list :
    (nows : List ℕ) (x : Task) (q : List Task)
    → Memᴰ x q
    → All (λ now. x.time < now) nows
    → length q ≤ length nows
    → Memᴰ x (drain nows (record { tasks = q }))
drain_list nows x [] m late enough = elim m [ ]
drain_list [] x (t ∷ q) m late enough = absurd (omega (arith, enough))
drain_list (now ∷ nows) x (t ∷ q) m late enough =
    let rest = (least t q).1 in
    rw (poll-least now t q (least_due now x t q m late.0)) (
      taken_now_or_later x (least t q).0 rest (drain nows (record { tasks = rest }))
        (λ k. drain_list nows x rest k late.1 (omega (arith, enough, length-least t q)))
        (least-keeps x t q m))

-- A task in the queue is taken by one of the next polls, where these are as many as the tasks in the queue,
-- each reads a clock past the task's time, and nothing is added meanwhile: the tasks that come before it run out.
pub drain-Memᴰ :
    (nows : List ℕ) (x : Task) (g : Gtd)
    → Memᴰ x g.tasks
    → All (λ now. x.time < now) nows
    → length g.tasks ≤ length nows
    → Memᴰ x (drain nows g)
drain-Memᴰ nows x g = drain_list nows x g.tasks
