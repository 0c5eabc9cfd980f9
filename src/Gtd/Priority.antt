-- ===== src/Gtd/Priority.antt =====
-- A task of the highest priority among others.
use mathlib.Core.List.{Permᴰ}
use mathlib.Core.Logic.{∥∥₁_elim}
use pttp.Prelude.{
  ℕ, ◌<◌, ◌≤◌, ◌≡◌, refl, ap, ap₂, ◌∙◌, arith, List, [], ◌∷◌, some, Bool, true, false, not, ◌&&◌,
  ◌||◌, ◌==◌, All, inl, inr,
}
use pttp.Bytes.{Bytes, equal, equal_sound, equal_refl}
use pttp.Gtd.{Task, TaskType, rank, greater, Gtd, poll, add, push}
use pttp.Gtd.Polling.{poll_finds}

abbrev pub priority : Bytes → Task
priority b = record { kind = TaskType.send_priority; payload = b; time = 0 }

-- A priority task holds these bytes.
holds : Bytes → Task → Bool
holds b u = not (rank u.kind == 0) || equal u.payload b

every : Bytes → List Task → Bool
every b [] = true
every b (u ∷ q) = holds b u && every b q

every_permuted : (b : Bytes) {xs ys : List Task} → Permᴰ xs ys → every b xs ≡ every b ys
unfolding every
every_permuted b Permᴰ.nil = refl
every_permuted b (Permᴰ.cons e p) = ap₂ (λ u r. holds b u && r) e (every_permuted b p)
every_permuted b (Permᴰ.swap {a} {b = c} {a'} {b'} {l} e e') = rw (e, e') (ground arith)
every_permuted b (Permᴰ.trans p q) = every_permuted b p ∙ every_permuted b q

truths_set : IsSet Bool
truths_set = hlevel

-- Nothing in the queue has the highest priority.
abbrev pub AreLower : List Task → Type 0
AreLower q = All (λ u. 0 < rank (Task.kind u)) q

every-AreLower : (b : Bytes) (q : List Task) → AreLower q → every b q ≡ true
unfolding every holds
every-AreLower b [] lower = refl
every-AreLower b (u ∷ q) lower = ground (arith, lower.0, every-AreLower b q lower.1)

is_priority :
    (b : Bytes) (kind : TaskType) (payload : Bytes) (time : ℕ)
    → time ≡ 0
    → rank kind ≤ 0
    → holds b (record { kind = kind; payload = payload; time = time }) ≡ true
    → record { kind = kind; payload = payload; time = time } ≡ priority b
unfolding holds rank
is_priority b TaskType.send_priority payload time t r h =
    ap₂ (λ p s. record { kind = TaskType.send_priority; payload = p; time = s })
      (equal_sound payload b h) t
is_priority b _ payload time t r h = absurd (omega arith)

every-priority : (b : Bytes) (q : List Task) → AreLower q → every b (priority b ∷ q) ≡ true
unfolding every holds
every-priority b q lower = ground (arith, equal_refl b, every-AreLower b q lower)

not_after :
    (b : Bytes) (t : Task) → greater t (priority b) ≡ false → (t.time ≡ 0) × (rank t.kind ≤ 0)
unfolding greater rank
not_after b t h = (ground (arith, h), ground (arith, h))

-- A task of the highest priority that is added to a queue without another one is the next that is taken.
pub poll-add_first :
    (now : ℕ) (b : Bytes) (g : Gtd)
    → 0 < now
    → AreLower g.tasks
    → (g' : Gtd) × (poll now (add (priority b) g) ≡ (some (priority b), g'))
unfolding add push greater
poll-add_first now b g pos lower = elim (poll_finds now (add (priority b) g)) [
  | inr (ran, late) ↦ absurd (omega (arith, late.0))
  | inl (t, rest, ran, due, kept, first, sorted, among) ↦
      let same = ∥∥₁_elim kept (truths_set _ _) (every_permuted b) in
      let all : every b (t ∷ rest) ≡ true = same ∙ every-priority b g.tasks lower in
      let (time, rank) = not_after b t first.0 in
      let e : t ≡ priority b =
        is_priority b t.kind t.payload t.time time rank (unfold every in ground (arith, all)) in
      (record { tasks = rest }, ran ∙ ap (λ u. (some u, record { tasks = rest })) e)
]
