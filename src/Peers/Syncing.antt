-- ===== src/Peers/Syncing.antt =====
-- `case SYNC_HASHSET` of `manage`, with `BlockChainReconsiler`.
use pttp.Prelude.{
  ℕ, ◌≡◌, refl, sym, ap, ◌∙◌, some, Bool, true, false, ◌⊎◌, of_some, subst, >>=-eq-some, Bool-cases,
  inl, inr,
}
use pttp.Bytes.{Bytes}
use pttp.Bloom.{Bloom}
use pttp.Gtd
use pttp.Gtd.{Task, TaskType, Gtd}
use pttp.Reconsiler.Table.{BlockChainReconsiler, init_hash, check, get_set_or_filter}
use pttp.Peers.{Libs, Node, add_to_all, task_with}
use pttp.Peers.Quiet.{Quiet, Quiet-refl, addresses-add_to_all}
use pttp.Peers.Managing.{sync_hashset, plan}

-- What a round that finds the set agreed on leaves, and one that does not: the next round a second later, and a
-- task of one kind for each connection.
abbrev pub IsRound : ℕ → Task → Node → Node → Type 0
IsRound now_ms task node node' =
    (node' ≡ record node { reconsiler = node'.reconsiler })
    ⊎ ((kind : TaskType) × ((kind ≡ TaskType.req_hashset) ⊎ (kind ≡ TaskType.req_hashset_filter))
        × (node' ≡ record node {
          reconsiler = node'.reconsiler;
          connections = add_to_all (task_with kind task.payload) node.connections;
          manager_gtd = Gtd.add_later now_ms 1000 task node.manager_gtd;
        }))

module _ (libs : Libs) (now_ms : ℕ) (task : Task) (node : Node) where
  abbrev pub next_reconsiler : BlockChainReconsiler
  next_reconsiler = init_hash task.payload now_ms node.reconsiler

  -- The node after a round that is not the last.
  abbrev asking : TaskType → Node
  asking kind = record node {
    reconsiler = next_reconsiler;
    connections = add_to_all (task_with kind task.payload) node.connections;
    manager_gtd = Gtd.add_later now_ms 1000 task node.manager_gtd;
  }

  abbrev pub IsAfter : Node → Type 0
  IsAfter node' = (node'.reconsiler ≡ next_reconsiler) × IsRound now_ms task node node'

  done-IsAfter :
      (node' : Node)
      → check libs.endings libs.hasher task.payload next_reconsiler ≡ some true
      → sync_hashset libs now_ms task node ≡ some node'
      → IsAfter node'
  unfolding sync_hashset
  done-IsAfter node' e h = subst IsAfter (of_some (rw e at h)) (refl, inl refl)

  asking-IsAfter :
      (kind : TaskType)
      → (kind ≡ TaskType.req_hashset) ⊎ (kind ≡ TaskType.req_hashset_filter)
      → IsAfter (asking kind)
  asking-IsAfter kind some_kind = (refl, inr (kind, some_kind, refl))

  again-IsAfter :
      (node' : Node) (enough : Bool)
      → check libs.endings libs.hasher task.payload next_reconsiler ≡ some false
      → get_set_or_filter libs.endings task.payload next_reconsiler ≡ some enough
      → sync_hashset libs now_ms task node ≡ some node'
      → IsAfter node'
  unfolding sync_hashset plan
  again-IsAfter node' true e e' h =
      subst IsAfter (of_some (rw (e, e') at h)) (asking-IsAfter TaskType.req_hashset (inl refl))
  again-IsAfter node' false e e' h =
      subst IsAfter (of_some (rw (e, e') at h))
        (asking-IsAfter TaskType.req_hashset_filter (inr refl))

  pub sync_hashset-IsAfter :
      (node' : Node) → sync_hashset libs now_ms task node ≡ some node' → IsAfter node'
  unfolding sync_hashset
  sync_hashset-IsAfter node' h =
      let (done, e, rest) =
        >>=-eq-some (check libs.endings libs.hasher task.payload next_reconsiler) _ h in
      elim (Bool-cases done) [
        | inl t ↦ done-IsAfter node' (e ∙ ap some t) h
        | inr f ↦
            let again = rw f at rest in
            let (enough, e', last) =
              >>=-eq-some (get_set_or_filter libs.endings task.payload next_reconsiler) _ again in
            again-IsAfter node' enough (e ∙ ap some f) e' h
      ]

  pub sync_hashset-Quiet :
      (node' : Node) → sync_hashset libs now_ms task node ≡ some node' → Quiet node node'
  sync_hashset-Quiet node' h = elim ((sync_hashset-IsAfter node' h).1) [
    | inl e ↦ subst (Quiet node) (sym e) (Quiet-refl node)
    | inr (kind, some_kind, e) ↦
        subst (Quiet node) (sym e) (addresses-add_to_all _ node.connections, (Quiet-refl node).1)
  ]
