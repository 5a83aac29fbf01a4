-- ===== src/Worker/Valid/Removed.antt =====
-- worker/task_queue.py: the queue without the first task of an id.
use the_grid_x.Base.{
  suc, ◌≤◌, ◌≡◌, Bool-cases, inl, inr, Option-cases, some, List, [], ◌∷◌, length, All, IsDescending,
  Text, text_eq, OnSome, arith,
}
use the_grid_x.Worker.Tasks.{Task}
use the_grid_x.Worker.Queue.{remove_first, priority_value}

module _ (P : Task → Type 0) where
  pub remove_first-All :
      (task_id : Text) (tasks : List Task)
      → All P tasks
      → OnSome (λ found. P found.0 × All P found.1) (remove_first task_id tasks)
  unfolding remove_first
  remove_first-All task_id [] h = tt
  remove_first-All task_id (t ∷ tasks) h = elim (Bool-cases (text_eq t.task_id task_id)) [
    | inl hit ↦ rw hit h
    | inr miss ↦ elim (Option-cases (remove_first task_id tasks)) [
      | inl gone ↦ rw (miss, gone) tt
      | inr (found, e) ↦
          let kept : OnSome (λ f. P f.0 × All P f.1) (some found) =
            rw e at (remove_first-All task_id tasks h.1) in
          rw (miss, e) (kept.0, (h.0, kept.1))
    ]
  ]

pub remove_first-IsDescending :
    (task_id : Text) (tasks : List Task)
    → IsDescending priority_value tasks
    → OnSome (λ found. IsDescending priority_value found.1) (remove_first task_id tasks)
unfolding remove_first
remove_first-IsDescending task_id [] h = tt
remove_first-IsDescending task_id (t ∷ tasks) h = elim (Bool-cases (text_eq t.task_id task_id)) [
  | inl hit ↦ rw hit h.1
  | inr miss ↦ elim (Option-cases (remove_first task_id tasks)) [
    | inl gone ↦ rw (miss, gone) tt
    | inr (found, e) ↦
        let below : OnSome
            (λ f.
              (priority_value f.0 ≤ priority_value t)
              × All (λ u. priority_value u ≤ priority_value t) f.1)
            (some found) =
          rw e at (remove_first-All (λ u. priority_value u ≤ priority_value t) task_id tasks h.0) in
        let sorted : OnSome (λ f. IsDescending priority_value f.1) (some found) =
          rw e at (remove_first-IsDescending task_id tasks h.1) in
        rw (miss, e) (below.1, sorted)
  ]
]

pub remove_first-length :
    (task_id : Text) (tasks : List Task)
    → OnSome (λ found. length tasks ≡ suc (length found.1)) (remove_first task_id tasks)
unfolding remove_first
remove_first-length task_id [] = tt
remove_first-length task_id (t ∷ tasks) = ground (arith, remove_first-length task_id tasks)
