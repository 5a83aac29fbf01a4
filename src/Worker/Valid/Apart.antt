-- ===== src/Worker/Valid/Apart.antt =====
-- worker/task_queue.py: in how many places of a `TaskQueue` a task's id stands.
use the_grid_x.Base.{
  ℕ, suc, ◌+◌, ◌≤◌, ◌≡◌, refl, sym, ap, ◌∙◌, inl, inr, Bool, leb, Bool-cases, Option, none, some,
  is_some, List, [], ◌∷◌, ◌++◌, length, Text, text_eq, text_eq_iff, lookup, lookup-insert,
  lookup-erase, erase, insert_sorted, order_by, by_key, arith, OnSome, Option-cases, if◌then◌else◌,
}
use the_grid_x.Worker.Tasks.{Task, queued}
use the_grid_x.Worker.Queue.{
  TaskQueue, priority_value, with_status, enqueue, start, dequeue, remove_first, mark_running,
  finish, cancel_task,
}

abbrev pub occurrences : Text → List Task → ℕ
occurrences task_id [] = 0
occurrences task_id (t ∷ tasks) =
    if text_eq t.task_id task_id then suc (occurrences task_id tasks) else occurrences task_id tasks

abbrev pub entries : Option Task → ℕ
entries none = 0
entries (some t) = 1

-- The places of an id in the queue, among the active tasks and among the completed ones.
unfoldable pub places : Text → TaskQueue → ℕ
places task_id q =
    occurrences task_id q.queue
    + (entries (lookup task_id q.active_tasks) + entries (lookup task_id q.completed_tasks))

module _ (task_id : Text) where
  occurrences-append :
      (xs ys : List Task)
      → occurrences task_id (xs ++ ys) ≡ occurrences task_id xs + occurrences task_id ys
  occurrences-append [] ys = omega arith
  occurrences-append (t ∷ xs) ys = ground (arith, occurrences-append xs ys)

  occurrences-insert_sorted :
      (later : Task → Task → Bool) (t : Task) (tasks : List Task)
      → occurrences task_id (insert_sorted later t tasks) ≡ occurrences task_id (t ∷ tasks)
  unfolding insert_sorted
  occurrences-insert_sorted later t [] = refl
  occurrences-insert_sorted later t (x ∷ tasks) =
      ground (arith, occurrences-insert_sorted later t tasks)

  occurrences-order_by :
      (later : Task → Task → Bool) (tasks : List Task)
      → occurrences task_id (order_by later tasks) ≡ occurrences task_id tasks
  unfolding order_by
  occurrences-order_by later [] = refl
  occurrences-order_by later (t ∷ tasks) =
      occurrences-insert_sorted later t (order_by later tasks)
      ∙ ground (arith, occurrences-order_by later tasks)

  occurrences-remove_first :
      (j : Text) (tasks : List Task)
      → OnSome
          (λ f. occurrences task_id tasks ≡ occurrences task_id (f.0 ∷ f.1))
          (remove_first j tasks)
  unfolding remove_first
  occurrences-remove_first j [] = tt
  occurrences-remove_first j (t ∷ tasks) = elim (Bool-cases (text_eq t.task_id j)) [
    | inl hit ↦ rw hit refl
    | inr miss ↦ elim (Option-cases (remove_first j tasks)) [
      | inl gone ↦ rw (miss, gone) tt
      | inr (found, e) ↦
          let rest : OnSome (λ f. occurrences task_id tasks ≡ occurrences task_id (f.0 ∷ f.1))
              (some found) =
            rw e at (occurrences-remove_first j tasks) in
          rw (miss, e) (ground (arith, rest))
    ]
  ]

  -- The only operation after which an id stands in more places is the enqueueing of a task with it.
  pub places-enqueue :
      (t : Task) (q : TaskQueue)
      → places task_id (enqueue t q).1 ≤ places task_id q + occurrences task_id (t ∷ [])
  unfolding places enqueue
  places-enqueue t q = elim (Bool-cases (leb q.max_queue_size (length q.queue))) [
    | inl full ↦ rw full (omega arith)
    | inr room ↦
        let longer : List Task = q.queue ++ with_status queued t ∷ [] in
        let sorted = occurrences-order_by (by_key priority_value) longer in
        let more = occurrences-append q.queue (with_status queued t ∷ []) in
        rw room (omega (arith, sorted, more))
  ]

  places-start :
      (t : Task) (rest : List Task) (q : TaskQueue)
      → occurrences task_id q.queue ≡ occurrences task_id (t ∷ rest)
      → places task_id (start t rest q) ≤ places task_id q
  unfolding places
  places-start t rest q e = elim (Bool-cases (text_eq t.task_id task_id)) [
    | inl hit ↦ rw (lookup-insert t.task_id task_id _ q.active_tasks, hit) (ground (arith, e))
    | inr miss ↦ rw (lookup-insert t.task_id task_id _ q.active_tasks, miss) (ground (arith, e))
  ]

  places-dequeue_at :
      (tasks : List Task) (q : TaskQueue)
      → places task_id (dequeue (record q { queue = tasks })).1
        ≤ places task_id (record q { queue = tasks })
  unfolding dequeue places
  places-dequeue_at [] q = omega arith
  places-dequeue_at (t ∷ tasks) q = places-start t tasks (record q { queue = t ∷ tasks }) refl

  pub places-dequeue : (q : TaskQueue) → places task_id (dequeue q).1 ≤ places task_id q
  places-dequeue q = places-dequeue_at q.queue q

  pub places-mark_running :
      (j : Text) (q : TaskQueue) → places task_id (mark_running j q).1 ≤ places task_id q
  unfolding mark_running
  places-mark_running j q = elim (Option-cases (remove_first j q.queue)) [
    | inl gone ↦ rw (gone, mark_running) (omega arith)
    | inr (found, e) ↦
        let same : OnSome (λ f. occurrences task_id q.queue ≡ occurrences task_id (f.0 ∷ f.1))
            (some found) =
          rw e at (occurrences-remove_first j q.queue) in
        rw (e, mark_running) (places-start found.0 found.1 q same)
  ]

  entries-le : (o : Option Task) → entries o ≤ 1
  entries-le none = omega arith
  entries-le (some t) = omega arith

  pub places-finish :
      (j : Text) (set : Task → Task) (q : TaskQueue)
      → places task_id (finish j set q) ≤ places task_id q
  unfolding finish places
  places-finish j set q = elim (Option-cases (lookup j q.active_tasks)) [
    | inl gone ↦ rw (gone, finish) (omega arith)
    | inr (t, e) ↦ elim (Bool-cases (text_eq j task_id)) [
      | inr miss ↦
          rw (e, finish)
            (rw
              (
                lookup-erase j task_id q.active_tasks,
                lookup-insert j task_id _ q.completed_tasks,
                miss,
              )
              (omega arith))
      | inl hit ↦
          let same : j ≡ task_id = (text_eq_iff j task_id).0 hit in
          let was : entries (lookup task_id q.active_tasks) ≡ 1 =
            ap (λ k. entries (lookup k q.active_tasks)) (sym same) ∙ ap entries e in
          rw (e, finish)
            (rw
              (
                lookup-erase j task_id q.active_tasks,
                lookup-insert j task_id _ q.completed_tasks,
                hit,
              )
              (omega (arith, was)))
    ]
  ]

  places-erase :
      (j : Text) (q : TaskQueue)
      → entries (lookup task_id (erase j q.active_tasks)) ≤ entries (lookup task_id q.active_tasks)
  places-erase j q = rw (lookup-erase j task_id q.active_tasks) (ground (arith, entries-le _))

  pub places-cancel_task :
      (j : Text) (q : TaskQueue) → places task_id (cancel_task j q).1 ≤ places task_id q
  unfolding cancel_task places
  places-cancel_task j q = elim (Option-cases (remove_first j q.queue)) [
    | inl gone ↦ elim (Bool-cases (is_some (lookup j q.active_tasks))) [
      | inl active ↦ rw (gone, active, cancel_task) (omega (arith, places-erase j q))
      | inr idle ↦ rw (gone, idle, cancel_task) (omega arith)
    ]
    | inr (found, e) ↦
        let same : OnSome (λ f. occurrences task_id q.queue ≡ occurrences task_id (f.0 ∷ f.1))
            (some found) =
          rw e at (occurrences-remove_first j q.queue) in
        rw (e, cancel_task) (ground (arith, same))
  ]
