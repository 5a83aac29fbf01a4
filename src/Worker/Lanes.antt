-- ===== src/Worker/Lanes.antt =====
-- worker/task_queue.py: the queue of `TaskQueue` against four queues, one for each priority.
use the_grid_x.Base.{
  ℕ, suc, ◌≤◌, ◌≡◌, refl, ap, ◌∙◌, true, false, leb, ◌==◌, Option, none, some, List, [], ◌∷◌, ◌++◌,
  length, keep, All, insert_sorted, order_by, by_key, IsDescending, if◌then◌else◌, arith,
  Bool-cases, inl, inr, ◌⊎◌,
}
use the_grid_x.Worker.Tasks.{Task, TaskPriority, low, normal, high, urgent, value, queued, running}
use the_grid_x.Worker.Queue.{TaskQueue, priority_value, with_status, enqueue, dequeue, start}

-- The tasks of each priority, the one that came first in front.
pub record Lanes : Type 0 where
  pub urgents : List Task
  pub highs : List Task
  pub normals : List Task
  pub lows : List Task

abbrev pub put_at : TaskPriority → Task → Lanes → Lanes
put_at urgent task l = record l { urgents = l.urgents ++ task ∷ [] }
put_at high task l = record l { highs = l.highs ++ task ∷ [] }
put_at normal task l = record l { normals = l.normals ++ task ∷ [] }
put_at low task l = record l { lows = l.lows ++ task ∷ [] }

abbrev pub put : Task → Lanes → Lanes
put task = put_at task.priority task

-- The first task of the first queue that has one.
abbrev pub next_of : (urgents highs normals lows : List Task) → Option (Task × Lanes)
next_of (t ∷ us) hs ns ls = some (t, record { urgents = us; highs = hs; normals = ns; lows = ls })
next_of [] (t ∷ hs) ns ls = some (t, record { urgents = []; highs = hs; normals = ns; lows = ls })
next_of [] [] (t ∷ ns) ls = some (t, record { urgents = []; highs = []; normals = ns; lows = ls })
next_of [] [] [] (t ∷ ls) = some (t, record { urgents = []; highs = []; normals = []; lows = ls })
next_of [] [] [] [] = none

abbrev pub next : Lanes → Option (Task × Lanes)
next l = next_of l.urgents l.highs l.normals l.lows

abbrev lane : ℕ → List Task → List Task
lane v = keep (λ t. priority_value t == v)

abbrev pub lanes : List Task → Lanes
lanes tasks = record {
  urgents = lane 4 tasks;
  highs = lane 3 tasks;
  normals = lane 2 tasks;
  lows = lane 1 tasks;
}

-- A stable sort leaves the order within a priority.
lane-insert_sorted :
    (v : ℕ) (t : Task) (tasks : List Task)
    → lane v (insert_sorted (by_key priority_value) t tasks) ≡ lane v (t ∷ tasks)
unfolding insert_sorted
lane-insert_sorted v t [] = refl
lane-insert_sorted v t (x ∷ tasks) = ground (arith, lane-insert_sorted v t tasks)

lane-order_by :
    (v : ℕ) (tasks : List Task) → lane v (order_by (by_key priority_value) tasks) ≡ lane v tasks
unfolding order_by
lane-order_by v [] = refl
lane-order_by v (t ∷ tasks) =
    rw (lane-insert_sorted v t (order_by (by_key priority_value) tasks))
      (ground (arith, lane-order_by v tasks))

lane-append :
    (v : ℕ) (tasks : List Task) (t : Task)
    → lane v (tasks ++ t ∷ []) ≡ lane v tasks ++ (if priority_value t == v then t ∷ [] else [])
lane-append v [] t = refl
lane-append v (x ∷ tasks) t = ground (arith, lane-append v tasks t)

lane-append_miss :
    (v : ℕ) (tasks : List Task) (t : Task)
    → (priority_value t == v) ≡ false
    → lane v (tasks ++ t ∷ []) ≡ lane v tasks
lane-append_miss v [] t miss = rw miss
lane-append_miss v (x ∷ tasks) t miss = ground (arith, lane-append_miss v tasks t miss)

lane-append_hit :
    (v : ℕ) (tasks : List Task) (t : Task)
    → (priority_value t == v) ≡ true
    → lane v (tasks ++ t ∷ []) ≡ lane v tasks ++ t ∷ []
lane-append_hit v [] t hit = rw hit
lane-append_hit v (x ∷ tasks) t hit = ground (arith, lane-append_hit v tasks t hit)

-- The four lanes of a longer list, where the new task has the priority `p`.
lanes-append_at :
    (p : TaskPriority) (tasks : List Task) (t : Task)
    → t.priority ≡ p
    → lanes (tasks ++ t ∷ []) ≡ put_at p t (lanes tasks)
lanes-append_at urgent tasks t e =
    let v : (n : ℕ) → (priority_value t == n) ≡ (4 == n) = λ n. ap (λ p. value p == n) e in
    simp (
      lane-append_hit 4 tasks t (v 4),
      lane-append_miss 3 tasks t (v 3),
      lane-append_miss 2 tasks t (v 2),
      lane-append_miss 1 tasks t (v 1),
    )
lanes-append_at high tasks t e =
    let v : (n : ℕ) → (priority_value t == n) ≡ (3 == n) = λ n. ap (λ p. value p == n) e in
    simp (
      lane-append_miss 4 tasks t (v 4),
      lane-append_hit 3 tasks t (v 3),
      lane-append_miss 2 tasks t (v 2),
      lane-append_miss 1 tasks t (v 1),
    )
lanes-append_at normal tasks t e =
    let v : (n : ℕ) → (priority_value t == n) ≡ (2 == n) = λ n. ap (λ p. value p == n) e in
    simp (
      lane-append_miss 4 tasks t (v 4),
      lane-append_miss 3 tasks t (v 3),
      lane-append_hit 2 tasks t (v 2),
      lane-append_miss 1 tasks t (v 1),
    )
lanes-append_at low tasks t e =
    let v : (n : ℕ) → (priority_value t == n) ≡ (1 == n) = λ n. ap (λ p. value p == n) e in
    simp (
      lane-append_miss 4 tasks t (v 4),
      lane-append_miss 3 tasks t (v 3),
      lane-append_miss 2 tasks t (v 2),
      lane-append_hit 1 tasks t (v 1),
    )

lanes-order_by : (tasks : List Task) → lanes (order_by (by_key priority_value) tasks) ≡ lanes tasks
lanes-order_by tasks =
    simp
      (lane-order_by 4 tasks, lane-order_by 3 tasks, lane-order_by 2 tasks, lane-order_by 1 tasks)

-- A full queue takes nothing and stays as it is; any other puts the task, now queued, at the end of
-- the lane of its priority, and the other lanes stay.
pub enqueue-lanes :
    (task : Task) (q : TaskQueue)
    → ((q.max_queue_size ≤ length q.queue) × (enqueue task q ≡ (false, q)))
      ⊎ ((suc (length q.queue) ≤ q.max_queue_size)
          × ((enqueue task q).0 ≡ true)
          × (lanes (enqueue task q).1.queue ≡ put (with_status queued task) (lanes q.queue)))
unfolding enqueue
enqueue-lanes task q = elim (Bool-cases (leb q.max_queue_size (length q.queue))) [
  | inl full ↦ inl (ground arith, rw full refl)
  | inr room ↦ inr (
    ground arith,
    rw room refl,
    rw room (
        lanes-order_by (q.queue ++ with_status queued task ∷ [])
        ∙ lanes-append_at task.priority q.queue (with_status queued task) refl),
  )
]

-- What a dequeue gives, seen as lanes.
abbrev pub pulled : Option Task × TaskQueue → Option (Task × Lanes)
pulled (none, q) = none
pulled (some t, q) = some (t, lanes q.queue)

-- The first task of the first lane that has one, as the queue hands it out.
abbrev pub started : Option (Task × Lanes) → Option (Task × Lanes)
started none = none
started (some (t, l)) = some (with_status running t, l)

-- No task has a priority above the highest.
lane-above :
    (v n : ℕ) (tasks : List Task)
    → All (λ u. priority_value u ≤ n) tasks
    → suc n ≤ v
    → lane v tasks ≡ []
lane-above v n [] h above = refl
lane-above v n (t ∷ tasks) h above = ground (arith, lane-above v n tasks h.1 above, h.0)

-- What stands in front of a queue in order is the first task of the first lane that has one.
lanes-first :
    (p : TaskPriority) (t : Task) (tasks : List Task)
    → t.priority ≡ p
    → All (λ u. priority_value u ≤ priority_value t) tasks
    → next (lanes (t ∷ tasks)) ≡ some (t, lanes tasks)
lanes-first urgent t tasks e h =
    let v : (n : ℕ) → (priority_value t == n) ≡ (4 == n) = λ n. ap (λ p. value p == n) e in
    simp (v 4, v 3, v 2, v 1)
lanes-first high t tasks e h =
    let v : (n : ℕ) → (priority_value t == n) ≡ (3 == n) = λ n. ap (λ p. value p == n) e in
    let value_e : priority_value t ≡ 3 = ap value e in
    simp (v 4, v 3, v 2, v 1, lane-above 4 (value t.priority) tasks h (ground (arith, value_e)))
lanes-first normal t tasks e h =
    let v : (n : ℕ) → (priority_value t == n) ≡ (2 == n) = λ n. ap (λ p. value p == n) e in
    let value_e : priority_value t ≡ 2 = ap value e in
    simp (
      v 4,
      v 3,
      v 2,
      v 1,
      lane-above 4 (value t.priority) tasks h (ground (arith, value_e)),
      lane-above 3 (value t.priority) tasks h (ground (arith, value_e)),
    )
lanes-first low t tasks e h =
    let v : (n : ℕ) → (priority_value t == n) ≡ (1 == n) = λ n. ap (λ p. value p == n) e in
    let value_e : priority_value t ≡ 1 = ap value e in
    simp (
      v 4,
      v 3,
      v 2,
      v 1,
      lane-above 4 (value t.priority) tasks h (ground (arith, value_e)),
      lane-above 3 (value t.priority) tasks h (ground (arith, value_e)),
      lane-above 2 (value t.priority) tasks h (ground (arith, value_e)),
    )

pulled-start :
    (t : Task) (tasks : List Task) (q : TaskQueue)
    → All (λ u. priority_value u ≤ priority_value t) tasks
    → pulled (some (with_status running t), start t tasks q) ≡ started (next (lanes (t ∷ tasks)))
pulled-start t tasks q h = rw (lanes-first t.priority t tasks refl h) refl

dequeue_at :
    (q : TaskQueue) (tasks : List Task)
    → IsDescending priority_value tasks
    → pulled (dequeue (record q { queue = tasks })) ≡ started (next (lanes tasks))
unfolding dequeue
dequeue_at q [] h = refl
dequeue_at q (t ∷ tasks) h = pulled-start t tasks q h.0

-- On a queue in order, dequeue gives the oldest task of the first lane that has one, and leaves the
-- other lanes; it gives none exactly where all four are empty.
pub dequeue-lanes :
    (q : TaskQueue)
    → IsDescending priority_value q.queue
    → pulled (dequeue q) ≡ started (next (lanes q.queue))
dequeue-lanes q h = dequeue_at q q.queue h
