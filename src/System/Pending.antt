-- ===== src/System/Pending.antt =====
-- The jobs that wait: every job whose row says "queued" stands in a list of ids.
use the_grid_x.Base.{
  ◌≡◌, ◌≢◌, ◌⊎◌, ◌∙◌, refl, sym, subst, true, false, Option, none, some, List, [], ◌∷◌, ◌++◌, Text,
  text_eq, text_eq_iff, Dict, lookup, lookup-insert, lookup-modify, insert, modify, In,
  In-append_left, In-append_right, inl, inr, arith, Bool-cases,
}
use mathlib.Core.Option
use mathlib.Core.Bool.{false≢true}
use the_grid_x.Utils.{validate_uuid}
use the_grid_x.Database.{Job, is_queued}

abbrev pub Pending : List Text → Dict Job → Type 0
Pending queue jobs =
    (id : Text) (job : Job)
    → validate_uuid id ≡ true
    → lookup id jobs ≡ some job
    → is_queued job.status ≡ true
    → In id queue

map-eq-some :
    (f : Job → Job) (o : Option Job) (job : Job)
    → Option.map f o ≡ some job
    → (old : Job) × (o ≡ some old) × (f old ≡ job)
map-eq-some f none job e = absurd (cc)
map-eq-some f (some old) job e = (old, refl, ground arith)

-- What a lookup after an update says of the row before it.
modify-cases :
    (k id : Text) (f : Job → Job) (jobs : Dict Job) (job : Job)
    → lookup id (modify k f jobs) ≡ some job
    → ((k ≡ id) × ((old : Job) × (lookup id jobs ≡ some old) × (f old ≡ job)))
      ⊎ ((k ≢ id) × (lookup id jobs ≡ some job))
modify-cases k id f jobs job e = elim (Bool-cases (text_eq k id)) [
  | inl same ↦
      let e' : Option.map f (lookup id jobs) ≡ some job =
        rw same at (sym (lookup-modify k id f jobs) ∙ e) in
      inl ((text_eq_iff k id).0 same, map-eq-some f (lookup id jobs) job e')
  | inr other ↦
      let e' : lookup id jobs ≡ some job = rw other at (sym (lookup-modify k id f jobs) ∙ e) in
      inr (λ same. absurd (false≢true (sym other ∙ (text_eq_iff k id).1 same)), e')
]

module _ (k : Text) (queue : List Text) (f : Job → Job) (jobs : Dict Job) where
  -- An update that makes no row "queued".
  pub modify-Pending :
      ((job : Job) → is_queued (f job).status ≡ true → is_queued job.status ≡ true)
      → Pending queue jobs
      → Pending queue (modify k f jobs)
  modify-Pending keep h id job valid e waits = elim (modify-cases k id f jobs job e) [
    | inl (_, (old, found, same)) ↦
        h id old valid found
          (keep old (subst (λ (j : Job). is_queued j.status ≡ true) (sym same) waits))
    | inr (_, found) ↦ h id job valid found waits
  ]

  -- Any update of a job whose id goes to the end of the list.
  pub requeue-Pending : Pending queue jobs → Pending (queue ++ k ∷ []) (modify k f jobs)
  requeue-Pending h id job valid e waits = elim (modify-cases k id f jobs job e) [
    | inl (same, _) ↦ In-append_right id queue (k ∷ []) (inl (sym same))
    | inr (_, found) ↦ In-append_left id queue (k ∷ []) (h id job valid found waits)
  ]

  -- A job that leaves the list and is no longer "queued".
  pub leave-Pending :
      ((job : Job) → is_queued (f job).status ≡ false)
      → Pending (k ∷ queue) jobs
      → Pending queue (modify k f jobs)
  leave-Pending gone h id job valid e waits = elim (modify-cases k id f jobs job e) [
    | inl (_, (old, found, same)) ↦ absurd (
        false≢true
          (sym (gone old) ∙ subst (λ (j : Job). is_queued j.status ≡ true) (sym same) waits))
    | inr (differ, found) ↦ elim (h id job valid found waits) [
      | inl is_head ↦ absurd (differ (sym is_head))
      | inr in_rest ↦ in_rest
    ]
  ]

module _ (k : Text) (queue : List Text) (jobs : Dict Job) where
  -- An id at the head that stands for no job that waits.
  pub drop-Pending :
      ((job : Job)
        → validate_uuid k ≡ true
        → lookup k jobs ≡ some job
        → is_queued job.status ≡ true
        → ⊥)
      → Pending (k ∷ queue) jobs
      → Pending queue jobs
  drop-Pending idle h id job valid found waits = elim (h id job valid found waits) [
    | inl is_head ↦ absurd (
        idle job (subst (λ (i : Text). validate_uuid i ≡ true) is_head valid)
          (subst (λ (i : Text). lookup i jobs ≡ some job) is_head found) waits)
    | inr in_rest ↦ in_rest
  ]

  -- The head goes to the end.
  pub rotate-Pending : Pending (k ∷ queue) jobs → Pending (queue ++ k ∷ []) jobs
  rotate-Pending h id job valid found waits = elim (h id job valid found waits) [
    | inl is_head ↦ In-append_right id queue (k ∷ []) (inl is_head)
    | inr in_rest ↦ In-append_left id queue (k ∷ []) in_rest
  ]

  pub insert-Pending :
      (new : Job) → Pending queue jobs → Pending (queue ++ k ∷ []) (insert k new jobs)
  insert-Pending new h id job valid e waits = elim (Bool-cases (text_eq k id)) [
    | inl same ↦ In-append_right id queue (k ∷ []) (inl (sym ((text_eq_iff k id).0 same)))
    | inr other ↦
        let found : lookup id jobs ≡ some job =
          rw other at (sym (lookup-insert k id new jobs) ∙ e) in
        In-append_left id queue (k ∷ []) (h id job valid found waits)
  ]
