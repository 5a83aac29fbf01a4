-- ===== src/WorkerApp/Kept.antt =====
-- worker_app/job_history.py: what the history holds after a job is added.
use the_grid_x.Base.{
  ◌≤◌, ℤ, ◌≡◌, refl, Bool, true, false, not, List, [], ◌∷◌, take, keep, length, length-take-le, All,
  All-take, Text, Bool-cases, inl, inr,
}
use the_grid_x.WorkerApp.History.{
  JobRecord, HistoryFile, load_job_history, save_job_history, has_id, new_record,
  add_job_to_history,
}

All-keep-not :
    (p : JobRecord → Bool) (jobs : List JobRecord)
    → All (λ j. p j ≡ false) (keep (λ j. not (p j)) jobs)
All-keep-not p [] = tt
All-keep-not p (j ∷ jobs) = elim (Bool-cases (p j)) [
  | inl hit ↦ rw hit (All-keep-not p jobs)
  | inr miss ↦ rw miss (miss, All-keep-not p jobs)
]

-- A job that is added stands in front, and no other record has its id; the history holds at most 100
-- records.
pub add_job_to_history-first :
    (now : ℤ) (job_id language code_preview : Text) (file : HistoryFile)
    → (rest : List JobRecord) × (load_job_history
          (add_job_to_history now job_id language code_preview file)
        ≡ new_record now job_id language code_preview ∷ rest)
      × All (λ j. has_id job_id j ≡ false) rest
      × (length rest ≤ 99)
unfolding add_job_to_history save_job_history load_job_history
add_job_to_history-first now job_id language code_preview file =
    let others : List JobRecord = keep (λ j. not (has_id job_id j)) (load_job_history file) in
    (
      take 99 others,
      refl,
      All-take (λ a b. true) (λ j. has_id job_id j ≡ false) 99 others
          (All-keep-not (has_id job_id) (load_job_history file)),
      length-take-le 99 others,
    )
