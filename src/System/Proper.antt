-- ===== src/System/Proper.antt =====
-- A registry in which `get_idle_worker_id` of coordinator/workers.py raises nothing, and the
-- operations that keep it so.
use the_grid_x.Base.{
  ℕ, ◌≡◌, refl, subst, Bool, true, Option, some, [], ◌∷◌, Text, Dict, All, ◌&&◌, All-In, All-modify,
  inl, inr, Bool-cases,
}
use the_grid_x.Utils.{validate_uuid}
use the_grid_x.Database.{ok}
use the_grid_x.State.{Entry}
use the_grid_x.Registry.{
  Candidates, can_execute, is_idle, categorize, consider, collect, first_of_lists,
  get_idle_worker_id, set_worker_busy, set_worker_idle,
}
use the_grid_x.Registry.Choice.{Answers, get_idle_worker_id-Answers}

-- A worker with an id of the right form and with capabilities that can be read.
abbrev pub IsProper : Text × Entry → Type 0
IsProper e = (validate_uuid e.0 ≡ true) × ((can : Bool) × (can_execute e.1.caps ≡ ok can))

abbrev pub IsProperRegistry : Dict Entry → Type 0
IsProperRegistry = All IsProper

module _ (now : ℕ) (worker_id : Text) (ws : Dict Entry) where
  pub set_worker_busy-IsProper :
      IsProperRegistry ws → IsProperRegistry (set_worker_busy now worker_id ws)
  unfolding set_worker_busy
  set_worker_busy-IsProper h = All-modify IsProper worker_id _ ws (λ j v p. p) h

  pub set_worker_idle-IsProper :
      IsProperRegistry ws → IsProperRegistry (set_worker_idle now worker_id ws)
  unfolding set_worker_idle
  set_worker_idle-IsProper h = All-modify IsProper worker_id _ ws (λ j v p. p) h

module _ (coordinator_owner exclude_owner : Text) where
  consider-ok :
      (wid : Text) (w : Entry) (can : Bool) (c : Candidates)
      → (c' : Candidates) × (consider coordinator_owner exclude_owner wid w (ok can) (ok c) ≡ ok c')
  unfolding consider
  consider-ok wid w can c = elim (Bool-cases (is_idle w.status && can)) [
    | inl fit ↦ (categorize coordinator_owner exclude_owner wid w c, rw fit)
    | inr unfit ↦ (c, rw unfit)
  ]

  collect-ok :
      (d : Dict Entry)
      → IsProperRegistry d
      → (c : Candidates) × (collect coordinator_owner exclude_owner d ≡ ok c)
  unfolding collect
  collect-ok [] h = (_, refl)
  collect-ok ((wid, w) ∷ d) ((valid, (can, e)), h) =
      let (c, collected) = collect-ok d h in rw (e, collected) (consider-ok wid w can c)

  -- Where each connected worker has a valid id and readable capabilities, `get_idle_worker_id`
  -- returns, with a worker or with none, and raises nothing.
  pub get_idle_worker_id-ok :
      (d : Dict Entry)
      → IsProperRegistry d
      → (o : Option Text) × (get_idle_worker_id coordinator_owner exclude_owner d ≡ ok o)
  unfolding get_idle_worker_id
  get_idle_worker_id-ok d h =
      let (c, collected) = collect-ok d h in
      (first_of_lists c.other_workers c.coordinator_workers c.owner_workers, rw collected)

  -- The worker that is chosen has a valid id.
  pub chosen_valid :
      (d : Dict Entry) (wid : Text)
      → IsProperRegistry d
      → get_idle_worker_id coordinator_owner exclude_owner d ≡ ok (some wid)
      → validate_uuid wid ≡ true
  chosen_valid d wid h e =
      let (w, choice) =
        subst (Answers coordinator_owner exclude_owner d) e
          (get_idle_worker_id-Answers coordinator_owner exclude_owner d) in
      (All-In IsProper (wid, w) d h choice.listed).0
