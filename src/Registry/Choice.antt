-- ===== src/Registry/Choice.antt =====
-- Which worker `get_idle_worker_id` returns.
use the_grid_x.Base.{
  ℕ, ◌≤◌, ◌≡◌, refl, ltb, Bool, true, false, ◌&&◌, Option, none, some, List, [], ◌∷◌, Text, Dict,
  if◌then◌else◌, In, All, All-weaken, inl, inr, arith, Bool-cases, ap, sym, ◌∙◌,
}
use native.Mathlib.Nat.{le_trans}
use the_grid_x.Database.{Result, ok, raise}
use the_grid_x.State.{Entry}
use the_grid_x.Registry.Selection.{
  can_execute, is_idle, owned_by, Candidates, categorize, consider, collect, first_of_lists, prefer,
  get_idle_worker_id,
}

abbrev eligible_by : Result Bool → Entry → Bool
eligible_by (raise _) w = false
eligible_by (ok can) w = is_idle w.status && can

-- An idle worker whose capabilities say, or leave open, that it can execute.
abbrev pub is_eligible : Entry → Bool
is_eligible w = eligible_by (can_execute w.caps) w

-- The best worker of a list so far: its tier, its id and its item.
abbrev Best : Type 0
Best = Option (ℕ × Text × Entry)

abbrev better : ℕ × Text × Entry → Best → Best
better b none = some b
better b (some c) = if ltb c.0 b.0 then some c else some b

abbrev pick_lists : List Text → List Text → List Text → Option (ℕ × Text)
pick_lists (wid ∷ _) coordinators owners = some (0, wid)
pick_lists [] (wid ∷ _) owners = some (1, wid)
pick_lists [] [] (wid ∷ _) = some (2, wid)
pick_lists [] [] [] = none

-- The tier and the id that the three lists of candidates put first.
abbrev pick : Candidates → Option (ℕ × Text)
pick c = pick_lists c.other_workers c.coordinator_workers c.owner_workers

-- A worker of some tier in front of what came first.
abbrev add : ℕ × Text → Option (ℕ × Text) → Option (ℕ × Text)
add t none = some t
add t (some b) = if ltb b.0 t.0 then some b else some t

add_zero : (wid : Text) (p : Option (ℕ × Text)) → some (0, wid) ≡ add (0, wid) p
add_zero wid none = refl
add_zero wid (some b) = ground arith

abbrev view : Best → Option (ℕ × Text)
view none = none
view (some b) = some (b.0, b.1)

view-better : (b : ℕ × Text × Entry) (c : Best) → view (better b c) ≡ add (b.0, b.1) (view c)
view-better b none = refl
view-better b (some c) = ground arith

pick_owners :
    (wid : Text) (others coordinators owners : List Text)
    → pick_lists others coordinators (wid ∷ owners)
      ≡ add (2, wid) (pick_lists others coordinators owners)
pick_owners wid (x ∷ xs) coordinators owners = refl
pick_owners wid [] (x ∷ xs) owners = refl
pick_owners wid [] [] (x ∷ xs) = refl
pick_owners wid [] [] [] = refl

pick_coordinators :
    (wid : Text) (others coordinators owners : List Text)
    → pick_lists others (wid ∷ coordinators) owners
      ≡ add (1, wid) (pick_lists others coordinators owners)
pick_coordinators wid (x ∷ xs) coordinators owners = refl
pick_coordinators wid [] (x ∷ xs) owners = refl
pick_coordinators wid [] [] (x ∷ xs) = refl
pick_coordinators wid [] [] [] = refl

module _ (coordinator_owner exclude_owner : Text) where
  -- 0 for other workers, 1 for the coordinator's, 2 for the submitter's own.
  abbrev pub tier : Entry → ℕ
  tier w =
      if owned_by w.owner_id exclude_owner
      then 2
      else if owned_by w.owner_id coordinator_owner
      then 1
      else 0

  best : Dict Entry → Best
  best [] = none
  best ((wid, w) ∷ rest) = if is_eligible w then better (tier w, wid, w) (best rest) else best rest

  pick-categorize :
      (wid : Text) (w : Entry) (c : Candidates)
      → pick (categorize coordinator_owner exclude_owner wid w c) ≡ add (tier w, wid) (pick c)
  unfolding categorize
  pick-categorize wid w c = elim (Bool-cases (owned_by w.owner_id exclude_owner)) [
    | inl own ↦ rw own (pick_owners wid c.other_workers c.coordinator_workers c.owner_workers)
    | inr foreign ↦ rw foreign (elim (Bool-cases (owned_by w.owner_id coordinator_owner)) [
      | inl house ↦
          rw house (pick_coordinators wid c.other_workers c.coordinator_workers c.owner_workers)
      | inr other ↦ rw other (add_zero wid (pick c))
    ])
  ]

  -- The candidates that `collect` returns put first what `best` finds.
  abbrev Agrees : Result Candidates → Best → Type 0
  Agrees (raise e) b = Unit
  Agrees (ok c) b = pick c ≡ view b

  consider-Agrees :
      (wid : Text) (w : Entry) (can : Result Bool) (r : Result Candidates) (b : Best)
      → Agrees r b
      → Agrees
          (consider coordinator_owner exclude_owner wid w can r)
          (if eligible_by can w then better (tier w, wid, w) b else b)
  unfolding consider
  consider-Agrees wid w (raise e) r b h = tt
  consider-Agrees wid w (ok can) (raise e) b h = tt
  consider-Agrees wid w (ok can) (ok c) b h = elim (Bool-cases (is_idle w.status && can)) [
    | inl fit ↦ rw fit (
        pick-categorize wid w c ∙ (ap (add (tier w, wid)) h ∙ sym (view-better (tier w, wid, w) b)))
    | inr unfit ↦ rw unfit h
  ]

  collect-Agrees : (d : Dict Entry) → Agrees (collect coordinator_owner exclude_owner d) (best d)
  unfolding collect best
  collect-Agrees [] = refl
  collect-Agrees ((wid, w) ∷ d) =
      consider-Agrees wid w (can_execute w.caps) _ (best d) (collect-Agrees d)

  -- What it means that the worker `wid` is the right choice.
  pub record IsChoice (d : Dict Entry) (wid : Text) (w : Entry) : Type 0 where
    pub listed : In (wid, w) d
    pub eligible : is_eligible w ≡ true
    pub preferred : All (λ e. is_eligible e.1 ≡ true → tier w ≤ tier e.1) d

  abbrev Found : Dict Entry → Best → Type 0
  Found d none = All (λ e. is_eligible e.1 ≡ false) d
  Found d (some b) = (b.0 ≡ tier b.2) × IsChoice d b.1 b.2

  better-Found :
      (wid : Text) (w : Entry) (d : Dict Entry) (b : Best)
      → is_eligible w ≡ true
      → Found d b
      → Found ((wid, w) ∷ d) (better (tier w, wid, w) b)
  better-Found wid w d none fit h = (
    refl,
    record {
      listed = inl refl;
      eligible = fit;
      preferred = (
        λ _. omega arith,
        All-weaken (λ e. is_eligible e.1 ≡ false) _ d (λ e unfit fits. absurd (cc)) h,
      );
    },
  )
  better-Found wid w d (some b) fit (own, choice) = elim (Bool-cases (ltb b.0 (tier w))) [
    | inl lower ↦
        let less : tier b.2 ≤ tier w = ground arith in
        rw lower (
          own,
          record {
            listed = inr choice.listed;
            eligible = choice.eligible;
            preferred = (λ _. less, choice.preferred);
          },
        )
    | inr higher ↦
        let more : tier w ≤ tier b.2 = ground arith in
        rw higher (
          refl,
          record {
            listed = inl refl;
            eligible = fit;
            preferred = (
              λ _. omega arith,
              All-weaken (λ e. is_eligible e.1 ≡ true → tier b.2 ≤ tier e.1) _ d
                  (λ e le fits. le_trans more (le fits)) choice.preferred,
            );
          },
        )
  ]

  -- A worker that is not eligible changes nothing.
  skip-Found :
      (wid : Text) (w : Entry) (d : Dict Entry) (b : Best)
      → is_eligible w ≡ false
      → Found d b
      → Found ((wid, w) ∷ d) b
  skip-Found wid w d none unfit h = (unfit, h)
  skip-Found wid w d (some b) unfit (own, choice) = (
    own,
    record {
      listed = inr choice.listed;
      eligible = choice.eligible;
      preferred = (λ fits. absurd (cc), choice.preferred);
    },
  )

  best-Found : (d : Dict Entry) → Found d (best d)
  unfolding best
  best-Found [] = tt
  best-Found ((wid, w) ∷ d) = elim (Bool-cases (is_eligible w)) [
    | inl fit ↦ rw fit (better-Found wid w d (best d) fit (best-Found d))
    | inr unfit ↦ rw unfit (skip-Found wid w d (best d) unfit (best-Found d))
  ]

  abbrev second : Option (ℕ × Text) → Option Text
  second none = none
  second (some b) = some b.1

  first-pick :
      (others coordinators owners : List Text)
      → first_of_lists others coordinators owners ≡ second (pick_lists others coordinators owners)
  first-pick (x ∷ xs) coordinators owners = refl
  first-pick [] (x ∷ xs) owners = refl
  first-pick [] [] (x ∷ xs) = refl
  first-pick [] [] [] = refl

  -- What a returned value says of the registry.
  abbrev pub Answers : Dict Entry → Result (Option Text) → Type 0
  Answers d (raise e) = Unit
  Answers d (ok none) = All (λ e. is_eligible e.1 ≡ false) d
  Answers d (ok (some wid)) = (w : Entry) × IsChoice d wid w

  Answers-prefer :
      (d : Dict Entry) (r : Result Candidates) (b : Best)
      → Agrees r b
      → Found d b
      → Answers d (prefer r)
  Answers-prefer d (raise e) b h found = tt
  Answers-prefer d (ok c) none h found =
      rw (first-pick c.other_workers c.coordinator_workers c.owner_workers) (rw h found)
  Answers-prefer d (ok c) (some b) h (own, choice) =
      rw (first-pick c.other_workers c.coordinator_workers c.owner_workers) (rw h (b.2, choice))

  -- Where `get_idle_worker_id` returns a worker, that worker is connected and eligible (idle, and
  -- not marked unable to execute), and no eligible worker is of a tier that is preferred to its
  -- own: other workers, then the coordinator's, then the submitter's. Where it returns none, no
  -- connected worker is eligible.
  pub get_idle_worker_id-Answers :
      (d : Dict Entry) → Answers d (get_idle_worker_id coordinator_owner exclude_owner d)
  unfolding get_idle_worker_id
  get_idle_worker_id-Answers d =
      Answers-prefer d (collect coordinator_owner exclude_owner d) (best d) (collect-Agrees d)
        (best-Found d)
