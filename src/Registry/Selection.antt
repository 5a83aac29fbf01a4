-- ===== src/Registry/Selection.antt =====
-- coordinator/workers.py: `get_idle_worker_id`. `COORDINATOR_OWNER` is a parameter.
use the_grid_x.Base.{
  Bool, true, false, not, ◌&&◌, Option, none, some, List, [], ◌∷◌, Text, text_eq, is_empty, Dict,
  if◌then◌else◌, or_else,
}
use the_grid_x.Database.{
  Caps, falsy, other_value, quoted_invalid, quoted_other, object, quoted_object, WorkerStatus, idle,
  Result, ok, raise, attribute_error,
}
use the_grid_x.State.{Entry}

-- `caps.get("can_execute", True)` of what the first lines of the loop make of `caps`. What is
-- neither falsy nor a dict, nor a string that holds a dict or no JSON at all, has no `get`.
abbrev pub can_execute : Caps → Result Bool
can_execute falsy = ok true
can_execute quoted_invalid = ok true
can_execute (object can) = ok (or_else can true)
can_execute (quoted_object can) = ok (or_else can true)
can_execute other_value = raise attribute_error
can_execute quoted_other = raise attribute_error

abbrev pub is_idle : WorkerStatus → Bool
is_idle idle = true
is_idle _ = false

-- `owner and owner == other`
abbrev pub owned_by : (owner other : Text) → Bool
owned_by owner other = not (is_empty owner) && text_eq owner other

pub record Candidates : Type 0 where
  pub other_workers : List Text
  pub coordinator_workers : List Text
  pub owner_workers : List Text

abbrev pub first_of_lists : List Text → List Text → List Text → Option Text
first_of_lists (wid ∷ _) coordinators owners = some wid
first_of_lists [] (wid ∷ _) owners = some wid
first_of_lists [] [] (wid ∷ _) = some wid
first_of_lists [] [] [] = none

abbrev pub prefer : Result Candidates → Result (Option Text)
prefer (raise e) = raise e
prefer (ok c) = ok (first_of_lists c.other_workers c.coordinator_workers c.owner_workers)

module _ (coordinator_owner : Text) where
  -- "Categorize": what one iteration does with the worker. The rest of the loop is done before
  -- it, so the worker goes in front.
  unfoldable pub categorize : (exclude_owner wid : Text) → Entry → Candidates → Candidates
  categorize exclude_owner wid w c =
      if owned_by w.owner_id exclude_owner
      then record c { owner_workers = wid ∷ c.owner_workers }
      else if owned_by w.owner_id coordinator_owner
      then record c { coordinator_workers = wid ∷ c.coordinator_workers }
      else record c { other_workers = wid ∷ c.other_workers }

  -- One iteration on the candidates of the later ones; the AttributeError of one ends the loop.
  unfoldable pub consider :
      (exclude_owner wid : Text) → Entry → Result Bool → Result Candidates → Result Candidates
  consider exclude_owner wid w (raise e) rest = raise e
  consider exclude_owner wid w (ok can) (raise e) = raise e
  consider exclude_owner wid w (ok can) (ok c) =
      if is_idle w.status && can then ok (categorize exclude_owner wid w c) else ok c

  unfoldable pub collect : (exclude_owner : Text) → Dict Entry → Result Candidates
  collect exclude_owner [] =
      ok (record { other_workers = []; coordinator_workers = []; owner_workers = [] })
  collect exclude_owner ((wid, w) ∷ rest) =
      consider exclude_owner wid w (can_execute w.caps) (collect exclude_owner rest)

  unfoldable pub get_idle_worker_id : (exclude_owner : Text) → Dict Entry → Result (Option Text)
  get_idle_worker_id exclude_owner workers_ws = prefer (collect exclude_owner workers_ws)
