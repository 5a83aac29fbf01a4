-- ===== src/Registry/Connection.antt =====
-- coordinator/workers.py: `disconnect_worker` and `broadcast_to_all_workers`. Whether a send
-- succeeds is up to the network: `delivers`.
use the_grid_x.Base.{
  ℕ, suc, Bool, true, false, none, some, List, [], ◌∷◌, ◌++◌, Text, Dict, lookup, if◌then◌else◌,
}
use the_grid_x.Database.{db_set_worker_offline}
use the_grid_x.State.{Entry, State, Message, terminated, broadcast}
use the_grid_x.Registry.Entries.{unregister_worker_ws}

module _ (delivers : ℕ → Bool) where
  -- `await ws.send(…)`: what was delivered stands in the log.
  abbrev pub post : ℕ → Message → List (ℕ × Message) → List (ℕ × Message)
  post ws message outbox = if delivers ws then outbox ++ (ws, message) ∷ [] else outbox

  unfoldable pub disconnect_worker : Text → State → Bool × State
  disconnect_worker worker_id s = elim (lookup worker_id s.workers_ws) [
    | none ↦ (false, s)
    | some entry ↦ (
      true,
      record s {
        db = db_set_worker_offline worker_id s.db;
        workers_ws = unregister_worker_ws worker_id s.workers_ws;
        outbox = post entry.ws terminated s.outbox;
      },
    )
  ]

  -- The loop over the workers, with the count and the log.
  unfoldable pub broadcast_from :
      Text → Dict Entry → ℕ × List (ℕ × Message) → ℕ × List (ℕ × Message)
  broadcast_from message [] (count, outbox) = (count, outbox)
  broadcast_from message ((_, entry) ∷ rest) (count, outbox) = broadcast_from message rest (
      if delivers entry.ws
      then (suc count, outbox ++ (entry.ws, broadcast message) ∷ [])
      else (count, outbox))

  unfoldable pub broadcast_to_all_workers : Text → State → ℕ × State
  unfolding broadcast_from
  broadcast_to_all_workers message s =
      let (count, outbox) = broadcast_from message s.workers_ws (0, s.outbox) in
      (count, record s { outbox = outbox })
