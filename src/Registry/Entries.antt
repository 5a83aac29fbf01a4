-- ===== src/Registry/Entries.antt =====
-- coordinator/workers.py: the operations on one item of `workers_ws`.
use the_grid_x.Base.{ℕ, Option, none, some, Text, Dict, lookup, insert, modify, erase}
use the_grid_x.Database.{Caps, idle, busy}
use the_grid_x.State.{Entry}

unfoldable pub set_worker_busy : (now : ℕ) → Text → Dict Entry → Dict Entry
set_worker_busy now worker_id workers_ws =
    modify worker_id (λ w. record w { status = busy; last_seen = now }) workers_ws

unfoldable pub set_worker_idle : (now : ℕ) → Text → Dict Entry → Dict Entry
set_worker_idle now worker_id workers_ws =
    modify worker_id (λ w. record w { status = idle; last_seen = now }) workers_ws

unfoldable pub register_worker_ws :
    (now : ℕ) → Text → (ws : ℕ) (caps : Caps) (owner_id : Text) → Dict Entry → Dict Entry
register_worker_ws now worker_id ws caps owner_id workers_ws =
    insert worker_id
      (record { ws = ws; caps = caps; status = idle; last_seen = now; owner_id = owner_id })
      workers_ws

unfoldable pub unregister_worker_ws : Text → Dict Entry → Dict Entry
unregister_worker_ws worker_id workers_ws = erase worker_id workers_ws

unfoldable pub update_worker_last_seen : (now : ℕ) → Text → Dict Entry → Dict Entry
update_worker_last_seen now worker_id workers_ws =
    modify worker_id (λ w. record w { last_seen = now }) workers_ws

unfoldable pub get_worker_ws : Text → Dict Entry → Option ℕ
get_worker_ws worker_id workers_ws = elim (lookup worker_id workers_ws) [
  | none ↦ none
  | some entry ↦ some entry.ws
]
