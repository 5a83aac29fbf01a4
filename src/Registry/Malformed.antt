-- ===== src/Registry/Malformed.antt =====
-- Capabilities that `get_idle_worker_id` of coordinator/workers.py cannot read.
use the_grid_x.Base.{◌≡◌, ◌⊎◌, refl, Bool, [], ◌∷◌, Text, Dict, In, inl, inr, subst}
use the_grid_x.Database.{
  Result, Exception, ok, raise, attribute_error, Caps, other_value, quoted_other,
}
use the_grid_x.State.{Entry}
use the_grid_x.Registry.Selection.{can_execute, consider, collect, get_idle_worker_id}

abbrev pub IsUnreadable : Caps → Type 0
IsUnreadable caps = (caps ≡ other_value) ⊎ (caps ≡ quoted_other)

can_execute-unreadable :
    (caps : Caps) → IsUnreadable caps → can_execute caps ≡ raise attribute_error
can_execute-unreadable caps (inl e) = rw e refl
can_execute-unreadable caps (inr e) = rw e refl

module _ (coordinator_owner exclude_owner : Text) where
  consider-raise :
      (wid : Text) (w : Entry) (can : Result Bool) (e : Exception)
      → (e' : Exception) × (consider coordinator_owner exclude_owner wid w can (raise e) ≡ raise e')
  unfolding consider
  consider-raise wid w (raise e') e = (e', refl)
  consider-raise wid w (ok can) e = (e, refl)

  collect_malformed :
      (d : Dict Entry) (wid : Text) (w : Entry)
      → In (wid, w) d
      → can_execute w.caps ≡ raise attribute_error
      → (e : Exception) × (collect coordinator_owner exclude_owner d ≡ raise e)
  unfolding collect consider
  collect_malformed [] wid w h bad = absurd h
  collect_malformed ((j, v) ∷ d) wid w (inl e) bad =
      let same : can_execute v.caps ≡ raise attribute_error =
        subst (λ (p : Text × Entry). can_execute p.1.caps ≡ raise attribute_error) e bad in
      (attribute_error, rw same)
  collect_malformed ((j, v) ∷ d) wid w (inr h) bad =
      let (e, raised) = collect_malformed d wid w h bad in
      rw raised (consider-raise j v (can_execute v.caps) e)

  -- One connected worker whose `caps` is unreadable (no string, not a dict and not falsy, or a string
  -- that holds the JSON of anything but a dict) makes `get_idle_worker_id` raise, whatever its status
  -- and whoever else is idle.
  pub get_idle_worker_id_malformed :
      (d : Dict Entry) (wid : Text) (w : Entry)
      → In (wid, w) d
      → IsUnreadable w.caps
      → (e : Exception) × (get_idle_worker_id coordinator_owner exclude_owner d ≡ raise e)
  unfolding get_idle_worker_id
  get_idle_worker_id_malformed d wid w h bad =
      let (e, raised) = collect_malformed d wid w h (can_execute-unreadable w.caps bad) in
      (e, rw raised)
