-- ===== src/Worker/Process/Backoff.antt =====
-- worker/main.py: what the connection loop of `run_worker` keeps, and how it ends.
use the_grid_x.Base.{
  ℕ, ◌≤◌, ◌≡◌, refl, Bool, true, false, not, ◌==◌, List, [], ◌∷◌, Text, text, arith, Bool-cases,
  inl, inr,
}
use the_grid_x.Worker.Process.Connecting.{
  Connection, seconds, connected, disconnected, counted, new_connection, Interruption,
  connection_closed, timeout, refused, other_error, runtime_error, Session, left, told_to_stop,
  interrupted, Attempted, handshake_timeout, handshake_error, rejected, odd_answer, accepted,
  failed_early, Round, unreachable, reached, Next, returns, sleeps, next_delay, note, note_if,
  on_interruption, on_session, on_attempt, on_round, connect, go_on, connect_all,
}

-- Between five seconds and a minute.
abbrev pub IsPatient : ℕ → Type 0
IsPatient delay = (seconds 5 ≤ delay) × (delay ≤ seconds 60)

next_delay-IsPatient : (d : ℕ) → IsPatient d → IsPatient (next_delay d)
unfolding next_delay
next_delay-IsPatient d h = ground arith

module _ (timestamp : Text) where
  note_if-IsPatient :
      (b : Bool) (event_type details : Text) (c : Connection)
      → IsPatient c.reconnect_delay
      → IsPatient (note_if timestamp b event_type details c).reconnect_delay
  note_if-IsPatient true event_type details c h = h
  note_if-IsPatient false event_type details c h = h

  -- How long the loop sleeps is bounded as well.
  abbrev pub IsShort : Next → Type 0
  IsShort returns = Unit
  IsShort (sleeps t) = t ≤ seconds 60

  abbrev Bounded : Next × Connection → Type 0
  Bounded r = IsShort r.0 × IsPatient r.1.reconnect_delay

  on_interruption-Bounded :
      (i : Interruption) (c : Connection)
      → IsPatient c.reconnect_delay
      → Bounded (on_interruption timestamp i c)
  unfolding on_interruption
  on_interruption-Bounded connection_closed c h =
      (h.1, note_if-IsPatient (c.connection_attempts == 0) _ _ (disconnected timestamp c) h)
  on_interruption-Bounded (refused message) c h = (
    h.1,
    next_delay-IsPatient _
        (note_if-IsPatient (c.connection_attempts == 0) _ _ (disconnected timestamp c) h),
  )
  on_interruption-Bounded timeout c h = (h.1, h)
  on_interruption-Bounded (runtime_error true message) c h = (tt, h)
  on_interruption-Bounded (runtime_error false message) c h = (h.1, h)
  on_interruption-Bounded (other_error message) c h = (h.1, h)

  on_session-Bounded :
      (s : Session) (c : Connection)
      → IsPatient c.reconnect_delay
      → Bounded (on_session timestamp s c)
  unfolding on_session
  on_session-Bounded left c h = (omega arith, h)
  on_session-Bounded (told_to_stop message) c h = (omega arith, h)
  on_session-Bounded (interrupted i) c h = on_interruption-Bounded i c h

  on_attempt-Bounded :
      (a : Attempted) (c : Connection)
      → IsPatient c.reconnect_delay
      → Bounded (on_attempt timestamp a c)
  unfolding on_attempt
  on_attempt-Bounded handshake_timeout c h = (h.1, h)
  on_attempt-Bounded (handshake_error message) c h = (h.1, h)
  on_attempt-Bounded (rejected message) c h =
      on_interruption-Bounded _ (note timestamp _ message c) h
  on_attempt-Bounded (odd_answer answer) c h = (omega arith, h)
  on_attempt-Bounded (accepted session) c h =
      on_session-Bounded session (connected timestamp c)
        (note_if-IsPatient (not c.is_connected) _ _ c h)
  on_attempt-Bounded (failed_early i) c h = on_interruption-Bounded i c h

  on_round-Bounded :
      (r : Round) (c : Connection) → IsPatient c.reconnect_delay → Bounded (on_round timestamp r c)
  on_round-Bounded unreachable c h = (
    h.1,
    next_delay-IsPatient _ (
        note_if-IsPatient (c.connection_attempts == 0) _ _
          (counted timestamp (disconnected timestamp c)) h),
  )
  on_round-Bounded (reached a) c h =
      on_attempt-Bounded a (record c { reconnect_delay = seconds 5 }) (omega arith, omega arith)

  pub connect-Bounded :
      (r : Round) (c : Connection) → IsPatient c.reconnect_delay → Bounded (connect timestamp r c)
  unfolding connect
  connect-Bounded r c h = elim (Bool-cases c.terminated) [
    | inl stopped ↦ simp stopped (tt, h)
    | inr runs ↦ elim (Bool-cases c.paused) [
      | inl paused ↦ simp (runs, paused) (omega arith, h)
      | inr active ↦ simp (runs, active) (on_round-Bounded r c h)
    ]
  ]

  go_on-IsPatient :
      (next : Next) (c : Connection) (rest : Connection → Connection)
      → IsPatient c.reconnect_delay
      → ((d : Connection) → IsPatient d.reconnect_delay → IsPatient (rest d).reconnect_delay)
      → IsPatient (go_on timestamp next c rest).reconnect_delay
  go_on-IsPatient returns c rest h k = h
  go_on-IsPatient (sleeps t) c rest h k = k c h

  connect_all-IsPatient :
      (rounds : List Round) (c : Connection)
      → IsPatient c.reconnect_delay
      → IsPatient (connect_all timestamp rounds c).reconnect_delay
  unfolding connect_all
  connect_all-IsPatient [] c h = h
  connect_all-IsPatient (r ∷ rounds) c h =
      go_on-IsPatient (connect timestamp r c).0 (connect timestamp r c).1
        (connect_all timestamp rounds) (connect-Bounded r c h).1 (connect_all-IsPatient rounds)

  connect-stopped :
      (r : Round) (c : Connection) → c.terminated ≡ true → connect timestamp r c ≡ (returns, c)
  unfolding connect
  connect-stopped r c h = simp h

  connect_all-stopped :
      (rounds : List Round) (c : Connection)
      → c.terminated ≡ true
      → connect_all timestamp rounds c ≡ c
  unfolding connect_all
  connect_all-stopped [] c h = refl
  connect_all-stopped (r ∷ rounds) c h = simp (connect-stopped r c h)

-- The connection after the message "terminated".
abbrev stopped : (timestamp message : Text) → Connection → Connection
stopped timestamp message c =
    record (note timestamp (text "Terminated") message
      (connected timestamp (record c { reconnect_delay = seconds 5 }))) { terminated = true }

connect-told :
    (timestamp message : Text) (c : Connection)
    → c.terminated ≡ false
    → c.paused ≡ false
    → connect timestamp (reached (accepted (told_to_stop message))) c
      ≡ (sleeps 0, stopped timestamp message c)
unfolding connect on_attempt on_session
connect-told timestamp message c runs active = simp (runs, active)

-- A worker that an administrator terminates calls itself connected from then on: the loop ends
-- without a change to `is_connected`.
pub told_to_stop-connected :
    (timestamp message : Text) (rounds : List Round) (c : Connection)
    → c.terminated ≡ false
    → c.paused ≡ false
    → let after = connect_all timestamp (reached (accepted (told_to_stop message)) ∷ rounds) c in
      (after.is_connected ≡ true) × (after.terminated ≡ true)
unfolding connect_all
told_to_stop-connected timestamp message rounds c runs active =
    rw (connect-told timestamp message c runs active)
      (rw (connect_all-stopped timestamp rounds (stopped timestamp message c) refl) (refl, refl))

-- However the coordinator answers, the loop never waits longer than a minute before its next round,
-- and after each round the delay for the one that follows is between five seconds and a minute.
pub connect-bounds :
    (timestamp : Text) (rounds : List Round) (r : Round)
    → let c = connect_all timestamp rounds new_connection in
      IsShort timestamp (connect timestamp r c).0
      × IsPatient (connect timestamp r c).1.reconnect_delay
connect-bounds timestamp rounds r =
    connect-Bounded timestamp r _
      (connect_all-IsPatient timestamp rounds new_connection (omega arith, omega arith))
