-- ===== src/Worker/Process/Connecting.antt =====
-- worker/main.py: the connection loop of `run_worker`. A time is a number of 128ths of a second, in
-- which every delay that the loop reaches is a whole number.
use the_grid_x.Base.{
  ℕ, ◌+◌, ◌*◌, ◌/◌, ltb, ◌==◌, Bool, true, false, not, List, [], ◌∷◌, ◌++◌, take, Text, text,
  if◌then◌else◌,
}
use the_grid_x.Worker.Process.Activity.{ActivityLogger, new_logger, add_entry}

pub record Connection : Type 0 where
  pub is_connected : Bool
  pub connection_attempts : ℕ
  pub paused : Bool
  pub terminated : Bool
  pub reconnect_delay : ℕ
  pub activity_log : ActivityLogger

abbrev pub seconds : ℕ → ℕ
seconds n = n * 128

abbrev pub new_connection : Connection
new_connection = record {
  is_connected = false;
  connection_attempts = 0;
  paused = false;
  terminated = false;
  reconnect_delay = seconds 5;
  activity_log = new_logger 50;
}

-- What the `except` clauses of the loop tell apart.
pub data Interruption : Type 0 where
  connection_closed timeout : Interruption
  refused other_error : (message : Text) → Interruption
  runtime_error : (authentication_failed : Bool) (message : Text) → Interruption

-- How the message loop ends: at its end or by a pause, on the message "terminated", or by an
-- exception.
pub data Session : Type 0 where
  left : Session
  told_to_stop : (message : Text) → Session
  interrupted : Interruption → Session

-- What comes of a connection to a coordinator that can be reached, up to its answer to "hello".
pub data Attempted : Type 0 where
  handshake_timeout : Attempted
  handshake_error rejected odd_answer : (message : Text) → Attempted
  accepted : Session → Attempted
  failed_early : Interruption → Attempted

pub data Round : Type 0 where
  unreachable : Round
  reached : Attempted → Round

-- Whether the loop returns, or how long it sleeps before its next round.
pub data Next : Type 0 where
  returns : Next
  sleeps : ℕ → Next

-- `min(reconnect_delay * 1.5, max_reconnect_delay)`
unfoldable pub next_delay : ℕ → ℕ
next_delay delay = if ltb (seconds 60) (delay * 3 / 2) then seconds 60 else delay * 3 / 2

-- `timestamp` is the time as text.
module _ (timestamp : Text) where
  abbrev pub note : (event_type details : Text) → Connection → Connection
  note event_type details c = record c {
    activity_log =
        add_entry (record { timestamp = timestamp; event_type = event_type; details = details })
          c.activity_log;
  }

  abbrev pub note_if : Bool → (event_type details : Text) → Connection → Connection
  note_if true event_type details c = note event_type details c
  note_if false event_type details c = c

  abbrev pub disconnected : Connection → Connection
  disconnected c = record c { is_connected = false }

  abbrev pub counted : Connection → Connection
  counted c = record c { connection_attempts = c.connection_attempts + 1 }

  abbrev pub slower : Connection → Connection
  slower c = record c { reconnect_delay = next_delay c.reconnect_delay }

  -- The `except` clauses.
  unfoldable pub on_interruption : Interruption → Connection → Next × Connection
  on_interruption connection_closed c = (
    sleeps c.reconnect_delay,
    counted (
        note_if (c.connection_attempts == 0) (text "Disconnected") (text "Connection closed")
          (disconnected c)),
  )
  on_interruption (refused message) c = (
    sleeps c.reconnect_delay,
    slower (
        counted (
          note_if (c.connection_attempts == 0) (text "Connection Error") (take 50 message)
            (disconnected c))),
  )
  on_interruption timeout c = (
    sleeps c.reconnect_delay,
    note (text "Timeout") (text "No response from coordinator") (disconnected c),
  )
  on_interruption (runtime_error true message) c = (returns, disconnected c)
  on_interruption (runtime_error false message) c =
      (sleeps c.reconnect_delay, note (text "Error") (take 50 message) (disconnected c))
  on_interruption (other_error message) c =
      (sleeps c.reconnect_delay, note (text "Error") (take 50 message) (disconnected c))

  -- From the acknowledgment on.
  unfoldable pub on_session : Session → Connection → Next × Connection
  on_session left c = (sleeps 0, c)
  on_session (told_to_stop message) c =
      (sleeps 0, record (note (text "Terminated") message c) { terminated = true })
  on_session (interrupted i) c = on_interruption i c

  abbrev pub connected : Connection → Connection
  connected c =
      record (note_if (not c.is_connected) (text "Connected")
        (text "Worker registered with coordinator") c) {
          is_connected = true;
          connection_attempts = 0;
        }

  unfoldable pub on_attempt : Attempted → Connection → Next × Connection
  on_attempt handshake_timeout c = (
    sleeps c.reconnect_delay,
    note (text "Timeout") (text "Handshake timeout with coordinator") c,
  )
  on_attempt (handshake_error message) c =
      (sleeps c.reconnect_delay, note (text "Handshake Error") (take 50 message) c)
  on_attempt (rejected message) c =
      on_interruption (runtime_error true (text "Authentication failed - invalid credentials"))
        (note (text "Auth Failed") message c)
  on_attempt (odd_answer answer) c =
      (sleeps (seconds 30), note (text "Handshake Error") (text "Invalid response: " ++ answer) c)
  on_attempt (accepted session) c = on_session session (connected c)
  on_attempt (failed_early i) c = on_interruption i c

  -- A coordinator that cannot be reached.
  abbrev pub on_unreachable : Connection → Next × Connection
  on_unreachable c = (
    sleeps c.reconnect_delay,
    slower (
        note_if (c.connection_attempts == 0) (text "Connection Failed")
          (text "Coordinator unreachable") (counted (disconnected c))),
  )

  abbrev pub on_round : Round → Connection → Next × Connection
  on_round unreachable c = on_unreachable c
  on_round (reached a) c = on_attempt a (record c { reconnect_delay = seconds 5 })

  -- One round of the loop, with what then happens, if it comes to that.
  unfoldable pub connect : Round → Connection → Next × Connection
  connect round c =
      if c.terminated
      then (returns, c)
      else if c.paused
      then (sleeps (seconds 1), disconnected c)
      else on_round round c

  abbrev pub go_on : Next → Connection → (Connection → Connection) → Connection
  go_on returns c rest = c
  go_on (sleeps t) c rest = rest c

  unfoldable pub connect_all : List Round → Connection → Connection
  connect_all [] c = c
  connect_all (round ∷ rounds) c =
      let (next, c') = connect round c in go_on next c' (connect_all rounds)

abbrev pub pause_worker : (timestamp : Text) → Connection → Connection
pause_worker timestamp c =
    note timestamp (text "Paused") (text "Worker paused by user") (record c { paused = true })

abbrev pub resume_worker : (timestamp : Text) → Connection → Connection
resume_worker timestamp c =
    note timestamp (text "Resumed") (text "Worker resumed by user") (record c { paused = false })
