-- ===== src/Schemas/Tasks.antt =====
-- common/schemas.py: the records of tasks and of messages.
use the_grid_x.Base.{pos, [], ◌∷◌, text, Dict}
use the_grid_x.Schemas.Values.{Json, null, int, real, str, object, no_fields, get_or}

pub record TaskSchema : Type 0 where
  pub task_id : Json
  pub job_id : Json
  pub status : Json
  pub created_at : Json
  pub started_at : Json
  pub completed_at : Json
  pub result : Json
  pub error : Json
  pub priority : Json

-- The defaults of the dataclass.
abbrev pub task_schema : Json → Json → TaskSchema
task_schema task_id job_id = record {
  task_id = task_id;
  job_id = job_id;
  status = str (text "pending");
  created_at = real (pos 0);
  started_at = null;
  completed_at = null;
  result = null;
  error = null;
  priority = int (pos 0);
}

unfoldable pub task_schema_to_dict : TaskSchema → Dict Json
task_schema_to_dict x =
    (text "task_id", x.task_id)
    ∷ (text "job_id", x.job_id)
    ∷ (text "status", x.status)
    ∷ (text "created_at", x.created_at)
    ∷ (text "started_at", x.started_at)
    ∷ (text "completed_at", x.completed_at)
    ∷ (text "result", x.result)
    ∷ (text "error", x.error)
    ∷ (text "priority", x.priority)
    ∷ []

unfoldable pub task_schema_from_dict : Dict Json → TaskSchema
task_schema_from_dict d = record {
  task_id = get_or (text "task_id") (str (text "")) d;
  job_id = get_or (text "job_id") (str (text "")) d;
  status = get_or (text "status") (str (text "pending")) d;
  created_at = get_or (text "created_at") (real (pos 0)) d;
  started_at = get_or (text "started_at") null d;
  completed_at = get_or (text "completed_at") null d;
  result = get_or (text "result") null d;
  error = get_or (text "error") null d;
  priority = get_or (text "priority") (int (pos 0)) d;
}

pub record WebSocketMessage : Type 0 where
  pub type : Json
  pub contents : Json
  pub timestamp : Json

-- The defaults of the dataclass.
abbrev pub websocket_message : Json → WebSocketMessage
websocket_message type = record { type = type; contents = object no_fields; timestamp = null }

unfoldable pub websocket_message_to_dict : WebSocketMessage → Dict Json
websocket_message_to_dict x =
    (text "type", x.type) ∷ (text "data", x.contents) ∷ (text "timestamp", x.timestamp) ∷ []

unfoldable pub websocket_message_from_dict : Dict Json → WebSocketMessage
websocket_message_from_dict d = record {
  type = get_or (text "type") (str (text "")) d;
  contents = get_or (text "data") (object no_fields) d;
  timestamp = get_or (text "timestamp") null d;
}
