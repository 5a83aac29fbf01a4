-- ===== src/Schemas/RoundTrip.antt =====
-- common/schemas.py: `to_dict` and `from_dict` against one another.
use the_grid_x.Base.{◌≡◌, refl, [], ◌∷◌, text, text_eq, lookup}
use the_grid_x.Schemas.Values.{Json, str, get_or, or_json}
use the_grid_x.Schemas.Jobs.{
  JobLimits, job_limits, job_limits_to_dict, job_limits_from_dict, JobSchema, job_schema,
  job_schema_to_dict, job_schema_from_dict,
}
use the_grid_x.Schemas.Workers.{
  WorkerCapabilities, worker_capabilities, worker_capabilities_to_dict,
  worker_capabilities_from_dict, WorkerSchema, worker_schema, worker_schema_to_dict,
  worker_schema_from_dict,
}
use the_grid_x.Schemas.Accounts.{
  CreditBalance, credit_balance, credit_balance_to_dict, credit_balance_from_dict,
}
use the_grid_x.Schemas.Tasks.{
  TaskSchema, task_schema, task_schema_to_dict, task_schema_from_dict, WebSocketMessage,
  websocket_message, websocket_message_to_dict, websocket_message_from_dict,
}

-- Each record that is written to a dict is read from it as it was, but for the id of a job where it
-- is falsy: it is read as "".
pub from_dict-to_dict :
    ((x : JobLimits) → job_limits_from_dict (job_limits_to_dict x) ≡ x)
    × ((x : JobSchema)
        → job_schema_from_dict (job_schema_to_dict x)
          ≡ record x { job_id = or_json x.job_id (str (text "")) })
    × ((x : WorkerCapabilities) → worker_capabilities_from_dict (worker_capabilities_to_dict x) ≡ x)
    × ((x : WorkerSchema) → worker_schema_from_dict (worker_schema_to_dict x) ≡ x)
    × ((x : CreditBalance) → credit_balance_from_dict (credit_balance_to_dict x) ≡ x)
    × ((x : TaskSchema) → task_schema_from_dict (task_schema_to_dict x) ≡ x)
    × ((x : WebSocketMessage) → websocket_message_from_dict (websocket_message_to_dict x) ≡ x)
unfolding lookup text_eq get_or job_limits_from_dict job_schema_from_dict
    worker_capabilities_from_dict worker_schema_from_dict credit_balance_from_dict
    task_schema_from_dict websocket_message_from_dict job_limits_to_dict job_schema_to_dict
    worker_capabilities_to_dict worker_schema_to_dict credit_balance_to_dict task_schema_to_dict
    websocket_message_to_dict
from_dict-to_dict = (λ x. refl, λ x. refl, λ x. refl, λ x. refl, λ x. refl, λ x. refl, λ x. refl)

-- `from_dict` has the defaults of the dataclasses: of a dict that has the fields without a default
-- alone, each record is the one that its constructor gives, but for a falsy id of a job.
pub from_dict-default :
    (job_limits_from_dict [] ≡ job_limits)
    × ((job_id user_id code : Json)
        → job_schema_from_dict
            ((text "id", job_id) ∷ (text "user_id", user_id) ∷ (text "code", code) ∷ [])
          ≡ job_schema (or_json job_id (str (text ""))) user_id code)
    × (worker_capabilities_from_dict [] ≡ worker_capabilities)
    × ((id owner_id : Json)
        → worker_schema_from_dict ((text "id", id) ∷ (text "owner_id", owner_id) ∷ [])
          ≡ worker_schema id owner_id)
    × ((user_id : Json)
        → credit_balance_from_dict ((text "user_id", user_id) ∷ []) ≡ credit_balance user_id)
    × ((task_id job_id : Json)
        → task_schema_from_dict ((text "task_id", task_id) ∷ (text "job_id", job_id) ∷ [])
          ≡ task_schema task_id job_id)
    × ((type : Json)
        → websocket_message_from_dict ((text "type", type) ∷ []) ≡ websocket_message type)
unfolding lookup text_eq get_or job_limits_from_dict job_schema_from_dict
    worker_capabilities_from_dict worker_schema_from_dict credit_balance_from_dict
    task_schema_from_dict websocket_message_from_dict
from_dict-default = (
  refl,
  λ job_id user_id code. refl,
  refl,
  λ id owner_id. refl,
  λ user_id. refl,
  λ task_id job_id. refl,
  λ type. refl,
)
