-- ===== src/Schemas/Accounts.antt =====
-- common/schemas.py: the records of credits.
use the_grid_x.Base.{pos, [], ◌∷◌, text, Dict}
use the_grid_x.Schemas.Values.{Json, null, real, str, get_or}

pub record CreditBalance : Type 0 where
  pub user_id : Json
  pub balance : Json
  pub total_earned : Json
  pub total_spent : Json
  pub last_updated : Json

-- The defaults of the dataclass.
abbrev pub credit_balance : Json → CreditBalance
credit_balance user_id = record {
  user_id = user_id;
  balance = real (pos 1_000_000);
  total_earned = real (pos 0);
  total_spent = real (pos 0);
  last_updated = null;
}

unfoldable pub credit_balance_to_dict : CreditBalance → Dict Json
credit_balance_to_dict x =
    (text "user_id", x.user_id)
    ∷ (text "balance", x.balance)
    ∷ (text "total_earned", x.total_earned)
    ∷ (text "total_spent", x.total_spent)
    ∷ (text "last_updated", x.last_updated)
    ∷ []

unfoldable pub credit_balance_from_dict : Dict Json → CreditBalance
credit_balance_from_dict d = record {
  user_id = get_or (text "user_id") (str (text "")) d;
  balance = get_or (text "balance") (real (pos 1_000_000)) d;
  total_earned = get_or (text "total_earned") (real (pos 0)) d;
  total_spent = get_or (text "total_spent") (real (pos 0)) d;
  last_updated = get_or (text "last_updated") null d;
}

pub record CreditTransaction : Type 0 where
  pub transaction_id : Json
  pub user_id : Json
  pub amount : Json
  pub transaction_type : Json
  pub description : Json
  pub timestamp : Json
  pub related_job_id : Json
  pub related_worker_id : Json

-- The defaults of the dataclass.
abbrev pub credit_transaction : Json → Json → Json → Json → Json → Json → CreditTransaction
credit_transaction transaction_id user_id amount transaction_type description timestamp = record {
  transaction_id = transaction_id;
  user_id = user_id;
  amount = amount;
  transaction_type = transaction_type;
  description = description;
  timestamp = timestamp;
  related_job_id = null;
  related_worker_id = null;
}

unfoldable pub credit_transaction_to_dict : CreditTransaction → Dict Json
credit_transaction_to_dict x =
    (text "transaction_id", x.transaction_id)
    ∷ (text "user_id", x.user_id)
    ∷ (text "amount", x.amount)
    ∷ (text "transaction_type", x.transaction_type)
    ∷ (text "description", x.description)
    ∷ (text "timestamp", x.timestamp)
    ∷ (text "related_job_id", x.related_job_id)
    ∷ (text "related_worker_id", x.related_worker_id)
    ∷ []
