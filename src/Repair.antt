-- ===== src/Repair.antt =====
-- crates/homemagic-domain/src/repair.rs: operational repair records. Identities are numbers that
-- only are compared; the identity of a device condition, which is derived by hashing, is an
-- argument.
mod Closing
mod Examples
use homemagic.Prelude.{
  ltb, Result, ok, ◌>>=◌, ◌>>◌, require, Text, ℕ, Bool, true, false, not, Option, none, some, List,
}

pub data RepairKind : Type 0 where
  identity_collision : ℕ → Text → List ℕ → RepairKind
  credentials_missing credentials_rejected : RepairKind
  secret_store_unavailable session_failed : Text → RepairKind

pub data RepairStatus : Type 0 where
  open_repair resolved dismissed : RepairStatus

pub record RepairRecord : Type 0 where
  pub id : ℕ
  pub device_id : Option ℕ
  pub kind : RepairKind
  pub summary : Text
  pub created_at : ℕ
  pub status : RepairStatus
  pub closed_at : Option ℕ

pub data RepairTransitionError : Type 0 where
  already_closed before_creation : RepairTransitionError

-- RepairRecord::new, with the fresh identity as an argument.
unfoldable pub new : ℕ → Option ℕ → RepairKind → Text → ℕ → RepairRecord
new id device_id kind summary created_at = record {
  id = id;
  device_id = device_id;
  kind = kind;
  summary = summary;
  created_at = created_at;
  status = open_repair;
  closed_at = none;
}

-- RepairRecord::for_device_condition, over RepairId::from_condition.
unfoldable pub for_device_condition :
    (ℕ → Text → ℕ) → ℕ → Text → RepairKind → Text → ℕ → RepairRecord
for_device_condition from_condition device_id condition kind summary created_at = record {
  id = from_condition device_id condition;
  device_id = some device_id;
  kind = kind;
  summary = summary;
  created_at = created_at;
  status = open_repair;
  closed_at = none;
}

abbrev pub is_open : RepairStatus → Bool
is_open open_repair = true
is_open _ = false

-- RepairRecord::close
unfoldable pub close : RepairRecord → RepairStatus → ℕ → Result RepairRecord RepairTransitionError
close r status at = do
  require (is_open r.status) already_closed
  require (not (ltb at r.created_at)) before_creation
  ok (record r { status = status; closed_at = some at })

-- RepairRecord::resolve
unfoldable pub resolve : RepairRecord → ℕ → Result RepairRecord RepairTransitionError
unfolding close
resolve r at = close r resolved at

-- RepairRecord::dismiss
unfoldable pub dismiss : RepairRecord → ℕ → Result RepairRecord RepairTransitionError
unfolding close
dismiss r at = close r dismissed at
