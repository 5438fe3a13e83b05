-- ===== src/Executor/Event.antt =====
-- executor/ExecuteEvent.h and ExecuteAction.h.
use sio2jail.Common.{ℕ, Bool}

pub data ExecuteAction : Type 0 where
  continue kill : ExecuteAction

-- `std::max` of two actions.
unfoldable pub max : ExecuteAction → ExecuteAction → ExecuteAction
max continue a = a
max kill a = kill

pub record ExecuteEvent : Type 0 where
  pub pid : ℕ
  pub exit_status : ℕ
  pub signal : ℕ
  pub exited : Bool
  pub killed : Bool
  pub stopped : Bool
  pub trapped : Bool
