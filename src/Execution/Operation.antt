-- ===== src/Execution/Operation.antt =====
-- execution.py: the record of one operation, and what each method of the broker makes of it.
use notebook_launcher.Prelude.{
  ℕ, String, Bool, true, false, not, ◌&&◌, Option, none, some, leb, str_eq, or_else,
}

-- models.py
pub data ExecutionState : Type 0 where
  queued dispatched running cancel_pending cancelling : ExecutionState
  completed failed timeout cancelled : ExecutionState

pub record ExecutionRecord : Type 0 where
  pub operation_id : ℕ
  pub session_id : ℕ
  pub state : ExecutionState
  pub queued_at : ℕ
  pub jupyter_msg_id : Option String
  pub active_parent_msg_id : Option String
  pub dispatched_at : Option ℕ
  pub started_at : Option ℕ
  pub cancel_requested_at : Option ℕ
  pub requested_outcome : Option ExecutionState
  pub deadline_at : Option ℕ
  pub finished_at : Option ℕ

-- `state in TERMINAL_STATES`
unfoldable pub is_terminal : ExecutionState → Bool
is_terminal completed = true
is_terminal failed = true
is_terminal timeout = true
is_terminal cancelled = true
is_terminal _ = false

abbrev pub is_queued : ExecutionState → Bool
is_queued queued = true
is_queued _ = false

-- `state in {RUNNING, CANCEL_PENDING}`
abbrev pub may_own : ExecutionState → Bool
may_own running = true
may_own cancel_pending = true
may_own _ = false

-- Both ids are truthy, and equal.
abbrev pub same_message : Option String → Option String → Bool
same_message (some m) (some p) = not (str_eq m "") && not (str_eq p "") && str_eq m p
same_message _ _ = false

unfoldable pub owns_active_kernel_request : ExecutionRecord → Bool
owns_active_kernel_request r =
    same_message r.jupyter_msg_id r.active_parent_msg_id && may_own r.state

abbrev pub sent : String → ℕ → ExecutionRecord → ExecutionRecord
sent jupyter_msg_id now r = record r {
  state = dispatched;
  jupyter_msg_id = some jupyter_msg_id;
  dispatched_at = some now;
}

-- `record.jupyter_msg_id == parent_msg_id`
abbrev pub is_message : Option String → String → Bool
is_message none p = false
is_message (some m) p = str_eq m p

-- The branches of `observe_busy_parent` on the record's state.
abbrev pub observed_state : Bool → ExecutionState → ExecutionState
observed_state true dispatched = running
observed_state _ s = s

abbrev pub observed_start : Bool → ExecutionState → Option ℕ → ℕ → Option ℕ
observed_start true dispatched started now = some now
observed_start true cancel_pending started now = some (or_else started now)
observed_start _ s started now = started

abbrev pub observed : String → ℕ → ExecutionRecord → ExecutionRecord
observed parent_msg_id now r =
    let same = is_message r.jupyter_msg_id parent_msg_id in
    record r {
      state = observed_state same r.state;
      active_parent_msg_id = some parent_msg_id;
      started_at = observed_start same r.state r.started_at now;
    }

-- What `request_cancel` and `request_timeout` write; they differ in the outcome that they ask for.
abbrev pub ended : ExecutionState → ℕ → ExecutionRecord → ExecutionRecord
ended outcome now r = record r {
  state = outcome;
  cancel_requested_at = some now;
  requested_outcome = some outcome;
  finished_at = some now;
}

abbrev pub pending : ExecutionState → ℕ → ExecutionRecord → ExecutionRecord
pending outcome now r = record r {
  state = cancel_pending;
  cancel_requested_at = some now;
  requested_outcome = some outcome;
}

-- The test of the loop in `expire`.
unfoldable pub is_due : ℕ → ExecutionRecord → Bool
unfolding is_terminal
is_due current r =
    elim r.deadline_at [ none ↦ false | some d ↦ leb d current ] && not (is_terminal r.state)

abbrev pub finished : ExecutionState → ℕ → ExecutionRecord → ExecutionRecord
finished outcome now r = record r { state = outcome; finished_at = some now }
