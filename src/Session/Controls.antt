-- ===== src/Session/Controls.antt =====
-- The commands that steer a session: what a request is checked for when it comes in, and what
-- the workflow makes of the command.
use agora_opencode.Prelude.{
  not, none, is_blank, Option, ok, ◌>>◌, [], err, if◌then◌else◌, false, ◌∷◌, true, Result, List,
  String, Bool, ℕ,
}
use agora_opencode.Ledger.Defs.{Hashing, human, Tables}
use agora_opencode.Session.Store.{Sessions, transition}
use agora_opencode.Session.States.{
  same_bool, inconsistent, projection, SessionTransition, no_human_input, in_states,
  validate_session_transition, not_started, already_terminal, is_none, is_terminal, same_state,
  waiting_for_human, cancelled, running, paused, LifecycleError, SessionLifecycleState,
  SessionLifecycle,
}

pub data SessionControlKind : Type 0 where
  pause resume cancel human_input : SessionControlKind

abbrev pub is_human_input : SessionControlKind → Bool
is_human_input human_input = true
is_human_input _ = false

unfoldable pub control_event_type : SessionControlKind → String
control_event_type pause = "SESSION_PAUSED"
control_event_type resume = "SESSION_RESUMED"
control_event_type cancel = "SESSION_CANCELLED"
control_event_type human_input = "HUMAN_DIRECTIVE"

-- The target that `control_transition` picks.
unfoldable pub control_target : SessionControlKind → SessionLifecycleState → SessionLifecycleState
control_target pause current = paused
control_target resume current = running
control_target cancel current = cancelled
control_target human_input current =
    if same_state current waiting_for_human then running else current

pub data HumanDirectiveKind : Type 0 where
  inject_evidence add_constraint modify_objective request_simulation : HumanDirectiveKind
  request_critique request_another_round reject_recommendation : HumanDirectiveKind
  override_outcome : HumanDirectiveKind

pub record HumanDirective : Type 0 where
  pub kind : HumanDirectiveKind
  pub instruction : String
  pub artifact_ids : List ℕ

pub record SessionControlCommand : Type 0 where
  pub command_id : ℕ
  pub event_id : ℕ
  pub failure_event_id : ℕ
  pub workspace_id : ℕ
  pub session_id : ℕ
  pub kind : SessionControlKind
  pub observed_state : SessionLifecycleState
  pub correlation_id : ℕ
  pub actor_id : ℕ
  pub requested_at : ℕ
  pub reason : String
  pub directive : Option HumanDirective

-- `SessionControlCommand(…)`: the validators of the reason and of the directive
unfoldable pub checked_command : SessionControlCommand → Result LifecycleError SessionControlCommand
checked_command c =
    if is_blank c.reason
    then err inconsistent
    else (if not (same_bool (is_human_input c.kind) (not (is_none c.directive)))
        then err inconsistent
        else ok c)

pub record SessionControlTransition : Type 0 where
  pub command : SessionControlCommand
  pub source : SessionLifecycleState
  pub target : SessionLifecycleState
  pub round : ℕ

unfoldable pub control_transition :
    SessionControlCommand
    → SessionLifecycleState
    → ℕ
    → Result LifecycleError SessionControlTransition
control_transition command current_state current_round =
    if is_terminal current_state
    then err already_terminal
    else (validate_session_transition current_state (control_target command.kind current_state)
          current_round current_round (is_human_input command.kind)
        >> ok (record {
          command = command;
          source = current_state;
          target = control_target command.kind current_state;
          round = current_round;
        }))

-- The states in which a request with human input is taken.
abbrev pub human_input_states : List SessionLifecycleState
human_input_states = running ∷ waiting_for_human ∷ paused ∷ []

unfoldable pub validate_control_request :
    SessionControlKind → SessionLifecycle → Result LifecycleError (Unit {0})
validate_control_request kind r =
    if is_none r.workflow_id
    then err not_started
    else (if is_terminal r.state
        then err already_terminal
        else (if is_human_input kind
            then (if in_states r.state human_input_states then ok tt else err no_human_input)
            else validate_session_transition r.state (control_target kind r.state) r.round r.round
                false))

-- The lifecycle transition of `SqlAlchemySessionControlTransitionCommitter.commit`; `payload` is the
-- canonical JSON of the event's payload.
unfoldable pub committed :
    (SessionControlTransition → String) → SessionControlTransition → SessionTransition
unfolding same_state control_event_type
committed payload t = record {
  source = t.source;
  target = t.target;
  round = t.round;
  allow_same_state = same_state t.source t.target;
  event = record {
    id = t.command.event_id;
    workspace_id = t.command.workspace_id;
    session_id = t.command.session_id;
    event_type = control_event_type t.command.kind;
    payload_schema_version = 1;
    causation_id = none;
    correlation_id = t.command.correlation_id;
    actor_class = human;
    actor_id = t.command.actor_id;
    round = t.round;
    payload = payload t;
    recorded_at = t.command.requested_at;
  };
}

-- `commit`
unfoldable pub commit :
    {H : Type 0}
    → ⦃h : Hashing H⦄ → (SessionControlTransition → String)
    → SessionControlTransition
    → Tables H
    → Sessions H
    → Result LifecycleError SessionLifecycle × Sessions H
unfolding projection
commit payload t seen st = transition projection (committed payload t) seen st
