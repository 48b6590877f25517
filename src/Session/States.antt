-- ===== src/Session/States.antt =====
-- The states of a session, the table of transitions and the checks of a lifecycle's projection.
use mathlib.Core.Option.{none}
use agora_opencode.Prelude.{
  none, some, false, ◌+◌, ◌&&◌, ltb, ok, [], err, String, any, not, if◌then◌else◌, true, ◌==◌, ◌∷◌,
  List, Result, Bool, Option, ℕ,
}
use agora_opencode.Ledger.Defs.{LedgerError, LedgerAppend}

pub data SessionLifecycleState : Type 0 where
  draft initializing running waiting_for_agent waiting_for_evidence : SessionLifecycleState
  waiting_for_critique waiting_for_simulation waiting_for_human : SessionLifecycleState
  evaluating_consensus paused failed_retryable completed : SessionLifecycleState
  partial_consensus_state no_consensus deadlock failed cancelled : SessionLifecycleState

-- A number for each state, to compare states by.
abbrev pub ordinal : SessionLifecycleState → ℕ
ordinal draft = 0
ordinal initializing = 1
ordinal running = 2
ordinal waiting_for_agent = 3
ordinal waiting_for_evidence = 4
ordinal waiting_for_critique = 5
ordinal waiting_for_simulation = 6
ordinal waiting_for_human = 7
ordinal evaluating_consensus = 8
ordinal paused = 9
ordinal failed_retryable = 10
ordinal completed = 11
ordinal partial_consensus_state = 12
ordinal no_consensus = 13
ordinal deadlock = 14
ordinal failed = 15
ordinal cancelled = 16

-- `source is target`
unfoldable pub same_state : SessionLifecycleState → SessionLifecycleState → Bool
same_state a b = ordinal a == ordinal b

unfoldable pub in_states : SessionLifecycleState → List SessionLifecycleState → Bool
in_states s states = any (same_state s) states

-- `_TRANSITIONS.get(source, frozenset())`
unfoldable pub transitions : SessionLifecycleState → List SessionLifecycleState
transitions draft = initializing ∷ failed ∷ []
transitions initializing = running ∷ failed_retryable ∷ failed ∷ cancelled ∷ []
transitions running =
    waiting_for_agent ∷ waiting_for_evidence ∷ waiting_for_critique ∷ waiting_for_simulation
    ∷ waiting_for_human ∷ evaluating_consensus ∷ paused ∷ failed_retryable ∷ failed ∷ cancelled ∷ []
transitions waiting_for_agent = running ∷ failed_retryable ∷ failed ∷ cancelled ∷ []
transitions waiting_for_evidence = running ∷ failed_retryable ∷ failed ∷ cancelled ∷ []
transitions waiting_for_critique = running ∷ failed_retryable ∷ failed ∷ cancelled ∷ []
transitions waiting_for_simulation = running ∷ failed_retryable ∷ failed ∷ cancelled ∷ []
transitions waiting_for_human = running ∷ paused ∷ failed ∷ cancelled ∷ []
transitions evaluating_consensus =
    running ∷ completed ∷ partial_consensus_state ∷ no_consensus ∷ deadlock ∷ failed ∷ cancelled
    ∷ []
transitions paused = running ∷ failed ∷ cancelled ∷ []
transitions failed_retryable = running ∷ failed ∷ cancelled ∷ []
transitions _ = []

-- `TERMINAL_SESSION_STATES`
abbrev pub terminal_states : List SessionLifecycleState
terminal_states =
    completed ∷ partial_consensus_state ∷ no_consensus ∷ deadlock ∷ failed ∷ cancelled ∷ []

unfoldable pub is_terminal : SessionLifecycleState → Bool
unfolding in_states same_state
is_terminal s = in_states s terminal_states

pub data LifecycleError : Type 0 where
  must_change same_state_round not_allowed round_decreases round_jumps : LifecycleError
  round_outside_running no_lifecycle different_workflow wrong_source : LifecycleError
  blank_workflow already_exists inconsistent already_terminal not_started : LifecycleError
  no_human_input round_mismatch : LifecycleError
  ledger : LedgerError → LifecycleError

unfoldable pub validate_session_transition :
    SessionLifecycleState → SessionLifecycleState → ℕ → ℕ → Bool → Result LifecycleError (Unit {0})
validate_session_transition source target current_round next_round allow_same_state =
    if same_state source target
    then (if not allow_same_state
        then err must_change
        else (if not (next_round == current_round) then err same_state_round else ok tt))
    else (if not (in_states target (transitions source))
        then err not_allowed
        else (if ltb next_round current_round
            then err round_decreases
            else (if ltb (current_round + 1) next_round
                then err round_jumps
                else (if not (next_round == current_round) && not (same_state target running)
                    then err round_outside_running
                    else ok tt))))

abbrev pub is_none {ℓ} : {A : Type ℓ} → Option A → Bool
is_none none = true
is_none (some a) = false

abbrev pub same_bool : Bool → Bool → Bool
same_bool true b = b
same_bool false b = not b

pub record SessionLifecycle : Type 0 where
  pub workspace_id : ℕ
  pub session_id : ℕ
  pub state : SessionLifecycleState
  pub round : ℕ
  pub workflow_id : Option String
  pub run_id : Option String
  pub last_event_id : Option ℕ
  pub initialized_at : Option ℕ
  pub started_at : Option ℕ
  pub ended_at : Option ℕ
  pub created_at : ℕ
  pub updated_at : ℕ

-- `SessionLifecycle(…)` with the validator `consistent_projection`
unfoldable pub projection : SessionLifecycle → Result LifecycleError SessionLifecycle
projection r =
    if not (same_bool (is_none r.workflow_id) (is_none r.run_id))
    then err inconsistent
    else (if ltb r.updated_at r.created_at
        then err inconsistent
        else (if same_state r.state draft && not (is_none r.last_event_id)
            then err inconsistent
            else (if not (same_state r.state draft) && is_none r.initialized_at
                then err inconsistent
                else (if not (in_states r.state (draft ∷ initializing ∷ [])) && is_none r.started_at
                    then err inconsistent
                    else (if not (same_bool (is_terminal r.state) (not (is_none r.ended_at)))
                        then err inconsistent
                        else ok r)))))

pub record SessionTransition : Type 0 where
  pub source : SessionLifecycleState
  pub target : SessionLifecycleState
  pub round : ℕ
  pub event : LedgerAppend
  pub allow_same_state : Bool

-- `SessionTransition(…)`: the validator `event_matches_transition`
unfoldable pub event_matches_transition :
    SessionTransition → Result LifecycleError SessionTransition
event_matches_transition c =
    if not (c.event.round == c.round)
    then err round_mismatch
    else (if same_state c.source c.target && not c.allow_same_state then err must_change else ok c)
