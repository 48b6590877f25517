-- ===== src/Budget.antt =====
-- The budget of a session: `BudgetCoordinator` of backend/app/application/coordinator_policy.py. What
-- its store reads of usages and ceilings stands in a record.
pub mod Laws
pub mod Usage
pub mod Dispatch
pub mod Ended
pub mod Spent
pub mod Final
use agora_opencode.Prelude.{
  ◌+◌, ℕ, ◌≡◌, Bool, true, false, Option, some, none, List, [], ◌∷◌, leb, ◌==◌, not, ◌&&◌, ◌||◌,
  if◌then◌else◌, Result, ok, err, String,
}
use agora_opencode.Decimal.{Decimal}
use agora_opencode.Ledger.Defs.{Hashing, LedgerAppend, Tables, service, same_option}
use agora_opencode.Session.States.{
  SessionLifecycle, SessionTransition, LifecycleError, failed, is_terminal, same_state,
  no_lifecycle, already_terminal,
}
use agora_opencode.Session.Store.{Sessions, transition, get}

pub record BudgetUsage (D : Type 0) : Type 0 where
  pub input_tokens : ℕ
  pub output_tokens : ℕ
  pub cost_usd : D

-- `BudgetUsage.tokens`
abbrev pub tokens : {D : Type 0} → BudgetUsage D → ℕ
tokens usage = usage.input_tokens + usage.output_tokens

pub record BudgetCeiling (D : Type 0) : Type 0 where
  pub max_tokens : ℕ
  pub max_usd : D

-- What the store of the policy reads for one session.
pub record Budgets (D : Type 0) : Type 0 where
  pub session_usage : BudgetUsage D
  pub session_ceiling : Option (BudgetCeiling D)
  pub agent_usage : ℕ → BudgetUsage D
  pub agent_ceiling : ℕ → Option (BudgetCeiling D)

-- Who is over a ceiling: the session, or an agent.
pub data Breach : Type 0 where
  session_breach : Breach
  agent_breach : ℕ → Breach

-- How an enforcement ends: it returns, or raises `BudgetExhausted` or an error of the lifecycle.
pub data Enforced : Type 0 where
  within_budget : Enforced
  exhausted : SessionLifecycle → Enforced
  refused : LifecycleError → Enforced

-- The arguments of `enforce` that its event takes.
pub record BudgetCheck : Type 0 where
  pub workspace_id : ℕ
  pub session_id : ℕ
  pub event_id : ℕ
  pub correlation_id : ℕ
  pub actor_id : ℕ
  pub checked_at : ℕ

module _ {D : Type 0} ⦃d : Decimal D⦄ where
  -- The test of `_breach`
  unfoldable pub is_over : BudgetUsage D → Option (BudgetCeiling D) → Bool
  is_over usage none = false
  is_over usage (some ceiling) =
      leb ceiling.max_tokens (tokens usage) || not (d.below usage.cost_usd ceiling.max_usd)

  -- The loop over the agents. An agent that is named twice is asked for once in the code.
  unfoldable pub agent_over : Budgets D → List ℕ → Option Breach
  agent_over b [] = none
  agent_over b (a ∷ as') =
      if is_over (b.agent_usage a) (b.agent_ceiling a)
      then some (agent_breach a)
      else agent_over b as'

  unfoldable pub first_breach : Budgets D → List ℕ → Option Breach
  first_breach b agents =
      if is_over b.session_usage b.session_ceiling then some session_breach else agent_over b agents

-- The transition of a session over its budget; `payload` is the canonical JSON of the event's payload.
unfoldable pub budget_transition :
    (Breach → SessionLifecycle → String)
    → BudgetCheck
    → Breach
    → SessionLifecycle
    → SessionTransition
budget_transition payload k b r = record {
  source = r.state;
  target = failed;
  round = r.round;
  allow_same_state = false;
  event = record {
    id = k.event_id;
    workspace_id = k.workspace_id;
    session_id = k.session_id;
    event_type = "BUDGET_EXHAUSTED";
    payload_schema_version = 1;
    causation_id = none;
    correlation_id = k.correlation_id;
    actor_class = service;
    actor_id = k.actor_id;
    round = r.round;
    payload = payload b r;
    recorded_at = k.checked_at;
  };
}

-- The session was ended before, by this very check or otherwise.
unfoldable pub already_ended : BudgetCheck → SessionLifecycle → Enforced
already_ended k r =
    if same_option r.last_event_id (some k.event_id) && same_state r.state failed
    then exhausted r
    else refused already_terminal

-- What the transition's answer raises.
unfoldable pub raised : Result LifecycleError SessionLifecycle → Enforced
raised (ok r) = exhausted r
raised (err x) = refused x

module _ {H : Type 0} ⦃h : Hashing H⦄
    (view : SessionLifecycle → Result LifecycleError SessionLifecycle)
    (payload : Breach → SessionLifecycle → String) where
  unfoldable pub on_breach :
      BudgetCheck → Tables H → Sessions H → SessionLifecycle → Option Breach → Enforced × Sessions H
  on_breach k seen st r none = (within_budget, st)
  on_breach k seen st r (some b) =
      let (answer, st') = transition view (budget_transition payload k b r) seen st in
      (raised answer, st')

module _ {D : Type 0} ⦃d : Decimal D⦄ {H : Type 0} ⦃h : Hashing H⦄
    (view : SessionLifecycle → Result LifecycleError SessionLifecycle)
    (payload : Breach → SessionLifecycle → String) where
  unfoldable pub enforce_on :
      BudgetCheck
      → Budgets D
      → List ℕ
      → Tables H
      → Sessions H
      → Result LifecycleError (Option SessionLifecycle)
      → Enforced × Sessions H
  enforce_on k b agents seen st (err x) = (refused x, st)
  enforce_on k b agents seen st (ok none) = (refused no_lifecycle, st)
  enforce_on k b agents seen st (ok (some r)) =
      if is_terminal r.state
      then (already_ended k r, st)
      else on_breach view payload k seen st r (first_breach b agents)

  unfoldable pub enforce :
      BudgetCheck → Budgets D → List ℕ → Tables H → Sessions H → Enforced × Sessions H
  enforce k b agents seen st =
      enforce_on k b agents seen st (get view k.workspace_id k.session_id st)
