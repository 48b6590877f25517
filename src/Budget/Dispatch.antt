-- ===== src/Budget/Dispatch.antt =====
-- `BudgetedAgentTurnDispatcher` of backend/app/application/coordinator_policy.py: the budget is
-- enforced before and after the turns of a batch. What runs the turns is given, as a function on the
-- records of calls and the sessions.
use agora_opencode.Prelude.{ℕ, String, List, [], ◌∷◌, map, Result, ok, err}
use agora_opencode.Decimal.{Decimal}
use agora_opencode.Ledger.Defs.{Hashing, Tables}
use agora_opencode.Session.States.{SessionLifecycle, LifecycleError}
use agora_opencode.Session.Store.{Sessions}
use agora_opencode.Budget.{
  Breach, BudgetCheck, Budgets, Enforced, within_budget, exhausted, refused, enforce,
}
use agora_opencode.Budget.Usage.{Ceilings, LlmCallRecord, budgets_of}

-- What the dispatcher reads of a `ReasoningContext`
pub record Turn : Type 0 where
  pub workspace_id : ℕ
  pub session_id : ℕ
  pub correlation_id : ℕ
  pub agent_definition_id : ℕ

-- The other arguments of `dispatch`
pub record DispatchCheck : Type 0 where
  pub budget_event_id : ℕ
  pub actor_id : ℕ
  pub checked_at : ℕ

-- The records and sessions that a dispatch finds and leaves.
pub record Accounts (D H : Type 0) : Type 0 where
  pub calls : List (LlmCallRecord D)
  pub sessions : Sessions H

-- What a dispatch raises: no turns, what an enforcement raises, or what the turns raise.
pub data DispatchError (E : Type 0) : Type 0 where
  no_turns : DispatchError E
  halted : Enforced → DispatchError E
  failed_turns : E → DispatchError E

abbrev pub check_of : DispatchCheck → Turn → BudgetCheck
check_of q t = record {
  workspace_id = t.workspace_id;
  session_id = t.session_id;
  event_id = q.budget_event_id;
  correlation_id = t.correlation_id;
  actor_id = q.actor_id;
  checked_at = q.checked_at;
}

abbrev pub agents_of : List Turn → List ℕ
agents_of = map (λ (t : Turn). t.agent_definition_id)

-- The second enforcement's answer lets the outcomes through.
abbrev pub let_through :
    {D H E O : Type 0}
    → List O
    → Accounts D H
    → Enforced × Sessions H
    → Result (DispatchError E) (List O) × Accounts D H
let_through outcomes st (within_budget, sessions) = (ok outcomes, record st { sessions = sessions })
let_through outcomes st (exhausted r, sessions) =
    (err (halted (exhausted r)), record st { sessions = sessions })
let_through outcomes st (refused x, sessions) =
    (err (halted (refused x)), record st { sessions = sessions })

module _ {D : Type 0} ⦃d : Decimal D⦄ {H : Type 0} ⦃h : Hashing H⦄
    (view : SessionLifecycle → Result LifecycleError SessionLifecycle)
    (payload : Budgets D → Breach → SessionLifecycle → String) (ceilings : Ceilings D) where
  -- `self._budgets.enforce` for the batch that begins with the turn
  unfoldable pub enforce_batch :
      DispatchCheck → Turn → List ℕ → Tables H → Accounts D H → Enforced × Sessions H
  unfolding budgets_of
  enforce_batch q t agents seen st =
      let b = budgets_of ceilings t.workspace_id t.session_id st.calls in
      enforce view (payload b) (check_of q t) b agents seen st.sessions

  unfoldable pub after_turns :
      {E O : Type 0}
      → DispatchCheck
      → Turn
      → List ℕ
      → Tables H
      → Result E (List O) × Accounts D H
      → Result (DispatchError E) (List O) × Accounts D H
  unfolding enforce_batch
  after_turns q t agents later (err x, st) = (err (failed_turns x), st)
  after_turns q t agents later (ok outcomes, st) =
      let_through outcomes st (enforce_batch q t agents later st)

module _ {D : Type 0} ⦃d : Decimal D⦄ {H : Type 0} ⦃h : Hashing H⦄ {E O : Type 0}
    (view : SessionLifecycle → Result LifecycleError SessionLifecycle)
    (payload : Budgets D → Breach → SessionLifecycle → String) (ceilings : Ceilings D)
    (run : List Turn → Accounts D H → Result E (List O) × Accounts D H) where
  -- The turns run where the first enforcement lets them.
  unfoldable pub after_first :
      DispatchCheck
      → Turn
      → List Turn
      → Tables H
      → Accounts D H
      → Enforced × Sessions H
      → Result (DispatchError E) (List O) × Accounts D H
  unfolding after_turns
  after_first q t ts later st (within_budget, sessions) =
      after_turns view payload ceilings q t (agents_of (t ∷ ts)) later
        (run (t ∷ ts) (record st { sessions = sessions }))
  after_first q t ts later st (exhausted r, sessions) =
      (err (halted (exhausted r)), record st { sessions = sessions })
  after_first q t ts later st (refused x, sessions) =
      (err (halted (refused x)), record st { sessions = sessions })

  -- `dispatch`; `seen` and `later` are the ledger as the two enforcements first see it.
  unfoldable pub dispatch :
      DispatchCheck
      → List Turn
      → Tables H
      → Tables H
      → Accounts D H
      → Result (DispatchError E) (List O) × Accounts D H
  unfolding after_first enforce_batch
  dispatch q [] seen later st = (err no_turns, st)
  dispatch q (t ∷ ts) seen later st =
      after_first q t ts later st
        (enforce_batch view payload ceilings q t (agents_of (t ∷ ts)) seen st)
