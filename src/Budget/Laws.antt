-- ===== src/Budget/Laws.antt =====
-- When an enforcement lets a session go on, and that the lifecycle never refuses to end one.
use agora_opencode.Prelude.{
  ◌&&◌, ◌≢◌, ℕ, ◌≡◌, refl, Bool, true, false, Option, some, none, List, [], ◌∷◌, arith, ok, err,
  String, all, not, ◌↔◌, Result,
}
use agora_opencode.Decimal.{Decimal}
use agora_opencode.Ledger.Defs.{Hashing, Tables}
use agora_opencode.Session.Graph.{same_state_refl}
use agora_opencode.Session.States.{
  SessionLifecycle, SessionLifecycleState, LifecycleError, failed, is_terminal, in_states,
  transitions, same_state, validate_session_transition, draft, initializing, running,
  waiting_for_agent, waiting_for_evidence, waiting_for_critique, waiting_for_simulation,
  waiting_for_human, evaluating_consensus, paused, failed_retryable, completed,
  partial_consensus_state, no_consensus, deadlock, cancelled,
}
use agora_opencode.Session.Store.{check_transition, Sessions, get}
use agora_opencode.Budget.{
  Budgets, Breach, BudgetCheck, within_budget, is_over, agent_over, first_breach, budget_transition,
  on_breach, enforce_on, enforce, raised,
}

fails :
    (s : SessionLifecycleState)
    → is_terminal s ≡ false
    → (in_states failed (transitions s) ≡ true) × (same_state s failed ≡ false)
unfolding is_terminal in_states same_state transitions
fails draft e = (refl, refl)
fails initializing e = (refl, refl)
fails running e = (refl, refl)
fails waiting_for_agent e = (refl, refl)
fails waiting_for_evidence e = (refl, refl)
fails waiting_for_critique e = (refl, refl)
fails waiting_for_simulation e = (refl, refl)
fails waiting_for_human e = (refl, refl)
fails evaluating_consensus e = (refl, refl)
fails paused e = (refl, refl)
fails failed_retryable e = (refl, refl)
fails completed e = cc
fails partial_consensus_state e = cc
fails no_consensus e = cc
fails deadlock e = cc
fails failed e = cc
fails cancelled e = cc

fail-valid :
    (s : SessionLifecycleState) (n : ℕ)
    → is_terminal s ≡ false
    → validate_session_transition s failed n n false ≡ ok tt
unfolding validate_session_transition
fail-valid s n e = let (there, other) = fails s e in ground (arith, there, other)

-- The transition that ends a session over its budget passes the checks of the lifecycle store
-- for every row that is not terminal.
pub budget_transition-accepted :
    (payload : Breach → SessionLifecycle → String)
    → (k : BudgetCheck) (b : Breach) (r : SessionLifecycle) → is_terminal r.state ≡ false
    → check_transition (budget_transition payload k b r) r ≡ ok tt
unfolding check_transition budget_transition
budget_transition-accepted payload k b r e =
    rw (same_state_refl r.state) (fail-valid r.state r.round e)

raised-within : (x : Result LifecycleError SessionLifecycle) → raised x ≢ within_budget
unfolding raised
raised-within (ok r) e = cc
raised-within (err x) e = cc

on_breach-within :
    {H : Type 0} ⦃h : Hashing H⦄ (view : SessionLifecycle → Result LifecycleError SessionLifecycle)
    → (payload : Breach → SessionLifecycle → String)
    → (k : BudgetCheck) (seen : Tables H) (st : Sessions H) (r : SessionLifecycle)
    → (o : Option Breach) → ((on_breach view payload k seen st r o).0 ≡ within_budget) ↔ (o ≡ none)
unfolding on_breach
on_breach-within view payload k seen st r none = (λ _. refl, λ _. refl)
on_breach-within view payload k seen st r (some b) = (λ e. absurd (raised-within _ e), λ e. cc)

module _ {D : Type 0} ⦃d : Decimal D⦄ where
  -- The session and each of the agents are below their ceilings, where they have one.
  abbrev pub all_below : Budgets D → List ℕ → Bool
  all_below b agents =
      not (is_over b.session_usage b.session_ceiling)
      && all (λ a. not (is_over (b.agent_usage a) (b.agent_ceiling a))) agents

  agents_below :
      (b : Budgets D) (agents : List ℕ)
      → (agent_over b agents ≡ none)
        ↔ (all (λ a. not (is_over (b.agent_usage a) (b.agent_ceiling a))) agents ≡ true)
  unfolding agent_over
  agents_below b [] = ground arith
  agents_below b (a ∷ as') = ground (arith, agents_below b as')

  pub breach_below :
      (b : Budgets D) (agents : List ℕ)
      → (first_breach b agents ≡ none) ↔ (all_below b agents ≡ true)
  unfolding first_breach
  breach_below b agents = ground (arith, agents_below b agents)

  -- For a session that is found and not terminal, an enforcement returns without raising exactly
  -- when the session and each of the agents are below their ceilings, where they have one.
  pub enforce-within :
      {H : Type 0} ⦃h : Hashing H⦄
      (view : SessionLifecycle → Result LifecycleError SessionLifecycle)
      → (payload : Breach → SessionLifecycle → String)
      → (k : BudgetCheck) (b : Budgets D) (agents : List ℕ) (seen : Tables H) (st : Sessions H)
      → (r : SessionLifecycle) → get view k.workspace_id k.session_id st ≡ ok (some r)
      → is_terminal r.state ≡ false
      → ((enforce view payload k b agents seen st).0 ≡ within_budget) ↔ (all_below b agents ≡ true)
  unfolding enforce enforce_on
  enforce-within view payload k b agents seen st r e alive =
      let (p, q) = on_breach-within view payload k seen st r (first_breach b agents) in
      let (p', q') = breach_below b agents in rw (e, alive) (λ w. p' (p w), λ w. q (q' w))
