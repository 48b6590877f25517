-- ===== src/Examples/Budgets.antt =====
-- A session within its budget, and one over it.
use agora_opencode.Prelude.{
  String, ℕ, List, ◌≡◌, refl, ok, true, some, none, [], ◌∷◌, ◌↔◌, Result, ◌++◌, err, ok-injective,
}
use agora_opencode.Decimal.Fixed.{Fixed, fixed_decimal}
use agora_opencode.Session.States.{
  is_terminal, same_state, in_states, SessionLifecycle, projection, running, transitions,
  validate_session_transition,
}
use agora_opencode.Session.Store.{
  guarded, is_replay, transition_row, transition, updated_row, find_row, get, Sessions,
  check_transition, new_draft, moved, replayed, set_row,
}
use agora_opencode.Budget.{
  raised, agent_over, is_over, first_breach, on_breach, enforce_on, Breach, Budgets, BudgetUsage,
  BudgetCheck, session_breach, budget_transition, enforce, within_budget, exhausted, already_ended,
}
use agora_opencode.Budget.Usage.{
  token_sum, Ceilings, LlmCallRecord, budgets_of, sum_usage, usage_of,
}
use agora_opencode.Budget.Dispatch.{
  after_first, Accounts, DispatchCheck, Turn, halted, dispatch, after_turns, enforce_batch,
}
use agora_opencode.Budget.Spent.{Adds, IsOpen, is_below, dispatch-returns}
use agora_opencode.Budget.Final.{dispatch-exhausted}
use agora_opencode.Ledger.Defs.{
  append, append_locked, event_by_id, find_head, first_look, idempotent_result, ledger_event_hash,
  move_head, persisted, same_values, under_lock, write_event, write_new,
}
use agora_opencode.Budget.Laws.{all_below, enforce-within}
use agora_opencode.Examples.Digest.{Digest, digest_hashing}
use agora_opencode.Examples.Ledgers.{opened}

abbrev check : BudgetCheck
check = record {
  workspace_id = 1;
  session_id = 4;
  event_id = 70;
  correlation_id = 9;
  actor_id = 2;
  checked_at = 90;
}

abbrev drafted : SessionLifecycle
drafted = new_draft 1 4 10

abbrev active : SessionLifecycle
active = record drafted { state = running; initialized_at = some 20; started_at = some 20 }

abbrev usage : BudgetUsage Fixed
usage = record { input_tokens = 30; output_tokens = 12; cost_usd = record { up = 5; down = 0 } }

abbrev budgets : Budgets Fixed
budgets = record {
  session_usage = usage;
  session_ceiling = some (record { max_tokens = 100; max_usd = record { up = 500; down = 0 } });
  agent_usage = λ a. usage;
  agent_ceiling = λ a. none;
}

abbrev sessions : Sessions Digest
sessions = record { rows = active ∷ []; tables = opened }

enforce-within_example :
    ((enforce projection (λ b r. "{}") check budgets (3 ∷ []) opened sessions).0 ≡ within_budget)
    ↔ (all_below budgets (3 ∷ []) ≡ true)
unfolding get find_row projection same_state in_states is_terminal
enforce-within_example =
    enforce-within projection (λ b r. "{}") check budgets (3 ∷ []) opened sessions active refl refl

abbrev asked : DispatchCheck
asked = record { budget_event_id = 70; actor_id = 2; checked_at = 90 }

abbrev turn : Turn
turn = record { workspace_id = 1; session_id = 4; correlation_id = 9; agent_definition_id = 3 }

abbrev call : LlmCallRecord Fixed
call = record {
  workspace_id = 1;
  session_id = some 4;
  agent_def_id = some 3;
  input_tokens = 30;
  output_tokens = 12;
  cost_usd = record { up = 5; down = 0 };
}

abbrev up_to : ℕ → Ceilings Fixed
up_to n = record {
  session_ceiling = some (record { max_tokens = n; max_usd = record { up = 500; down = 0 } });
  agent_ceiling = λ a. none;
}

abbrev run_turns : List Turn → Accounts Fixed Digest → Result ℕ (List ℕ) × Accounts Fixed Digest
run_turns ts st = (ok (5 ∷ []), record st { calls = st.calls ++ (call ∷ []) })

abbrev accounts : Accounts Fixed Digest
accounts = record { calls = []; sessions = sessions }

abbrev as_json : Budgets Fixed → Breach → SessionLifecycle → String
as_json b x r = "{}"

accounts-IsOpen :
    (calls : List (LlmCallRecord Fixed))
    → IsOpen {H = Digest} projection as_json
        (up_to 100)
        run_turns
        asked
        turn
        (record { calls = calls; sessions = sessions })
unfolding get find_row projection same_state in_states is_terminal
accounts-IsOpen calls = (active, refl, refl)

turns-Adds :
    Adds projection as_json
      (up_to 100)
      run_turns
      asked
      turn
      accounts
      (run_turns (turn ∷ []) accounts).1
turns-Adds = record {
  more = call ∷ [];
  kept = refl;
  paid = (refl, tt);
  alive = accounts-IsOpen (call ∷ []);
}

dispatch-returns_example :
    (dispatch projection as_json (up_to 100) run_turns asked (turn ∷ []) opened opened accounts
      ≡ (ok (5 ∷ []), record accounts { calls = call ∷ [] }))
    ↔ (run_turns (turn ∷ []) accounts ≡ (ok (5 ∷ []), record accounts { calls = call ∷ [] }))
      × (is_below projection as_json
            (up_to 100)
            run_turns
            asked
            turn
            (turn ∷ [])
            (record accounts { calls = call ∷ [] })
          ≡ true)
dispatch-returns_example =
    dispatch-returns projection as_json (up_to 100) run_turns asked turn [] opened opened accounts
      (record accounts { calls = call ∷ [] }) (5 ∷ []) (accounts-IsOpen []) turns-Adds

-- With a ceiling of 40 tokens the turns run, and the check behind them ends the session.
abbrev stopped : Accounts Fixed Digest
stopped = (dispatch ok as_json (up_to 40) run_turns asked (turn ∷ []) opened opened accounts).1

abbrev over : SessionLifecycle
over = updated_row (budget_transition (as_json budgets) check session_breach active) active

stopped_run :
    dispatch ok as_json (up_to 40) run_turns asked (turn ∷ []) opened opened accounts
    ≡ (err (halted (exhausted over)), stopped)
unfolding dispatch enforce enforce_on get find_row is_terminal on_breach first_breach is_over
    token_sum agent_over raised transition transition_row budget_transition is_replay guarded
    check_transition after_first after_turns enforce_batch budgets_of sum_usage usage_of
    already_ended append append_locked event_by_id find_head first_look idempotent_result
    ledger_event_hash move_head persisted same_values under_lock write_event write_new in_states
    same_state transitions validate_session_transition moved replayed set_row updated_row
stopped_run = refl

dispatch-exhausted_example :
    dispatch ok as_json (up_to 40) run_turns asked (turn ∷ []) opened opened stopped
    ≡ (err (halted (exhausted over)), stopped)
dispatch-exhausted_example =
    dispatch-exhausted ok (λ r x e. ok-injective e) as_json (up_to 40) asked turn run_turns
      run_turns [] [] opened opened opened opened accounts stopped over stopped_run
