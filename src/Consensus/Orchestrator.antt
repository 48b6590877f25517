-- ===== src/Consensus/Orchestrator.antt =====
-- `ConsensusOrchestrator.run` of backend/app/application/consensus.py, over the rows that
-- `SqlAlchemyConsensusResultStore` of backend/app/db/consensus.py adds and the constraints on them of
-- backend/app/db/models/source_impact.py.
pub mod Kept
pub mod Laws
use agora_opencode.Prelude.{
  raise_if, str_eq, ◌&&◌, ◌==◌, if◌then◌else◌, any, ℕ, Bool, true, false, ◌||◌, not, Option, none,
  some, String, List, [], ◌∷◌, ◌++◌, Result, ok, err, ◌>>=◌, ◌>>◌,
}
use agora_opencode.Consensus.Types.{
  Uuid, ConsensusOutcome, ConsensusContext, ConsensusResult, ConsensusFault, is_none, is_selectable,
}
use agora_opencode.Consensus.Registry.{
  Strategy, ConsensusExplanation, ConsensusError, failed, Registry, resolve,
}

-- `ConsensusRunRecord`; the two lists of its constraint report are fields of their own.
pub record ConsensusRunRecord : Type 0 where
  pub id : Uuid
  pub workspace_id : Uuid
  pub session_id : Uuid
  pub round : ℕ
  pub strategy : String
  pub strategy_version : String
  pub outcome : ConsensusOutcome
  pub selected_alternative_id : Option Uuid
  pub pareto_set : List Uuid
  pub support : Option String
  pub dissent : Option String
  pub abstention : Option String
  pub blocking_constraints : List String
  pub blocking_critiques : List Uuid
  pub conditions : List String
  pub input_hash : String
  pub created_at : ℕ

-- `ConsensusRunRecord.selection_feasibility`: `true` where the validator raises nothing.
unfoldable pub selection_feasibility : ConsensusRunRecord → Bool
selection_feasibility r = is_none r.selected_alternative_id || is_selectable r.outcome

-- The validators of `ConsensusRunRecord` but the pattern of the input hash, which the result's has met.
unfoldable pub record_is_valid : ConsensusRunRecord → Bool
unfolding selection_feasibility
record_is_valid r =
    not (r.round == 0)
    && not (str_eq r.strategy "")
    && not (str_eq r.strategy_version "")
    && selection_feasibility r

-- What a run raises: an error of the engine, the validation of the record, or a constraint.
pub data RunError : Type 0 where
  engine_error : ConsensusError → RunError
  validation_error integrity_error : RunError

-- The two tables that a run adds to, and the keys of the two that their rows refer to: the sessions by
-- workspace, and the alternatives by workspace and session.
pub record ResultStore (D : Type 0) : Type 0 where
  pub results : List ConsensusRunRecord
  pub explanations : List (Uuid × Uuid × ConsensusExplanation D)
  pub sessions : List (Uuid × Uuid)
  pub alternatives : List (Uuid × Uuid × Uuid)

-- The two rows have one primary key, or one session, round, strategy and version.
abbrev pub collides : ConsensusRunRecord → ConsensusRunRecord → Bool
collides r x =
    r.id == x.id
    || (r.session_id == x.session_id
        && r.round == x.round
        && str_eq r.strategy x.strategy
        && str_eq r.strategy_version x.strategy_version)

-- `fk_consensus_results_selected_alternative`, for the selection of a row
abbrev pub refers : List (Uuid × Uuid × Uuid) → Uuid → Uuid → Option Uuid → Bool
refers alternatives workspace session none = true
refers alternatives workspace session (some a) =
    any (λ (w, s, b). w == workspace && s == session && b == a) alternatives

-- `fk_consensus_results_session`
abbrev pub in_sessions : List (Uuid × Uuid) → Uuid → Uuid → Bool
in_sessions sessions workspace session = any (λ (w, s). w == workspace && s == session) sessions

module _ {D : Type 0} where
  -- The flush of a record, which the table's constraints may refuse.
  unfoldable pub add_result : ConsensusRunRecord → ResultStore D → Result RunError (ResultStore D)
  add_result r st =
      if any (collides r) st.results
        || not (in_sessions st.sessions r.workspace_id r.session_id)
        || not (refers st.alternatives r.workspace_id r.session_id r.selected_alternative_id)
        || r.round == 0
        || not (is_none r.selected_alternative_id || is_selectable r.outcome)
      then err integrity_error
      else ok (record st { results = r ∷ st.results })

  -- The flush of an explanation: the row's identifier is that of the result too.
  unfoldable pub add_explanation :
      Uuid → Uuid → ConsensusExplanation D → ResultStore D → Result RunError (ResultStore D)
  add_explanation workspace id e st =
      if any (λ (w, i, x). i == id) st.explanations
        || not
            (any (λ (r : ConsensusRunRecord). r.workspace_id == workspace && r.id == id) st.results)
      then err integrity_error
      else ok (record st { explanations = (workspace, id, e) ∷ st.explanations })

  -- `str(value) if value is not None else None`, by the rendering of a decimal
  abbrev pub shown : (D → String) → Option D → Option String
  shown show none = none
  shown show (some x) = some (show x)

  unfoldable pub run_record : (D → String) → Uuid → ℕ → ConsensusResult D → ConsensusRunRecord
  run_record show workspace now r = record {
    id = r.result_id;
    workspace_id = workspace;
    session_id = r.session_id;
    round = r.round;
    strategy = r.strategy;
    strategy_version = r.strategy_version;
    outcome = r.outcome;
    selected_alternative_id = r.selected_alternative_id;
    pareto_set = r.pareto_set;
    support = shown show r.support;
    dissent = shown show r.dissent_ratio;
    abstention = shown show r.abstention_ratio;
    blocking_constraints = r.blocking_constraints;
    blocking_critiques = r.blocking_critiques;
    conditions = r.conditions;
    input_hash = r.input_hash;
    created_at = now;
  }

  -- What follows the evaluation: a fault is wrapped, a result is explained and stored.
  unfoldable pub record_outcome :
      (D → String)
      → Uuid
      → ℕ
      → Strategy D
      → Result ConsensusFault (ConsensusResult D)
      → ResultStore D
      → Result RunError (ConsensusResult D × ResultStore D)
  unfolding run_record record_is_valid add_result add_explanation
  record_outcome show workspace now s (err fault) st =
      err (engine_error (failed s.name s.version fault))
  record_outcome show workspace now s (ok r) st = do
    raise_if (not (record_is_valid (run_record show workspace now r))) validation_error
    added ← add_result (run_record show workspace now r) st
    stored ← add_explanation workspace r.result_id (s.explain r) added
    ok (r, stored)

  -- The rest of `run`, once the strategy is resolved or not.
  unfoldable pub run_resolved :
      (D → String)
      → Uuid
      → ℕ
      → ConsensusContext D
      → Result ConsensusError (Strategy D)
      → ResultStore D
      → Result RunError (ConsensusResult D × ResultStore D)
  unfolding record_outcome
  run_resolved show workspace now c (err e) st = err (engine_error e)
  run_resolved show workspace now c (ok s) st =
      record_outcome show workspace now s (s.evaluate c) st

  -- The result with the store as the run leaves it. A statement that a constraint refuses aborts the
  -- transaction, and a run that raises leaves no row.
  unfoldable pub run :
      (D → String)
      → Registry D
      → Uuid
      → ℕ
      → ConsensusContext D
      → ResultStore D
      → Result RunError (ConsensusResult D × ResultStore D)
  unfolding run_resolved resolve
  run show registry workspace now c =
      run_resolved show workspace now c
        (resolve registry c.strategy_config.strategy_name c.strategy_config.strategy_version)
