-- ===== src/Consensus/Types.antt =====
-- The value objects of backend/app/ports/consensus.py. Identifiers are numbers, a tuple is a list,
-- and a type that holds a decimal takes the decimals' type `D`.
use agora_opencode.Prelude.{
  ℕ, Bool, true, false, ◌&&◌, ◌||◌, not, Option, none, some, String, List, [], ◌∷◌, map, contains,
  all, is_nil, is_blank,
}

-- A `UUID` is only compared.
abbrev pub Uuid : Type 0
Uuid = ℕ

pub data ConsensusOutcome : Type 0 where
  full_consensus partial_consensus conditional_consensus pareto_set : ConsensusOutcome
  no_consensus deadlock insufficient_evidence infeasible : ConsensusOutcome

pub data FeasibilityStatus : Type 0 where
  sat unsat unknown : FeasibilityStatus

pub data AbstainPolicy : Type 0 where
  exclude half : AbstainPolicy

pub record FeasibilityVerdict : Type 0 where
  pub alternative_id : Uuid
  pub status : FeasibilityStatus
  pub unsat_core : List String
  -- the JSON text of the witness model
  pub witness : Option String
  pub reason_unknown : Option String

abbrev pub is_none {ℓ} : {A : Type ℓ} → Option A → Bool
is_none none = true
is_none (some a) = false

-- A reason that is there and not blank.
abbrev pub has_reason : Option String → Bool
has_reason none = false
has_reason (some r) = not (is_blank r)

abbrev status_evidence : FeasibilityStatus → FeasibilityVerdict → Bool
status_evidence sat v = is_nil v.unsat_core && is_none v.reason_unknown
status_evidence unsat v = not (is_nil v.unsat_core) && is_none v.witness && is_none v.reason_unknown
status_evidence unknown v = has_reason v.reason_unknown && is_nil v.unsat_core && is_none v.witness

-- `FeasibilityVerdict.evidence_matches_status`: `true` where the validator raises nothing.
unfoldable pub evidence_matches_status : FeasibilityVerdict → Bool
evidence_matches_status v = status_evidence v.status v

pub record AlternativeInput : Type 0 where
  pub alternative_id : Uuid
  pub name : String

pub record AgentPosition (D : Type 0) : Type 0 where
  pub agent_id : Uuid
  pub alternative_id : Uuid
  pub stance : String
  pub confidence : D
  pub evidence_ids : List Uuid

pub record EvidenceCitationInput : Type 0 where
  pub evidence_id : Uuid
  pub verification : String
  pub trust_level : String
  pub polarity : String
  pub publisher : String

pub record ObjectiveInput (D : Type 0) : Type 0 where
  pub objective_id : Uuid
  pub weight : D
  pub conflicts_with : List Uuid

pub record CritiqueInput : Type 0 where
  pub critique_id : Uuid
  pub severity : String
  pub resolution : String

-- A parameter of a strategy, typed `Any`. A table maps to the `str()` of its values.
pub data ParamValue (D : Type 0) : Type 0 where
  flag : Bool → ParamValue D
  int : ℕ → ParamValue D
  number : D → ParamValue D
  text : String → ParamValue D
  table : List (String × String) → ParamValue D

pub record StrategyConfig (D : Type 0) : Type 0 where
  pub strategy_name : String
  pub strategy_version : String
  pub parameters : List (String × ParamValue D)

pub record ConsensusContext (D : Type 0) : Type 0 where
  pub session_id : Uuid
  pub round : ℕ
  pub alternatives : List AlternativeInput
  pub agent_positions : List (AgentPosition D)
  pub evidence : List EvidenceCitationInput
  pub critiques : List CritiqueInput
  pub objectives : List (ObjectiveInput D)
  pub feasibility : List FeasibilityVerdict
  pub strategy_config : StrategyConfig D
  -- by objective and then by alternative
  pub objective_values : List (Uuid × List (Uuid × String))

-- `len(set(ids)) == len(ids)`
abbrev pub are_unique : List Uuid → Bool
are_unique [] = true
are_unique (x ∷ xs) = not (contains x xs) && are_unique xs

-- `ConsensusContext.unique_alternatives` and `feasibility_matches_alternatives`, with the
-- validators of the verdicts and the least length of the alternatives.
pub context_is_valid : {D : Type 0} → ConsensusContext D → Bool
unfolding evidence_matches_status
context_is_valid c =
    let ids = map (λ (a : AlternativeInput). a.alternative_id) c.alternatives in
    let verdict_ids = map (λ (v : FeasibilityVerdict). v.alternative_id) c.feasibility in
    not (is_nil c.alternatives)
    && are_unique ids
    && all evidence_matches_status c.feasibility
    && are_unique verdict_ids
    && all (λ v. contains v ids) verdict_ids

pub record AlternativeScore (D : Type 0) : Type 0 where
  pub alternative_id : Uuid
  pub alternative_name : String
  pub rank : ℕ
  pub support : D
  pub value_score : Option D
  pub rank_score : Option D
  pub feasibility : FeasibilityStatus
  pub evidence_strength : Option D

pub record AgentContribution (D : Type 0) : Type 0 where
  pub agent_id : Uuid
  pub alternative_id : Uuid
  pub stance : String
  pub position_score : D
  pub confidence : D

pub record DissentEntry : Type 0 where
  pub agent_id : Uuid
  pub stance : String
  pub warrant_artifact_ids : List Uuid

pub record MinorityEntry : Type 0 where
  pub agent_id : Uuid
  pub position : String
  pub warrant_artifact_ids : List Uuid
  pub unresolved_critiques : List Uuid

-- A step of the derivation; its free-form description, inputs and outputs are left out.
pub record DerivationStep : Type 0 where
  pub step : ℕ
  pub stage : String

pub record ConsensusResult (D : Type 0) : Type 0 where
  pub result_id : Uuid
  pub session_id : Uuid
  pub round : ℕ
  pub strategy : String
  pub strategy_version : String
  pub outcome : ConsensusOutcome
  pub scores : List (AlternativeScore D)
  pub selected_alternative_id : Option Uuid
  pub pareto_set : List Uuid
  pub support : Option D
  pub dissent_ratio : Option D
  pub abstention_ratio : Option D
  pub blocking_constraints : List String
  pub blocking_critiques : List Uuid
  pub conditions : List String
  pub degenerate_input : Bool
  pub input_hash : String
  pub contributions : List (AgentContribution D)
  pub dissent : List DissentEntry
  pub minority_report : List MinorityEntry
  pub derivation : List DerivationStep

-- The outcomes with which a selection may stand.
abbrev pub is_selectable : ConsensusOutcome → Bool
is_selectable full_consensus = true
is_selectable partial_consensus = true
is_selectable conditional_consensus = true
is_selectable _ = false

-- `ConsensusResult.result_invariants`: `true` where the validator raises nothing.
unfoldable pub result_invariants : {D : Type 0} → ConsensusResult D → Bool
result_invariants r = is_none r.selected_alternative_id || is_selectable r.outcome

-- What an evaluation may raise.
pub data ConsensusFault : Type 0 where
  bad_parameter bad_objective_value missing_reason empty_ranking : ConsensusFault
  division_by_zero invalid_value : ConsensusFault
