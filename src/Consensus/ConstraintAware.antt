-- ===== src/Consensus/ConstraintAware.antt =====
-- `ConstraintAwareStrategy.evaluate` of backend/app/application/consensus.py, by its stages.
use agora_opencode.Prelude.{
  true, ok, err, ◌>>=◌, traverse, sort_desc, Result, ℕ, ◌+◌, Bool, false, ◌&&◌, not, Option, none,
  some, String, List, [], ◌∷◌, ◌++◌, map, flat_map, filter, any, get_or, lookup, dict_of, length,
  leb, is_nil, if◌then◌else◌,
}
use agora_opencode.Decimal.{Decimal, zero_dec}
use agora_opencode.Consensus.Types.{
  infeasible, empty_ranking, insufficient_evidence, pareto_set, ConsensusFault, ConsensusOutcome,
  Uuid, sat, AlternativeInput, AlternativeScore, AgentContribution, DissentEntry, MinorityEntry,
  ObjectiveInput, ConsensusContext, ConsensusResult,
}
use agora_opencode.Consensus.Params.{read_constraint, ConstraintSettings}
use agora_opencode.Consensus.Checks.{checked_result}
use agora_opencode.Consensus.Gate.{feasibility_gate, FeasibilityGateResult}
use agora_opencode.Consensus.Support.{
  blocking_critiques, contributions, build_dissent, build_minority, relevant,
}
use agora_opencode.Consensus.Dominance.{undominated, objective_value_lookup, Values, values_of}
use agora_opencode.Consensus.Outcome.{
  all_cores, conclude, classify, step, blocking_gate_outcome, bare_result, status_of, unit_clamp,
  distinct,
}
use agora_opencode.Consensus.EvidenceWeighted.{blended_support}

-- What the first loop keeps for an alternative.
pub record Assessed (D : Type 0) : Type 0 where
  pub alternative_id : Uuid
  pub evidence_total : D
  pub support_ev : D
  pub contributions : List (AgentContribution D)
  pub dissent : List DissentEntry
  pub minority : List MinorityEntry

module _ {D : Type 0} where
  -- A dict that the loop fills, the latest entry first.
  abbrev pub table_of : (Assessed D → D) → List (Assessed D) → List (Uuid × D)
  table_of f [] = []
  table_of f (a ∷ as') = table_of f as' ++ ((a.alternative_id, f a) ∷ [])

  -- `{a: _objective_value_lookup(a, …) for a in stage2_ids}`, the latest entry first
  abbrev pub values_table : List (Uuid × Values D) → List (Uuid × Values D)
  values_table [] = []
  values_table (e ∷ es) = values_table es ++ (e ∷ [])

-- `by_id[a].name`: the identifiers scored are all among the rankable alternatives.
abbrev pub name_of : List AlternativeInput → Uuid → String
name_of alts a = elim (lookup a (dict_of (λ (x : AlternativeInput). x.alternative_id) alts)) [
  | none ↦ ""
  | some x ↦ x.name
]

module _ {D : Type 0} ⦃d : Decimal D⦄ where
  -- One round of the first loop.
  unfoldable pub assess :
      ConstraintSettings D
      → ConsensusContext D
      → AlternativeInput
      → Result ConsensusFault (Assessed D)
  assess s c alt = do
    (e_alt, support) ← blended_support s.evidence c alt.alternative_id
    ok (record {
      alternative_id = alt.alternative_id;
      evidence_total = e_alt;
      support_ev = support;
      contributions =
          contributions
            (relevant alt.alternative_id s.evidence.base.abstain_policy c.agent_positions)
            s.evidence.base.use_confidence;
      dissent = build_dissent alt.alternative_id c.agent_positions;
      minority = build_minority alt.alternative_id c.agent_positions c.critiques;
    })

  -- Stage 2, the evidence floor.
  unfoldable pub evidence_floor :
      ConstraintSettings D → List (Assessed D) → List AlternativeInput → List Uuid
  evidence_floor s as' alts =
      let ids = map (λ (a : AlternativeInput). a.alternative_id) alts in
      if s.allow_unevidenced
      then ids
      else filter (λ a. d.below zero_dec (get_or zero_dec a (table_of (λ x. x.evidence_total) as')))
          ids

  -- The inner loop of stage 4, over the best alternative so far with its value.
  unfoldable pub best_from :
      List (Uuid × Values D) → Uuid → Option (Uuid × D) → List Uuid → Option (Uuid × D)
  best_from table k best [] = best
  best_from table k best (a ∷ as') =
      let next : Option (Uuid × D) = elim (lookup k (values_of table a)) [
        | none ↦ best
        | some v ↦ elim best [
          | none ↦ some (a, v)
          | some (b, w) ↦ (if d.below w v then some (a, v) else some (b, w))
        ]
      ] in
      best_from table k next as'

  -- `argmaxes`, as a list that may repeat
  unfoldable pub argmaxes : List (Uuid × Values D) → List Uuid → List (ObjectiveInput D) → List Uuid
  unfolding best_from
  argmaxes table pareto [] = []
  argmaxes table pareto (o ∷ os) = elim (best_from table o.objective_id none pareto) [
    | none ↦ argmaxes table pareto os
    | some (a, v) ↦ a ∷ argmaxes table pareto os
  ]

  -- Stage 4, the conflict test.
  unfoldable pub conflicts : List (Uuid × Values D) → List Uuid → List (ObjectiveInput D) → Bool
  unfolding argmaxes
  conflicts table pareto os =
      any (λ (o : ObjectiveInput D). not (is_nil o.conflicts_with)) os
      && leb 2 (length (distinct (argmaxes table pareto os)))
      && leb 2 (length pareto)

  -- The scores of stage 4 and of stage 5, numbered from `i`.
  unfoldable pub frontier_scores :
      List AlternativeInput → List (Assessed D) → ℕ → List Uuid → List (AlternativeScore D)
  frontier_scores alts as' i [] = []
  frontier_scores alts as' i (a ∷ ids) =
      record {
        alternative_id = a;
        alternative_name = name_of alts a;
        rank = i;
        support = unit_clamp (get_or zero_dec a (table_of (λ x. x.support_ev) as'));
        value_score = none;
        rank_score = none;
        feasibility = sat;
        evidence_strength = lookup a (table_of (λ x. x.evidence_total) as');
      }
      ∷ frontier_scores alts as' (i + 1) ids

  unfoldable pub ordered_scores :
      FeasibilityGateResult → List (Assessed D) → ℕ → List Uuid → List (AlternativeScore D)
  ordered_scores gate as' i [] = []
  ordered_scores gate as' i (a ∷ ids) =
      record {
        alternative_id = a;
        alternative_name = name_of gate.rankable a;
        rank = i;
        support = unit_clamp (get_or zero_dec a (table_of (λ x. x.support_ev) as'));
        value_score = none;
        rank_score = lookup a (table_of (λ x. x.support_ev) as');
        feasibility = status_of gate.unknown a;
        evidence_strength = lookup a (table_of (λ x. x.evidence_total) as');
      }
      ∷ ordered_scores gate as' (i + 1) ids

  -- Stage 6: whether the first two supports are closer than the threshold.
  unfoldable pub threshold_bound : ConstraintSettings D → List (AlternativeScore D) → Bool
  threshold_bound s (x ∷ y ∷ rest) =
      let gap = d.minus x.support y.support in
      d.below (if d.below gap zero_dec then d.minus zero_dec gap else gap) s.min_flip_distance
  threshold_bound s _ = false

  abbrev pub with_reports : List (Assessed D) → ConsensusResult D → ConsensusResult D
  with_reports as' r = record r {
    contributions = flat_map (λ (a : Assessed D). a.contributions) as';
    dissent = flat_map (λ (a : Assessed D). a.dissent) as';
    minority_report = flat_map (λ (a : Assessed D). a.minority) as';
  }

  -- The result's name, version and input hash, filled in at every return.
  abbrev pub named : Uuid → String → ConsensusContext D → ConsensusOutcome → ConsensusResult D
  named id hash c o = bare_result id hash "constraint_aware" "1.0.0" c o

  -- The return of stage 4: the frontier, and no selection.
  unfoldable pub return_frontier :
      Uuid
      → String
      → ConsensusContext D
      → FeasibilityGateResult
      → List (Assessed D)
      → List Uuid
      → ConsensusResult D
  unfolding frontier_scores
  return_frontier id hash c gate as' pareto =
      let blocking = blocking_critiques c.critiques in
      record (with_reports as' (named id hash c (blocking_gate_outcome blocking pareto_set))) {
        scores = frontier_scores gate.rankable as' 1 pareto;
        pareto_set = pareto;
        blocking_critiques = blocking;
        derivation =
            step 1 "stage1_feasibility"
            ∷ step 2 "stage2_evidence_floor"
            ∷ step 3 "stage3_dominance"
            ∷ step 4 "stage4_conflict_test"
            ∷ [];
      }

  -- The reports of the first loop, the conditions and the derivation, at the last return.
  abbrev pub explained :
      ConstraintSettings D
      → List (AlternativeScore D)
      → List (Assessed D)
      → ConsensusResult D
      → ConsensusResult D
  explained s scores as' r = record (with_reports as' r) {
    conditions =
        if threshold_bound s scores
        then "ranking is threshold-bound: flip distance below min_flip_distance" ∷ []
        else [];
    derivation =
        step 1 "stage1_feasibility"
        ∷ step 2 "stage2_evidence_floor"
        ∷ step 3 "stage3_dominance"
        ∷ step 5 "stage5_support_order"
        ∷ step 6 "stage6_robustness"
        ∷ step 7 "stage7_classify"
        ∷ [];
  }

  -- Stages 6 and 7 over the scores of stage 5. `scores[0]` raises where there is none.
  unfoldable pub return_ranking :
      Uuid
      → String
      → ConstraintSettings D
      → ConsensusContext D
      → FeasibilityGateResult
      → List (Assessed D)
      → List (AlternativeScore D)
      → Result ConsensusFault (ConsensusResult D)
  return_ranking id hash s c gate as' [] = err empty_ranking
  return_ranking id hash s c gate as' (leader ∷ rest) =
      let blocking = blocking_critiques c.critiques in
      let outcome =
        classify s.evidence.base c gate.unknown blocking leader.alternative_id leader.support in
      let r = named id hash c outcome in
      conclude r c (leader ∷ rest) leader blocking >>= λ x. ok (explained s (leader ∷ rest) as' x)

  -- The scores of stage 5: the undominated alternatives by descending support.
  unfoldable pub support_order :
      FeasibilityGateResult → List (Assessed D) → List Uuid → List (AlternativeScore D)
  unfolding ordered_scores
  support_order gate as' pareto =
      ordered_scores gate as' 1
        (sort_desc d.below (λ a. get_or zero_dec a (table_of (λ x. x.support_ev) as')) pareto)

  -- The values of the alternatives that passed the floor.
  unfoldable pub stage2_values :
      ConsensusContext D → List Uuid → Result ConsensusFault (List (Uuid × Values D))
  stage2_values c ids =
      traverse (λ a. objective_value_lookup a c.objectives c.objective_values >>= λ vs. ok (a, vs))
        ids
      >>= λ entries. ok (values_table entries)

  -- Stages 4 to 7 over the undominated set.
  unfoldable pub decide_frontier :
      Uuid
      → String
      → ConstraintSettings D
      → ConsensusContext D
      → FeasibilityGateResult
      → List (Assessed D)
      → List (Uuid × Values D)
      → List Uuid
      → Result ConsensusFault (ConsensusResult D)
  unfolding return_frontier return_ranking support_order
  decide_frontier id hash s c gate as' table pareto =
      if conflicts table pareto c.objectives
      then ok (return_frontier id hash c gate as' pareto)
      else return_ranking id hash s c gate as' (support_order gate as' pareto)

  -- Stages 3 to 7 over what passed the floor, and the return where nothing did.
  unfoldable pub after_floor :
      Uuid
      → String
      → ConstraintSettings D
      → ConsensusContext D
      → FeasibilityGateResult
      → List (Assessed D)
      → List Uuid
      → Result ConsensusFault (ConsensusResult D)
  unfolding stage2_values decide_frontier
  after_floor id hash s c gate as' [] =
      ok (record (with_reports as' (named id hash c insufficient_evidence)) {
        blocking_critiques = blocking_critiques c.critiques;
        derivation = step 1 "stage1_feasibility" ∷ step 2 "stage2_evidence_floor" ∷ [];
      })
  after_floor id hash s c gate as' (a ∷ rest) = do
    table ← stage2_values c (a ∷ rest)
    let keys = map (λ (o : ObjectiveInput D). o.objective_id) c.objectives
    decide_frontier id hash s c gate as' table (undominated (a ∷ rest) table keys s.epsilon)

  -- Stages 2 to 7.
  unfoldable pub stages :
      Uuid
      → String
      → ConstraintSettings D
      → ConsensusContext D
      → FeasibilityGateResult
      → Result ConsensusFault (ConsensusResult D)
  unfolding assess after_floor
  stages id hash s c gate = traverse (assess s c) gate.rankable >>= λ as'.
      after_floor id hash s c gate as' (evidence_floor s as' gate.rankable)

  -- `evaluate` up to the checks of the result and its parts.
  unfoldable pub computed :
      Uuid
      → (ConsensusContext D → String)
      → ConsensusContext D
      → Result ConsensusFault (ConsensusResult D)
  unfolding stages
  computed id input_hash c = do
    s ← read_constraint c.strategy_config.parameters
    gate ← feasibility_gate c.alternatives c.feasibility
    elim gate.all_infeasible [
      | true ↦ ok (record (named id (input_hash c) c infeasible) {
        blocking_constraints = all_cores gate.infeasible;
        derivation = step 1 "stage1_feasibility" ∷ [];
      })
      | false ↦ stages id (input_hash c) s c gate
    ]

  unfoldable pub evaluate :
      Uuid
      → (ConsensusContext D → String)
      → ConsensusContext D
      → Result ConsensusFault (ConsensusResult D)
  unfolding computed
  evaluate id input_hash c = computed id input_hash c >>= checked_result
