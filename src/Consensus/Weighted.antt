-- ===== src/Consensus/Weighted.antt =====
-- `WeightedStrategy.evaluate` of backend/app/application/consensus.py.
use agora_opencode.Prelude.{
  true, false, Option, none, some, String, List, [], ◌∷◌, flat_map, filter, Result, ok, ◌>>=◌,
  traverse,
}
use agora_opencode.Decimal.{Decimal, zero_dec, one_dec}
use agora_opencode.Consensus.Types.{
  AlternativeScore, Uuid, infeasible, no_consensus, FeasibilityVerdict, AlternativeInput,
  ConsensusContext, ConsensusResult, ConsensusFault,
}
use agora_opencode.Consensus.Params.{Settings, read_settings, read_alpha}
use agora_opencode.Consensus.Checks.{checked_result}
use agora_opencode.Consensus.Gate.{FeasibilityGateResult, feasibility_gate}
use agora_opencode.Consensus.Support.{
  compute_support, weighted_objective_value, contributions, build_dissent, build_minority,
  blocking_critiques, is_about,
}
use agora_opencode.Consensus.Outcome.{
  Weighed, bare_result, all_cores, step, status_of, unit_clamp, rank_weighed, classify, conclude,
}

module _ {D : Type 0} ⦃d : Decimal D⦄ where
  -- `alpha * support + (1 - alpha) * value if value is not None else support`
  abbrev pub blend : D → D → Option D → D
  blend alpha support none = support
  blend alpha support (some v) = d.plus (d.times alpha support) (d.times (d.minus one_dec alpha) v)

  -- One round of the loop over the rankable alternatives.
  unfoldable pub weigh :
      Settings D
      → D
      → ConsensusContext D
      → List FeasibilityVerdict
      → AlternativeInput
      → Result ConsensusFault (Weighed D)
  weigh s alpha c unknowns alt = do
    (support, active) ←
        compute_support alt.alternative_id c.agent_positions s.use_confidence s.abstain_policy
          s.weights
    value ← weighted_objective_value alt.alternative_id c.objectives c.objective_values
    ok (record {
      score = record {
        alternative_id = alt.alternative_id;
        alternative_name = alt.name;
        rank = 1;
        support = unit_clamp support;
        value_score = value;
        rank_score = some (blend alpha support value);
        feasibility = status_of unknowns alt.alternative_id;
        evidence_strength = none;
      };
      rank_score = blend alpha support value;
      evidence_total = zero_dec;
      contributions =
          contributions (filter (is_about alt.alternative_id) c.agent_positions) s.use_confidence;
      dissent = build_dissent alt.alternative_id c.agent_positions;
      minority = build_minority alt.alternative_id c.agent_positions c.critiques;
    })

  -- The reports of the loop and the derivation, at the last return.
  abbrev pub reported : List (Weighed D) → ConsensusResult D → ConsensusResult D
  reported ws r = record r {
    contributions = flat_map (λ (w : Weighed D). w.contributions) ws;
    dissent = flat_map (λ (w : Weighed D). w.dissent) ws;
    minority_report = flat_map (λ (w : Weighed D). w.minority) ws;
    derivation = step 1 "feasibility" ∷ step 2 "ranking" ∷ step 3 "classify" ∷ [];
  }

  -- What follows the loop, by the scores in their order.
  unfoldable pub finish :
      Uuid
      → String
      → Settings D
      → ConsensusContext D
      → FeasibilityGateResult
      → List (Weighed D)
      → List (AlternativeScore D)
      → Result ConsensusFault (ConsensusResult D)
  finish id hash s c gate ws [] =
      ok (record (bare_result id hash "weighted" "1.0.0" c no_consensus) {
        derivation = step 1 "feasibility" ∷ step 2 "ranking" ∷ [];
      })
  finish id hash s c gate ws (leader ∷ rest) =
      let blocking = blocking_critiques c.critiques in
      let outcome = classify s c gate.unknown blocking leader.alternative_id leader.support in
      let r = bare_result id hash "weighted" "1.0.0" c outcome in
      conclude r c (leader ∷ rest) leader blocking >>= λ x. ok (reported ws x)

  -- `evaluate` up to the checks of the result and its parts.
  unfoldable pub computed :
      Uuid
      → (ConsensusContext D → String)
      → ConsensusContext D
      → Result ConsensusFault (ConsensusResult D)
  unfolding weigh finish
  computed id input_hash c = do
    s ← read_settings c.strategy_config.parameters
    alpha ← read_alpha c.strategy_config.parameters
    gate ← feasibility_gate c.alternatives c.feasibility
    elim gate.all_infeasible [
      | true ↦ ok (record (bare_result id (input_hash c) "weighted" "1.0.0" c infeasible) {
        blocking_constraints = all_cores gate.infeasible;
        derivation = step 1 "feasibility" ∷ [];
      })
      | false ↦ traverse (weigh s alpha c gate.unknown) gate.rankable >>= λ ws.
          finish id (input_hash c) s c gate ws (rank_weighed ws)
    ]

  unfoldable pub evaluate :
      Uuid
      → (ConsensusContext D → String)
      → ConsensusContext D
      → Result ConsensusFault (ConsensusResult D)
  unfolding computed
  evaluate id input_hash c = computed id input_hash c >>= checked_result
