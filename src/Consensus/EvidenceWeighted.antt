-- ===== src/Consensus/EvidenceWeighted.antt =====
-- `EvidenceWeightedStrategy.evaluate` of backend/app/application/consensus.py.
use agora_opencode.Prelude.{
  Bool, true, false, some, String, List, [], ◌∷◌, flat_map, Result, ok, ◌>>=◌, traverse, get_or,
  length,
}
use agora_opencode.Decimal.{Decimal, zero_dec, one_dec, max, min}
use agora_opencode.Consensus.Types.{
  AlternativeScore, Uuid, infeasible, no_consensus, insufficient_evidence, FeasibilityVerdict,
  AgentPosition, AlternativeInput, ConsensusContext, ConsensusResult, ConsensusFault,
}
use agora_opencode.Consensus.Params.{Settings, EvidenceSettings, read_evidence, read_alpha}
use agora_opencode.Consensus.Checks.{checked_result}
use agora_opencode.Consensus.Gate.{FeasibilityGateResult, feasibility_gate}
use agora_opencode.Consensus.Support.{
  compute_support, weighted_objective_value, contributions, build_dissent, build_minority,
  blocking_critiques, relevant, position_score, divide, is_zero,
}
use agora_opencode.Consensus.Evidence.{evidence_strength, clamp}
use agora_opencode.Consensus.Outcome.{
  Weighed, bare_result, all_cores, step, status_of, unit_clamp, rank_weighed, table_of, classify,
  conclude,
}
use agora_opencode.Consensus.Weighted.{blend, reported}

module _ {D : Type 0} ⦃d : Decimal D⦄ where
  -- `_clamp((e - d) / (e + d + 1), -1, 1)`
  unfoldable pub evidence_factor : D → D → Result ConsensusFault D
  unfolding divide
  evidence_factor e_i d_i = divide (d.minus e_i d_i) (d.plus (d.plus e_i d_i) one_dec) >>= λ x.
      ok (clamp x (d.minus zero_dec one_dec) one_dec)

  -- The loop over the relevant positions: the evidence total and the weighted terms.
  unfoldable pub add_terms :
      EvidenceSettings D
      → ConsensusContext D
      → D
      → D
      → List (AgentPosition D)
      → Result ConsensusFault (D × D)
  unfolding evidence_factor
  add_terms s c e_alt terms [] = ok (e_alt, terms)
  add_terms s c e_alt terms (p ∷ ps) =
      let (e_i, d_i) =
        evidence_strength p c.evidence s.verification_weights s.trust_multiplier
          s.independence_cap in
      let base = position_score p.stance p.confidence s.base.use_confidence s.base.weights in
      evidence_factor e_i d_i >>= λ evid.
      add_terms s c (d.plus e_alt e_i)
        (d.plus terms (d.times base (d.plus one_dec (d.times s.lam (max zero_dec evid))))) ps

  -- The evidence total of an alternative and its `support_ev`.
  unfoldable pub evidence_support :
      EvidenceSettings D
      → ConsensusContext D
      → List (AgentPosition D)
      → Result ConsensusFault (D × D)
  unfolding add_terms divide
  evidence_support s c [] = ok (zero_dec, zero_dec)
  evidence_support s c (p ∷ ps) = do
    (e_alt, terms) ← add_terms s c zero_dec zero_dec (p ∷ ps)
    share ← divide terms (d.lit (length (p ∷ ps)) 0)
    ok (e_alt, min one_dec share)

  -- The evidence total, and the support blended from `support_weighted` and `support_ev`.
  unfoldable pub blended_support :
      EvidenceSettings D → ConsensusContext D → Uuid → Result ConsensusFault (D × D)
  unfolding evidence_support
  blended_support s c alt = do
    (e_alt, support_ev) ←
        evidence_support s c (relevant alt s.base.abstain_policy c.agent_positions)
    (support_weighted, active) ←
        compute_support alt c.agent_positions s.base.use_confidence s.base.abstain_policy
          s.base.weights
    ok (
      e_alt,
      d.plus (d.times (d.minus one_dec s.beta) support_weighted) (d.times s.beta support_ev),
    )

  -- One round of the loop over the rankable alternatives.
  unfoldable pub weigh :
      EvidenceSettings D
      → D
      → ConsensusContext D
      → List FeasibilityVerdict
      → AlternativeInput
      → Result ConsensusFault (Weighed D)
  weigh s alpha c unknowns alt = do
    (e_alt, support) ← blended_support s c alt.alternative_id
    value ← weighted_objective_value alt.alternative_id c.objectives c.objective_values
    ok (record {
      score = record {
        alternative_id = alt.alternative_id;
        alternative_name = alt.name;
        rank = 1;
        support = unit_clamp support;
        value_score = value;
        rank_score = some (blend alpha support value);
        feasibility = status_of unknowns alt.alternative_id;
        evidence_strength = some e_alt;
      };
      rank_score = blend alpha support value;
      evidence_total = e_alt;
      contributions =
          contributions (relevant alt.alternative_id s.base.abstain_policy c.agent_positions)
            s.base.use_confidence;
      dissent = build_dissent alt.alternative_id c.agent_positions;
      minority = build_minority alt.alternative_id c.agent_positions c.critiques;
    })

  abbrev with_reports : List (Weighed D) → ConsensusResult D → ConsensusResult D
  with_reports ws r = record r {
    contributions = flat_map (λ (w : Weighed D). w.contributions) ws;
    dissent = flat_map (λ (w : Weighed D). w.dissent) ws;
    minority_report = flat_map (λ (w : Weighed D). w.minority) ws;
  }

  -- `evw_evidence_totals.get(leader.alternative_id, Decimal("0")) == 0`
  abbrev pub lacks_evidence : List (Weighed D) → Uuid → Bool
  lacks_evidence ws a = is_zero (get_or zero_dec a (table_of (λ w. w.evidence_total) ws))

  -- The last return, for a leader with evidence or without.
  unfoldable pub finish_leader :
      Uuid
      → String
      → Settings D
      → ConsensusContext D
      → FeasibilityGateResult
      → List (Weighed D)
      → AlternativeScore D
      → List (AlternativeScore D)
      → Bool
      → Result ConsensusFault (ConsensusResult D)
  finish_leader id hash s c gate ws leader scores true =
      ok
        (record (with_reports ws
          (bare_result id hash "evidence_weighted" "1.0.0" c insufficient_evidence)) {
            scores = scores;
            blocking_critiques = blocking_critiques c.critiques;
            derivation = step 1 "feasibility" ∷ step 2 "ranking" ∷ step 3 "evidence_gate" ∷ [];
          })
  finish_leader id hash s c gate ws leader scores false =
      let blocking = blocking_critiques c.critiques in
      let outcome = classify s c gate.unknown blocking leader.alternative_id leader.support in
      let r = bare_result id hash "evidence_weighted" "1.0.0" c outcome in
      conclude r c scores leader blocking >>= λ x. ok (reported ws x)

  -- What follows the loop, by the scores in their order.
  unfoldable pub finish :
      Uuid
      → String
      → Settings D
      → ConsensusContext D
      → FeasibilityGateResult
      → List (Weighed D)
      → List (AlternativeScore D)
      → Result ConsensusFault (ConsensusResult D)
  unfolding finish_leader
  finish id hash s c gate ws [] =
      ok (record (bare_result id hash "evidence_weighted" "1.0.0" c no_consensus) {
        derivation = step 1 "feasibility" ∷ step 2 "ranking" ∷ [];
      })
  finish id hash s c gate ws (leader ∷ rest) =
      finish_leader id hash s c gate ws leader (leader ∷ rest)
        (lacks_evidence ws leader.alternative_id)

  -- `evaluate` up to the checks of the result and its parts.
  unfoldable pub computed :
      Uuid
      → (ConsensusContext D → String)
      → ConsensusContext D
      → Result ConsensusFault (ConsensusResult D)
  unfolding weigh finish
  computed id input_hash c = do
    s ← read_evidence c.strategy_config.parameters
    alpha ← read_alpha c.strategy_config.parameters
    gate ← feasibility_gate c.alternatives c.feasibility
    elim gate.all_infeasible [
      | true ↦ ok (record (bare_result id (input_hash c) "evidence_weighted" "1.0.0" c infeasible) {
        blocking_constraints = all_cores gate.infeasible;
        derivation = step 1 "feasibility" ∷ [];
      })
      | false ↦ traverse (weigh s alpha c gate.unknown) gate.rankable >>= λ ws.
          finish id (input_hash c) s.base c gate ws (rank_weighed ws)
    ]

  unfoldable pub evaluate :
      Uuid
      → (ConsensusContext D → String)
      → ConsensusContext D
      → Result ConsensusFault (ConsensusResult D)
  unfolding computed
  evaluate id input_hash c = computed id input_hash c >>= checked_result
