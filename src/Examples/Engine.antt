-- ===== src/Examples/Engine.antt =====
-- Evaluations of the three strategies.
use agora_opencode.Consensus.Checks.{checked_result}
use agora_opencode.Consensus.Outcome.{classify, rank_weighed, stance_ratio}
use agora_opencode.Consensus.Dominance.{objective_value_lookup, undominated}
use agora_opencode.Prelude.{sort_desc, ◌≡◌, refl, ok, is_blank}
use agora_opencode.Decimal.Fixed.{Fixed, fixed_decimal}
use agora_opencode.Consensus.Types.{result_invariants, ConsensusResult}
use agora_opencode.Consensus.Params.{read_settings, read_alpha, read_evidence, read_constraint}
use agora_opencode.Consensus.Gate.{feasibility_gate}
use agora_opencode.Consensus.Support.{
  build_dissent, build_minority, contributions, compute_support, blocking_critiques,
  weighted_objective_value, relevant,
}
use agora_opencode.Consensus.ConstraintAware.{
  conflicts, evidence_floor, evaluate as constraint_aware,
}
use agora_opencode.Consensus.EvidenceWeighted.{blended_support, evaluate as evidence_weighted}
use agora_opencode.Consensus.Evidence.{clamp, evidence_strength}
use agora_opencode.Examples.Contexts.{context, hash_of}
use agora_opencode.Consensus.Weighted.{evaluate as weighted}
use agora_opencode.Consensus.Contract.{IsSound}
use agora_opencode.Consensus.Sound.Weighted.{weighted-IsSound}
use agora_opencode.Consensus.Sound.EvidenceWeighted.{evidence_weighted-IsSound}
use agora_opencode.Consensus.Sound.ConstraintAware.{constraint_aware-IsSound}

weighted_run : (r : ConsensusResult Fixed) × (weighted 7 hash_of context ≡ ok r)
unfolding weighted read_settings read_alpha feasibility_gate is_blank weighted_objective_value
    compute_support rank_weighed sort_desc stance_ratio checked_result contributions
    result_invariants classify blocking_critiques build_dissent build_minority
weighted_run = (_, refl)

weighted-IsSound_example : IsSound context weighted_run.0
weighted-IsSound_example = weighted-IsSound 7 hash_of context weighted_run.0 weighted_run.1

evidence_weighted_run : (r : ConsensusResult Fixed) × (evidence_weighted 7 hash_of context ≡ ok r)
unfolding evidence_weighted read_evidence read_alpha feasibility_gate is_blank
    weighted_objective_value blended_support relevant evidence_strength compute_support rank_weighed
    sort_desc clamp stance_ratio checked_result contributions result_invariants classify
    blocking_critiques build_dissent build_minority
evidence_weighted_run = (_, refl)

evidence_weighted-IsSound_example : IsSound context evidence_weighted_run.0
evidence_weighted-IsSound_example =
    evidence_weighted-IsSound 7 hash_of context evidence_weighted_run.0 evidence_weighted_run.1

pub constraint_aware_run : (r : ConsensusResult Fixed) × (constraint_aware 7 hash_of context ≡ ok r)
unfolding constraint_aware read_constraint feasibility_gate is_blank evidence_floor blended_support
    relevant evidence_strength objective_value_lookup conflicts sort_desc undominated
    compute_support stance_ratio checked_result clamp contributions result_invariants classify
    blocking_critiques build_dissent build_minority
constraint_aware_run = (_, refl)

constraint_aware-IsSound_example : IsSound context constraint_aware_run.0
constraint_aware-IsSound_example =
    constraint_aware-IsSound 7 hash_of context constraint_aware_run.0 constraint_aware_run.1
