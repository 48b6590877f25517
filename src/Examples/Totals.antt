-- ===== src/Examples/Totals.antt =====
-- That strategies return a result, what the frontier holds, and the cap on a publisher.
use agora_opencode.Consensus.Support.{compute_support, relevant}
use agora_opencode.Prelude.{
  traverse, is_blank, ℕ, ◌≡◌, refl, ok, true, false, [], ◌∷◌, String, List, some, Bool-cases, subst,
  ◌==◌, inl, inr, arith,
}
use Prim.Native.Nat.{min}
use agora_opencode.Decimal.Fixed.{Fixed, fixed_decimal}
use agora_opencode.Consensus.Types.{
  exclude, EvidenceCitationInput, evidence_matches_status, ConsensusResult,
}
use agora_opencode.Consensus.Gate.{feasibility_gate, FeasibilityGateResult}
use agora_opencode.Consensus.Params.{
  default_trust_multiplier, default_verification_weights, position_weights, ConstraintSettings,
  read_constraint, read_settings, read_alpha, Settings, read_evidence,
}
use agora_opencode.Consensus.Evidence.{evidence_strength, capped_by_publisher}
use agora_opencode.Consensus.Dominance.{objective_value_lookup, undominated}
use agora_opencode.Consensus.Evidence.Cap.{cited, cited-capped_by_publisher}
use agora_opencode.Consensus.EvidenceWeighted.{blended_support, evaluate as evidence_weighted}
use agora_opencode.Consensus.ConstraintAware.{stage2_values, evidence_floor, assess, Assessed}
use agora_opencode.Consensus.Total.Values.{IsReadable}
use agora_opencode.Consensus.Total.Graded.{evidence_weighted_total}
use agora_opencode.Consensus.Total.Linear.{weighted_total}
use agora_opencode.Consensus.Checks.{fields_are_valid}
use agora_opencode.Consensus.Weighted.{evaluate as weighted}
use agora_opencode.Consensus.Frontier.{IsWithin, constraint_aware-IsWithin}
use agora_opencode.Examples.Engine.{constraint_aware_run as evaluated}
use agora_opencode.Examples.Contexts.{refuted_verdict, open_verdict, context, hash_of}

is_text :
    (v : Fixed) (raw given : String)
    → fixed_decimal.parse given ≡ some v
    → given ≡ raw
    → (w : Fixed) × (fixed_decimal.parse raw ≡ some w)
is_text v raw given p e = (v, subst (λ t. fixed_decimal.parse t ≡ some v) e p)

context-IsReadable : IsReadable Fixed context.objective_values
unfolding IsReadable
context-IsReadable objective alt raw e = elim (Bool-cases (31 == objective)) [
  | inr other ↦ absurd (ground (arith, other, e))
  | inl here ↦ elim (Bool-cases (1 == alt)) [
    | inl one ↦ is_text (record { up = 100; down = 0 }) raw "1" refl (ground (arith, here, one, e))
    | inr not_one ↦ elim (Bool-cases (3 == alt)) [
      | inl three ↦
          is_text (record { up = 50; down = 0 }) raw "0.5" refl
            (ground (arith, here, not_one, three, e))
      | inr not_three ↦ absurd (ground (arith, here, not_one, not_three, e))
    ]
  ]
]

settings : (s : Settings Fixed) × (read_settings [] ≡ ok s)
unfolding read_settings
settings = (_, refl)

abbrev alpha : Fixed
alpha = record { up = 50; down = 0 }

weighted_total_example : (r : ConsensusResult Fixed) × (weighted 7 hash_of context ≡ ok r)
unfolding read_alpha fields_are_valid evidence_matches_status is_blank
weighted_total_example =
    weighted_total 7 hash_of context settings.0 alpha settings.1 refl refl refl context-IsReadable

-- The default parameters.
abbrev constraint_settings : ConstraintSettings Fixed
constraint_settings = record {
  evidence = record {
    base = record {
      use_confidence = false;
      abstain_policy = exclude;
      agreement_threshold = record { up = 66; down = 0 };
      partial_threshold = record { up = 50; down = 0 };
      weights = position_weights;
    };
    beta = record { up = 40; down = 0 };
    lam = record { up = 50; down = 0 };
    independence_cap = 2;
    verification_weights = default_verification_weights;
    trust_multiplier = default_trust_multiplier;
  };
  epsilon = record { up = 1; down = 0 };
  min_flip_distance = record { up = 5; down = 0 };
  allow_unevidenced = false;
}

evidence_weighted_total_example :
    (r : ConsensusResult Fixed) × (evidence_weighted 7 hash_of context ≡ ok r)
unfolding read_evidence read_alpha fields_are_valid evidence_matches_status is_blank
evidence_weighted_total_example =
    evidence_weighted_total 7 hash_of context constraint_settings.evidence alpha refl refl refl refl
      refl refl context-IsReadable

abbrev gated : FeasibilityGateResult
gated = record {
  rankable =
      record { alternative_id = 1; name = "keep" }
      ∷ record { alternative_id = 3; name = "extend" }
      ∷ [];
  infeasible = refuted_verdict ∷ [];
  unknown = open_verdict ∷ [];
  all_infeasible = false;
  has_unknown = true;
}

assessed :
    (as' : List (Assessed Fixed)) × (traverse (assess constraint_settings context) gated.rankable
      ≡ ok as')
unfolding assess blended_support relevant evidence_strength compute_support
assessed = (_, refl)

values :
    (table : List (ℕ × List (ℕ × Fixed))) × (stage2_values context
        (evidence_floor constraint_settings assessed.0 gated.rankable)
      ≡ ok table)
unfolding stage2_values evidence_floor assess blended_support relevant evidence_strength
    objective_value_lookup assessed
values = (_, refl)

constraint_aware-IsWithin_example :
    IsWithin
      (undominated
        (evidence_floor constraint_settings assessed.0 gated.rankable)
        values.0
        (31 ∷ [])
        (record { up = 1; down = 0 }))
      evaluated.0
unfolding feasibility_gate read_constraint is_blank
constraint_aware-IsWithin_example =
    constraint_aware-IsWithin 7 hash_of context evaluated.0 constraint_settings gated assessed.0
      values.0 evaluated.1 refl refl assessed.1 values.1

abbrev three : List EvidenceCitationInput
three = citation 1 "press" ∷ citation 2 "lab" ∷ citation 3 "press" ∷ citation 4 "press" ∷ []
  where
    citation : ℕ → String → EvidenceCitationInput
    citation n p = record {
      evidence_id = n;
      verification = "CROSS_CHECKED";
      trust_level = "PRIMARY";
      polarity = "SUPPORT";
      publisher = p;
    }

cited-capped_by_publisher_example :
    cited "press" (capped_by_publisher three 2) ≡ min 2 (cited "press" three)
cited-capped_by_publisher_example = cited-capped_by_publisher "press" 2 three
