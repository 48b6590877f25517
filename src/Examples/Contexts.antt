-- ===== src/Examples/Contexts.antt =====
-- A context with a feasible, a refuted and an undecided alternative.
use agora_opencode.Prelude.{String, List, some, none, [], ◌∷◌}
use agora_opencode.Decimal.Fixed.{Fixed}
use agora_opencode.Consensus.Types.{
  AlternativeInput, AgentPosition, FeasibilityVerdict, ConsensusContext, sat, unsat, unknown,
}

abbrev pub alternatives : List AlternativeInput
alternatives =
    record { alternative_id = 1; name = "keep" }
    ∷ record { alternative_id = 2; name = "replace" }
    ∷ record { alternative_id = 3; name = "extend" }
    ∷ []

abbrev pub kept_verdict : FeasibilityVerdict
kept_verdict = record {
  alternative_id = 1;
  status = sat;
  unsat_core = [];
  witness = none;
  reason_unknown = none;
}

abbrev pub refuted_verdict : FeasibilityVerdict
refuted_verdict = record {
  alternative_id = 2;
  status = unsat;
  unsat_core = "budget" ∷ [];
  witness = none;
  reason_unknown = none;
}

abbrev pub open_verdict : FeasibilityVerdict
open_verdict = record {
  alternative_id = 3;
  status = unknown;
  unsat_core = [];
  witness = none;
  reason_unknown = some "timeout";
}

abbrev pub verdicts : List FeasibilityVerdict
verdicts = kept_verdict ∷ refuted_verdict ∷ open_verdict ∷ []

abbrev pub positions : List (AgentPosition Fixed)
positions =
    record {
      agent_id = 11;
      alternative_id = 1;
      stance = "SUPPORT";
      confidence = record { up = 90; down = 0 };
      evidence_ids = 21 ∷ [];
    }
    ∷ record {
      agent_id = 12;
      alternative_id = 3;
      stance = "OPPOSE";
      confidence = record { up = 50; down = 0 };
      evidence_ids = [];
    }
    ∷ []

abbrev pub context : ConsensusContext Fixed
context = record {
  session_id = 100;
  round = 1;
  alternatives = alternatives;
  agent_positions = positions;
  evidence =
      record {
        evidence_id = 21;
        verification = "CROSS_CHECKED";
        trust_level = "PRIMARY";
        polarity = "SUPPORT";
        publisher = "press";
      }
      ∷ [];
  critiques = [];
  objectives =
      record { objective_id = 31; weight = record { up = 100; down = 0 }; conflicts_with = [] }
      ∷ [];
  feasibility = verdicts;
  strategy_config = record {
    strategy_name = "weighted";
    strategy_version = "1.0.0";
    parameters = [];
  };
  objective_values = (31, (1, "1") ∷ (3, "0.5") ∷ []) ∷ [];
}

abbrev pub hash_of : ConsensusContext Fixed → String
hash_of c = "sha256"
