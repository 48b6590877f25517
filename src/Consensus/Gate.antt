-- ===== src/Consensus/Gate.antt =====
-- The shared feasibility gate of backend/app/domain/consensus.py, and the policy on symbolic
-- outcomes that it applies, backend/app/domain/symbolic_unknown_policy.py.
pub mod Laws
use agora_opencode.Prelude.{
  ℕ, Bool, true, false, Option, none, some, String, List, [], ◌∷◌, Result, ok, err, ◌>>=◌, raise_if,
  lookup, dict_of, is_nil, not, if◌then◌else◌,
}
use agora_opencode.Consensus.Types.{
  Uuid, AlternativeInput, FeasibilityVerdict, FeasibilityStatus, sat, unsat, unknown,
  ConsensusFault, missing_reason, has_reason,
}

pub data SymbolicAssuranceAction : Type 0 where
  proceed block defer : SymbolicAssuranceAction

-- `SymbolicUnknownPolicy.decide_status`, down to the action that it decides on.
unfoldable pub decide_status :
    FeasibilityStatus → Option String → Result ConsensusFault SymbolicAssuranceAction
decide_status sat reason = ok proceed
decide_status unsat reason = ok block
decide_status unknown reason = if has_reason reason then ok defer else err missing_reason

pub record FeasibilityGateResult : Type 0 where
  pub rankable : List AlternativeInput
  pub infeasible : List FeasibilityVerdict
  pub unknown : List FeasibilityVerdict
  pub all_infeasible : Bool
  pub has_unknown : Bool

-- The three lists that the loop fills.
pub record Sorting : Type 0 where
  pub rankable : List AlternativeInput
  pub infeasible : List FeasibilityVerdict
  pub unknown : List FeasibilityVerdict

-- One round of the loop, in front of what the later rounds add.
abbrev pub place :
    AlternativeInput → FeasibilityVerdict → SymbolicAssuranceAction → Sorting → Sorting
place a v proceed s = record s { rankable = a ∷ s.rankable }
place a v block s = record s { infeasible = v ∷ s.infeasible }
place a v defer s = record s { unknown = v ∷ s.unknown; rankable = a ∷ s.rankable }

abbrev pub verdict_of : List FeasibilityVerdict → Uuid → Option FeasibilityVerdict
verdict_of vs a = lookup a (dict_of (λ (v : FeasibilityVerdict). v.alternative_id) vs)

unfoldable pub sort_alternative :
    AlternativeInput → Option FeasibilityVerdict → Sorting → Result ConsensusFault Sorting
unfolding decide_status
sort_alternative a none s = ok (record s { rankable = a ∷ s.rankable })
sort_alternative a (some v) s = do
  action ← decide_status v.status v.reason_unknown
  ok (place a v action s)

unfoldable pub sort_alternatives :
    List FeasibilityVerdict → List AlternativeInput → Result ConsensusFault Sorting
unfolding sort_alternative
sort_alternatives vs [] = ok (record { rankable = []; infeasible = []; unknown = [] })
sort_alternatives vs (a ∷ as') = do
  rest ← sort_alternatives vs as'
  sort_alternative a (verdict_of vs a.alternative_id) rest

abbrev pub gate_of : Sorting → FeasibilityGateResult
gate_of s = record {
  rankable = s.rankable;
  infeasible = s.infeasible;
  unknown = s.unknown;
  all_infeasible = is_nil s.rankable;
  has_unknown = not (is_nil s.unknown);
}

unfoldable pub feasibility_gate :
    List AlternativeInput → List FeasibilityVerdict → Result ConsensusFault FeasibilityGateResult
unfolding sort_alternatives
feasibility_gate alternatives feasibility = do
  s ← sort_alternatives feasibility alternatives
  ok (gate_of s)
