-- ===== src/Consensus/Checks.antt =====
-- The validators of backend/app/ports/consensus.py: of a context, and of a result and its parts. The
-- code builds the scores and the contributions before the result that holds them; here they are checked
-- with it, since all that is built is in the result and what one validator refuses ends the evaluation.
-- The input hash is what the context computes, of the form that the field's pattern asks for.
use agora_opencode.Prelude.{
  Bool, true, ◌&&◌, not, Option, none, some, all, ◌==◌, str_eq, Result, ok, err, if◌then◌else◌,
}
use agora_opencode.Decimal.{Decimal, zero_dec, one_dec}
use agora_opencode.Consensus.Types.{
  AgentPosition, AlternativeInput, ConsensusContext, DissentEntry, MinorityEntry, DerivationStep,
  AgentContribution, AlternativeScore, ConsensusFault, ConsensusResult, invalid_value,
  result_invariants,
}

module _ {D : Type 0} ⦃d : Decimal D⦄ where
  -- `ge=0, le=1`
  abbrev pub in_unit : D → Bool
  in_unit x = not (d.below x zero_dec) && not (d.below one_dec x)

  abbrev pub in_unit_or_none : Option D → Bool
  in_unit_or_none none = true
  in_unit_or_none (some x) = in_unit x

  unfoldable pub position_is_valid : AgentPosition D → Bool
  position_is_valid p = not (str_eq p.stance "") && in_unit p.confidence

  -- The validators of a context that its results depend on.
  unfoldable pub fields_are_valid : ConsensusContext D → Bool
  unfolding position_is_valid
  fields_are_valid c =
      not (c.round == 0)
      && all (λ (x : AlternativeInput). not (str_eq x.name "")) c.alternatives
      && all position_is_valid c.agent_positions

  unfoldable pub score_is_valid : AlternativeScore D → Bool
  score_is_valid s = not (str_eq s.alternative_name "") && not (s.rank == 0) && in_unit s.support

  unfoldable pub contribution_is_valid : AgentContribution D → Bool
  contribution_is_valid a =
      not (str_eq a.stance "") && not (d.below a.position_score zero_dec) && in_unit a.confidence

  unfoldable pub result_is_valid : ConsensusResult D → Bool
  unfolding score_is_valid contribution_is_valid
  result_is_valid r =
      all score_is_valid r.scores
      && all contribution_is_valid r.contributions
      && all (λ (x : DissentEntry). not (str_eq x.stance "")) r.dissent
      && all (λ (x : MinorityEntry). not (str_eq x.position "")) r.minority_report
      && all (λ (x : DerivationStep). not (x.step == 0) && not (str_eq x.stage "")) r.derivation
      && not (r.round == 0)
      && not (str_eq r.strategy "")
      && not (str_eq r.strategy_version "")
      && in_unit_or_none r.support
      && in_unit_or_none r.dissent_ratio
      && in_unit_or_none r.abstention_ratio
      && result_invariants r

  unfoldable pub checked_result : ConsensusResult D → Result ConsensusFault (ConsensusResult D)
  unfolding result_is_valid
  checked_result r = if result_is_valid r then ok r else err invalid_value
