-- ===== src/Consensus/Sound/Weighted.antt =====
-- `WeightedStrategy` keeps the contract.
use agora_opencode.Prelude.{
  ap, ◌∙◌, ◌≡◌, refl, false, List, [], ◌∷◌, Mem, ok, >>=-eq-ok, ok-injective, traverse,
  mem-traverse, String, Bool-cases, subst, sym, inl, inr,
}
use agora_opencode.Decimal.{Decimal}
use agora_opencode.Decimal.Laws.{clamp_unit}
use agora_opencode.Consensus.Types.{
  no_consensus, Uuid, AlternativeInput, AlternativeScore, FeasibilityVerdict, ConsensusContext,
  ConsensusResult,
}
use agora_opencode.Consensus.Params.{Settings, read_settings, read_alpha}
use agora_opencode.Consensus.Checks.{checked_result}
use agora_opencode.Consensus.Gate.{FeasibilityGateResult, feasibility_gate}
use agora_opencode.Consensus.Outcome.{Weighed, rank_weighed}
use agora_opencode.Consensus.Contract.{
  conclude-IsSound, checked-eq, IsFeasible, IsSound, IsSoundScore, InUnit, rankable-IsFeasible,
  unselected-IsSound, gate-all_blocked, never_blocked,
}
use agora_opencode.Consensus.Ranking.{ranked-IsSoundScore}
use agora_opencode.Consensus.Support.{weighted_objective_value, compute_support}
use agora_opencode.Consensus.Weighted.{reported, computed, weigh, finish, evaluate}

module _ {D : Type 0} ⦃d : Decimal D⦄ where
  -- A round keeps the alternative's identifier and clamps the support.
  weigh_score :
      (s : Settings D) (alpha : D) (c : ConsensusContext D) (vs : List FeasibilityVerdict)
      (x : AlternativeInput) (w : Weighed D)
      → weigh s alpha c vs x ≡ ok w
      → (x.alternative_id ≡ w.score.alternative_id) × InUnit w.score.support
  unfolding weigh
  weigh_score s alpha c vs x w e =
      let (support, es, e₁) =
        >>=-eq-ok
          (compute_support x.alternative_id c.agent_positions s.use_confidence s.abstain_policy
            s.weights)
          _ e in
      let (v, ev, ew) =
        >>=-eq-ok (weighted_objective_value x.alternative_id c.objectives c.objective_values) _
          e₁ in
      let same = ok-injective ew in
      (
        ap (λ (u : Weighed D). u.score.alternative_id) same,
        subst (λ (u : Weighed D). InUnit u.score.support) same (clamp_unit support.0),
      )

  weighed-IsSoundScore :
      (s : Settings D) (alpha : D) (c : ConsensusContext D) (g : FeasibilityGateResult)
      (ws : List (Weighed D))
      → feasibility_gate c.alternatives c.feasibility ≡ ok g
      → traverse (weigh s alpha c g.unknown) g.rankable ≡ ok ws
      → (w : Weighed D) → Mem w ws
      → IsSoundScore c w.score
  weighed-IsSoundScore s alpha c g ws e et w m =
      let (x, mx, ex) = mem-traverse (weigh s alpha c g.unknown) g.rankable ws et w m in
      let (same, unit) = weigh_score s alpha c g.unknown x w ex in
      (subst (IsFeasible c) same (rankable-IsFeasible c g e x mx), unit)

  finish-IsSound :
      (id : Uuid) (hash : String) (s : Settings D) (c : ConsensusContext D)
      (g : FeasibilityGateResult) (ws : List (Weighed D)) (scores : List (AlternativeScore D))
      (r : ConsensusResult D)
      → feasibility_gate c.alternatives c.feasibility ≡ ok g
      → g.all_infeasible ≡ false
      → ((x : AlternativeScore D) → Mem x scores → IsSoundScore c x)
      → finish id hash s c g ws scores ≡ ok r
      → IsSound c r
  unfolding finish
  finish-IsSound id hash s c g ws [] r e open' sound h = subst (IsSound c) (ok-injective h) (
      unselected-IsSound c _ sound refl (λ k. cc)
        (never_blocked c g no_consensus e open' (λ k. cc)))
  finish-IsSound id hash s c g ws (leader ∷ rest) r e open' sound h =
      conclude-IsSound s c g leader (leader ∷ rest) id hash "weighted" "1.0.0" (reported ws) r e
        open' sound (inl refl) (λ x. (refl, refl, refl)) h

  pub computed-IsSound :
      (id : Uuid) (input_hash : ConsensusContext D → String) (c : ConsensusContext D)
      (r : ConsensusResult D)
      → computed id input_hash c ≡ ok r
      → IsSound c r
  unfolding computed
  computed-IsSound id input_hash c r e =
      let (s, es, e₁) = >>=-eq-ok (read_settings c.strategy_config.parameters) _ e in
      let (alpha, ea, e₂) = >>=-eq-ok (read_alpha c.strategy_config.parameters) _ e₁ in
      let (g, eg, e₃) = >>=-eq-ok (feasibility_gate c.alternatives c.feasibility) _ e₂ in
      elim (Bool-cases g.all_infeasible) [
        | inl shut ↦ subst (IsSound c) (ok-injective (rw shut at e₃)) (
            unselected-IsSound c _ (λ x m. elim m [ ]) refl (λ k. cc)
              ((λ k. sym (gate-all_blocked c g eg) ∙ shut), (λ k. refl)))
        | inr open' ↦
            let (ws, ew, e₄) =
              >>=-eq-ok (traverse (weigh s alpha c g.unknown) g.rankable) _ (rw open' at e₃) in
            finish-IsSound id (input_hash c) s c g ws (rank_weighed ws) r eg open'
              (ranked-IsSoundScore c ws (weighed-IsSoundScore s alpha c g ws eg ew)) e₄
      ]

  -- A result of the weighted strategy scores and selects only alternatives whose verdict is not
  -- UNSAT, with supports between 0 and 1; a selection comes with a selectable outcome, an
  -- unresolved blocking critique excludes full consensus, a selection whose verdict is UNKNOWN
  -- is conditional, and the outcome is INFEASIBLE exactly when every verdict is UNSAT.
  pub weighted-IsSound :
      (id : Uuid) (input_hash : ConsensusContext D → String) (c : ConsensusContext D)
      (r : ConsensusResult D)
      → evaluate id input_hash c ≡ ok r
      → IsSound c r
  unfolding evaluate
  weighted-IsSound id input_hash c r e =
      let (x, ex, checked) = >>=-eq-ok (computed id input_hash c) checked_result e in
      subst (IsSound c) (checked-eq x r checked) (computed-IsSound id input_hash c x ex)
