-- ===== src/Consensus/Sound/EvidenceWeighted.antt =====
-- `EvidenceWeightedStrategy` keeps the contract.
use agora_opencode.Prelude.{
  ap, ◌∙◌, ◌≡◌, refl, Bool, true, false, List, [], ◌∷◌, Mem, ok, >>=-eq-ok, ok-injective, traverse,
  mem-traverse, String, Bool-cases, subst, sym, inl, inr,
}
use agora_opencode.Decimal.{Decimal}
use agora_opencode.Decimal.Laws.{clamp_unit}
use agora_opencode.Consensus.Types.{
  no_consensus, Uuid, insufficient_evidence, AlternativeInput, AlternativeScore, FeasibilityVerdict,
  ConsensusContext, ConsensusResult,
}
use agora_opencode.Consensus.Params.{Settings, EvidenceSettings, read_evidence, read_alpha}
use agora_opencode.Consensus.Checks.{checked_result}
use agora_opencode.Consensus.Gate.{FeasibilityGateResult, feasibility_gate}
use agora_opencode.Consensus.Outcome.{Weighed, rank_weighed}
use agora_opencode.Consensus.Contract.{
  IsFeasible, IsSound, IsSoundScore, InUnit, rankable-IsFeasible, unselected-IsSound,
  conclude-IsSound, checked-eq, gate-all_blocked, never_blocked,
}
use agora_opencode.Consensus.Ranking.{ranked-IsSoundScore}
use agora_opencode.Consensus.Support.{weighted_objective_value}
use agora_opencode.Consensus.Weighted.{reported}
use agora_opencode.Consensus.EvidenceWeighted.{
  computed, weigh, finish, evaluate, finish_leader, lacks_evidence, blended_support,
}

module _ {D : Type 0} ⦃d : Decimal D⦄ where
  -- A round keeps the alternative's identifier and clamps the support.
  weigh_score :
      (s : EvidenceSettings D) (alpha : D) (c : ConsensusContext D) (vs : List FeasibilityVerdict)
      (x : AlternativeInput) (w : Weighed D)
      → weigh s alpha c vs x ≡ ok w
      → (x.alternative_id ≡ w.score.alternative_id) × InUnit w.score.support
  unfolding weigh
  weigh_score s alpha c vs x w e =
      let (blended, eb, e₁) = >>=-eq-ok (blended_support s c x.alternative_id) _ e in
      let (v, ev, ew) =
        >>=-eq-ok (weighted_objective_value x.alternative_id c.objectives c.objective_values) _
          e₁ in
      let same = ok-injective ew in
      (
        ap (λ (u : Weighed D). u.score.alternative_id) same,
        subst (λ (u : Weighed D). InUnit u.score.support) same (clamp_unit blended.1),
      )

  weighed-IsSoundScore :
      (s : EvidenceSettings D) (alpha : D) (c : ConsensusContext D) (g : FeasibilityGateResult)
      (ws : List (Weighed D))
      → feasibility_gate c.alternatives c.feasibility ≡ ok g
      → traverse (weigh s alpha c g.unknown) g.rankable ≡ ok ws
      → (w : Weighed D) → Mem w ws
      → IsSoundScore c w.score
  weighed-IsSoundScore s alpha c g ws e et w m =
      let (x, mx, ex) = mem-traverse (weigh s alpha c g.unknown) g.rankable ws et w m in
      let (same, unit) = weigh_score s alpha c g.unknown x w ex in
      (subst (IsFeasible c) same (rankable-IsFeasible c g e x mx), unit)

  finish_leader-IsSound :
      (id : Uuid) (hash : String) (s : Settings D) (c : ConsensusContext D)
      (g : FeasibilityGateResult) (ws : List (Weighed D)) (leader : AlternativeScore D)
      (rest : List (AlternativeScore D)) (lacking : Bool) (r : ConsensusResult D)
      → feasibility_gate c.alternatives c.feasibility ≡ ok g
      → g.all_infeasible ≡ false
      → ((x : AlternativeScore D) → Mem x (leader ∷ rest) → IsSoundScore c x)
      → finish_leader id hash s c g ws leader (leader ∷ rest) lacking ≡ ok r
      → IsSound c r
  unfolding finish_leader
  finish_leader-IsSound id hash s c g ws leader rest true r e open' sound h =
      subst (IsSound c) (ok-injective h) (
        unselected-IsSound c _ sound refl (λ k. cc)
          (never_blocked c g insufficient_evidence e open' (λ k. cc)))
  finish_leader-IsSound id hash s c g ws leader rest false r e open' sound h =
      conclude-IsSound s c g leader (leader ∷ rest) id hash "evidence_weighted" "1.0.0"
        (λ x. reported ws x) r e open' sound (inl refl) (λ x. (refl, refl, refl)) h

  finish-IsSound :
      (id : Uuid) (hash : String) (s : Settings D) (c : ConsensusContext D)
      (g : FeasibilityGateResult) (ws : List (Weighed D)) (scores : List (AlternativeScore D))
      (r : ConsensusResult D)
      → feasibility_gate c.alternatives c.feasibility ≡ ok g
      → g.all_infeasible ≡ false
      → ((x : AlternativeScore D) → Mem x scores → IsSoundScore c x)
      → finish id hash s c g ws scores ≡ ok r
      → IsSound c r
  unfolding finish
  finish-IsSound id hash s c g ws [] r e open' sound h = subst (IsSound c) (ok-injective h) (
      unselected-IsSound c _ sound refl (λ k. cc)
        (never_blocked c g no_consensus e open' (λ k. cc)))
  finish-IsSound id hash s c g ws (leader ∷ rest) r e open' sound h =
      finish_leader-IsSound id hash s c g ws leader rest (lacks_evidence ws leader.alternative_id) r
        e open' sound h

  pub computed-IsSound :
      (id : Uuid) (input_hash : ConsensusContext D → String) (c : ConsensusContext D)
      (r : ConsensusResult D)
      → computed id input_hash c ≡ ok r
      → IsSound c r
  unfolding computed
  computed-IsSound id input_hash c r e =
      let (s, es, e₁) = >>=-eq-ok (read_evidence c.strategy_config.parameters) _ e in
      let (alpha, ea, e₂) = >>=-eq-ok (read_alpha c.strategy_config.parameters) _ e₁ in
      let (g, eg, e₃) = >>=-eq-ok (feasibility_gate c.alternatives c.feasibility) _ e₂ in
      elim (Bool-cases g.all_infeasible) [
        | inl shut ↦ subst (IsSound c) (ok-injective (rw shut at e₃)) (
            unselected-IsSound c _ (λ x m. elim m [ ]) refl (λ k. cc)
              ((λ k. sym (gate-all_blocked c g eg) ∙ shut), (λ k. refl)))
        | inr open' ↦
            let (ws, ew, e₄) =
              >>=-eq-ok (traverse (weigh s alpha c g.unknown) g.rankable) _ (rw open' at e₃) in
            finish-IsSound id (input_hash c) s.base c g ws (rank_weighed ws) r eg open'
              (ranked-IsSoundScore c ws (weighed-IsSoundScore s alpha c g ws eg ew)) e₄
      ]

  -- A result of the evidence-weighted strategy scores and selects only alternatives whose
  -- verdict is not UNSAT, with supports between 0 and 1; a selection comes with a selectable
  -- outcome, an unresolved blocking critique excludes full consensus, a selection whose verdict
  -- is UNKNOWN is conditional, and the outcome is INFEASIBLE exactly when every verdict is
  -- UNSAT.
  pub evidence_weighted-IsSound :
      (id : Uuid) (input_hash : ConsensusContext D → String) (c : ConsensusContext D)
      (r : ConsensusResult D)
      → evaluate id input_hash c ≡ ok r
      → IsSound c r
  unfolding evaluate
  evidence_weighted-IsSound id input_hash c r e =
      let (x, ex, checked) = >>=-eq-ok (computed id input_hash c) checked_result e in
      subst (IsSound c) (checked-eq x r checked) (computed-IsSound id input_hash c x ex)
