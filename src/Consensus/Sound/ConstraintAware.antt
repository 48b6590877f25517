-- ===== src/Consensus/Sound/ConstraintAware.antt =====
-- `ConstraintAwareStrategy` keeps the contract.
use agora_opencode.Prelude.{
  traverse, ℕ, ◌+◌, ◌≡◌, ◌≢◌, refl, sym, ◌∙◌, false, List, [], ◌∷◌, arith, Mem, map, mem-filter, ok,
  >>=-eq-ok, ok-injective, String, Bool-cases, subst, inl, inr, sort_desc, mem-sort_desc, get_or,
}
use agora_opencode.Decimal.{Decimal, zero_dec}
use agora_opencode.Decimal.Laws.{clamp_unit}
use agora_opencode.Consensus.Types.{
  Uuid, full_consensus, infeasible, insufficient_evidence, pareto_set, AlternativeInput,
  AlternativeScore, ConsensusContext, ConsensusResult, ObjectiveInput,
}
use agora_opencode.Consensus.Params.{ConstraintSettings, read_constraint}
use agora_opencode.Consensus.Checks.{checked_result}
use agora_opencode.Consensus.Gate.{FeasibilityGateResult, feasibility_gate}
use agora_opencode.Consensus.Outcome.{blocking_gate_outcome}
use agora_opencode.Consensus.Support.{blocking_critiques}
use agora_opencode.Consensus.Dominance.{Values, undominated}
use agora_opencode.Consensus.Dominance.Order.{undominated_sound}
use agora_opencode.Consensus.Contract.{
  checked-eq, conclude-IsSound, IsFeasible, IsSound, IsSoundScore, rankable-IsFeasible,
  unselected-IsSound, gate-all_blocked, never_blocked,
}
use agora_opencode.Consensus.Ranking.{mem-map}
use agora_opencode.Consensus.ConstraintAware.{
  explained, computed, Assessed, table_of, assess, evidence_floor, conflicts, frontier_scores,
  ordered_scores, support_order, return_frontier, return_ranking, stage2_values, decide_frontier,
  after_floor, stages, evaluate,
}

frontier_outcome :
    (blocking : List Uuid)
    → (blocking_gate_outcome blocking pareto_set ≢ full_consensus)
      × (blocking_gate_outcome blocking pareto_set ≢ infeasible)
unfolding blocking_gate_outcome
frontier_outcome [] = (λ k. cc, λ k. cc)
frontier_outcome (b ∷ bs) = (λ k. cc, λ k. cc)

module _ {D : Type 0} ⦃d : Decimal D⦄ where
  -- All the identifiers are feasible.
  abbrev AllFeasible : ConsensusContext D → List Uuid → Type 0
  AllFeasible c ids = (a : Uuid) → Mem a ids → IsFeasible c a

  floor_feasible :
      (s : ConstraintSettings D) (c : ConsensusContext D) (g : FeasibilityGateResult)
      (as' : List (Assessed D))
      → feasibility_gate c.alternatives c.feasibility ≡ ok g
      → AllFeasible c (evidence_floor s as' g.rankable)
  unfolding evidence_floor
  floor_feasible s c g as' e a m =
      let ids = map (λ (x : AlternativeInput). x.alternative_id) g.rankable in
      let inside : Mem a ids = elim (Bool-cases s.allow_unevidenced) [
        | inl free ↦ rw free at m
        | inr strict ↦
            (mem-filter
              (λ b. d.below zero_dec (get_or zero_dec b (table_of (λ x. x.evidence_total) as'))) a
              ids (rw strict at m)).0
      ] in
      let (x, mx, same) =
        mem-map (λ (x : AlternativeInput). x.alternative_id) a g.rankable inside in
      subst (IsFeasible c) same (rankable-IsFeasible c g e x mx)

  frontier-IsSoundScore :
      (c : ConsensusContext D) (alts : List AlternativeInput) (as' : List (Assessed D)) (i : ℕ)
      (ids : List Uuid)
      → AllFeasible c ids
      → (x : AlternativeScore D) → Mem x (frontier_scores alts as' i ids)
      → IsSoundScore c x
  unfolding frontier_scores
  frontier-IsSoundScore c alts as' i [] f x m = elim m [ ]
  frontier-IsSoundScore c alts as' i (a ∷ ids) f x m = elim m [
    | inl e ↦ subst (IsSoundScore c) (sym e) (
      f a (inl refl),
      clamp_unit (get_or zero_dec a (table_of (λ (y : Assessed D). y.support_ev) as')),
    )
    | inr n ↦ frontier-IsSoundScore c alts as' (i + 1) ids (λ b h. f b (inr h)) x n
  ]

  ordered-IsSoundScore :
      (c : ConsensusContext D) (g : FeasibilityGateResult) (as' : List (Assessed D)) (i : ℕ)
      (ids : List Uuid)
      → AllFeasible c ids
      → (x : AlternativeScore D) → Mem x (ordered_scores g as' i ids)
      → IsSoundScore c x
  unfolding ordered_scores
  ordered-IsSoundScore c g as' i [] f x m = elim m [ ]
  ordered-IsSoundScore c g as' i (a ∷ ids) f x m = elim m [
    | inl e ↦ subst (IsSoundScore c) (sym e) (
      f a (inl refl),
      clamp_unit (get_or zero_dec a (table_of (λ (y : Assessed D). y.support_ev) as')),
    )
    | inr n ↦ ordered-IsSoundScore c g as' (i + 1) ids (λ b h. f b (inr h)) x n
  ]

  module _ (id : Uuid) (hash : String) (s : ConstraintSettings D) (c : ConsensusContext D)
      (g : FeasibilityGateResult) (as' : List (Assessed D))
      (e : feasibility_gate c.alternatives c.feasibility ≡ ok g)
      (open' : g.all_infeasible ≡ false) where
    frontier-IsSound :
        (pareto : List Uuid)
        → AllFeasible c pareto
        → IsSound c (return_frontier id hash c g as' pareto)
    unfolding return_frontier
    frontier-IsSound pareto f =
        let (weak, possible) = frontier_outcome (blocking_critiques c.critiques) in
        unselected-IsSound c (return_frontier id hash c g as' pareto)
          (frontier-IsSoundScore c g.rankable as' 1 pareto f) refl weak
          (never_blocked c g _ e open' possible)

    ranking-IsSound :
        (scores : List (AlternativeScore D)) (r : ConsensusResult D)
        → ((x : AlternativeScore D) → Mem x scores → IsSoundScore c x)
        → return_ranking id hash s c g as' scores ≡ ok r
        → IsSound c r
    unfolding return_ranking
    ranking-IsSound [] r sound h = absurd (ground arith)
    ranking-IsSound (leader ∷ rest) r sound h =
        conclude-IsSound s.evidence.base c g leader (leader ∷ rest) id hash "constraint_aware"
          "1.0.0" (explained s (leader ∷ rest) as') r e open' sound (inl refl)
          (λ x. (refl, refl, refl)) h

    decide-IsSound :
        (table : List (Uuid × Values D)) (pareto : List Uuid) (r : ConsensusResult D)
        → AllFeasible c pareto
        → decide_frontier id hash s c g as' table pareto ≡ ok r
        → IsSound c r
    unfolding decide_frontier support_order
    decide-IsSound table pareto r f h = elim (Bool-cases (conflicts table pareto c.objectives)) [
      | inl torn ↦ subst (IsSound c) (ok-injective (rw torn at h)) (frontier-IsSound pareto f)
      | inr single ↦
          let key =
            λ (a : Uuid). get_or zero_dec a (table_of (λ (x : Assessed D). x.support_ev) as') in
          let sorted = sort_desc d.below key pareto in
          ranking-IsSound (support_order g as' pareto) r
            (ordered-IsSoundScore c g as' 1 sorted
              (λ a m. f a (mem-sort_desc d.below key a pareto m)))
            (rw single at h)
    ]

    after_floor-IsSound :
        (floor : List Uuid) (r : ConsensusResult D)
        → AllFeasible c floor
        → after_floor id hash s c g as' floor ≡ ok r
        → IsSound c r
    unfolding after_floor
    after_floor-IsSound [] r f h = subst (IsSound c) (ok-injective h) (
        unselected-IsSound c _ (λ x m. elim m [ ]) refl (λ k. cc)
          (never_blocked c g insufficient_evidence e open' (λ k. cc)))
    after_floor-IsSound (a ∷ rest) r f h =
        let (table, et, h') = >>=-eq-ok (stage2_values c (a ∷ rest)) _ h in
        let keys = map (λ (o : ObjectiveInput D). o.objective_id) c.objectives in
        decide-IsSound table (undominated (a ∷ rest) table keys s.epsilon) r
          (λ b m. f b (undominated_sound s.epsilon table keys (a ∷ rest) b m).0) h'

  computed-IsSound :
      (id : Uuid) (input_hash : ConsensusContext D → String) (c : ConsensusContext D)
      (r : ConsensusResult D)
      → computed id input_hash c ≡ ok r
      → IsSound c r
  unfolding computed stages
  computed-IsSound id input_hash c r e =
      let (s, es, e₁) = >>=-eq-ok (read_constraint c.strategy_config.parameters) _ e in
      let (g, eg, e₂) = >>=-eq-ok (feasibility_gate c.alternatives c.feasibility) _ e₁ in
      elim (Bool-cases g.all_infeasible) [
        | inl shut ↦ subst (IsSound c) (ok-injective (rw shut at e₂)) (
            unselected-IsSound c _ (λ x m. elim m [ ]) refl (λ k. cc)
              ((λ k. sym (gate-all_blocked c g eg) ∙ shut), (λ k. refl)))
        | inr open' ↦
            let (as', ea, e₃) = >>=-eq-ok (traverse (assess s c) g.rankable) _ (rw open' at e₂) in
            after_floor-IsSound id (input_hash c) s c g as' eg open'
              (evidence_floor s as' g.rankable) r (floor_feasible s c g as' eg) e₃
      ]

  -- A result of the constraint-aware strategy scores and selects only alternatives whose verdict
  -- is not UNSAT, with supports between 0 and 1; a selection comes with a selectable outcome, an
  -- unresolved blocking critique excludes full consensus, a selection whose verdict is UNKNOWN
  -- is conditional, and the outcome is INFEASIBLE exactly when every verdict is UNSAT.
  pub constraint_aware-IsSound :
      (id : Uuid) (input_hash : ConsensusContext D → String) (c : ConsensusContext D)
      (r : ConsensusResult D)
      → evaluate id input_hash c ≡ ok r
      → IsSound c r
  unfolding evaluate
  constraint_aware-IsSound id input_hash c r e =
      let (x, ex, checked) = >>=-eq-ok (computed id input_hash c) checked_result e in
      subst (IsSound c) (checked-eq x r checked) (computed-IsSound id input_hash c x ex)
