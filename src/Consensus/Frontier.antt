-- ===== src/Consensus/Frontier.antt =====
-- What `ConstraintAwareStrategy.evaluate` scores and selects: stages 2 and 3 decide.
use agora_opencode.Prelude.{
  traverse, ◌∙◌, ◌+◌, ℕ, ◌≡◌, refl, [], ◌∷◌, List, String, true, false, ok, some, inl, inr,
  Bool-cases, arith, Mem, map, ok-injective, subst, sym, ap, >>=-eq-ok, sort_desc, mem-sort_desc,
  get_or, mem-filter,
}
use agora_opencode.Decimal.{Decimal, zero_dec}
use agora_opencode.Consensus.Types.{
  Uuid, AlternativeInput, AlternativeScore, ConsensusContext, ConsensusResult, ObjectiveInput,
}
use agora_opencode.Consensus.Checks.{checked_result}
use agora_opencode.Consensus.Gate.{FeasibilityGateResult, feasibility_gate}
use agora_opencode.Consensus.Params.{ConstraintSettings, read_constraint}
use agora_opencode.Consensus.Dominance.{Values, undominated}
use agora_opencode.Consensus.Outcome.{conclude, concluded, classify, stance_ratio}
use agora_opencode.Consensus.Support.{blocking_critiques}
use agora_opencode.Consensus.Contract.{checked-eq, selection-eq}
use agora_opencode.Consensus.ConstraintAware.{
  named, explained, computed, Assessed, assess, evidence_floor, evaluate, stages, after_floor,
  decide_frontier, stage2_values, return_ranking, support_order, ordered_scores, frontier_scores,
  return_frontier, conflicts, table_of,
}

module _ {D : Type 0} ⦃d : Decimal D⦄ where
  -- A result scores and selects alternatives of a list only.
  pub record IsWithin (ids : List Uuid) (r : ConsensusResult D) : Type 0 where
    pub scored : (x : AlternativeScore D) → Mem x r.scores → Mem x.alternative_id ids
    pub selected : (a : Uuid) → r.selected_alternative_id ≡ some a → Mem a ids

  frontier_scores-mem :
      (alts : List AlternativeInput) (as' : List (Assessed D)) (i : ℕ) (ids : List Uuid)
      → (x : AlternativeScore D) → Mem x (frontier_scores alts as' i ids)
      → Mem x.alternative_id ids
  unfolding frontier_scores
  frontier_scores-mem alts as' i [] x m = elim m [ ]
  frontier_scores-mem alts as' i (a ∷ ids) x m = elim m [
    | inl e ↦ inl (ap (λ (y : AlternativeScore D). y.alternative_id) e)
    | inr n ↦ inr (frontier_scores-mem alts as' (i + 1) ids x n)
  ]

  ordered_scores-mem :
      (g : FeasibilityGateResult) (as' : List (Assessed D)) (i : ℕ) (ids : List Uuid)
      → (x : AlternativeScore D) → Mem x (ordered_scores g as' i ids)
      → Mem x.alternative_id ids
  unfolding ordered_scores
  ordered_scores-mem g as' i [] x m = elim m [ ]
  ordered_scores-mem g as' i (a ∷ ids) x m = elim m [
    | inl e ↦ inl (ap (λ (y : AlternativeScore D). y.alternative_id) e)
    | inr n ↦ inr (ordered_scores-mem g as' (i + 1) ids x n)
  ]

  module _ (id : Uuid) (hash : String) (s : ConstraintSettings D) (c : ConsensusContext D)
      (g : FeasibilityGateResult) (as' : List (Assessed D)) where
    ranking-IsWithin :
        (scores : List (AlternativeScore D)) (ids : List Uuid) (r : ConsensusResult D)
        → ((x : AlternativeScore D) → Mem x scores → Mem x.alternative_id ids)
        → return_ranking id hash s c g as' scores ≡ ok r
        → IsWithin ids r
    unfolding return_ranking
    ranking-IsWithin [] ids r inside h = absurd (ground arith)
    ranking-IsWithin (leader ∷ rest) ids r inside h =
        let outcome =
          classify s.evidence.base c g.unknown (blocking_critiques c.critiques)
            leader.alternative_id leader.support in
        let (x, ex, h₁) =
          >>=-eq-ok
            (conclude (named id hash c outcome) c (leader ∷ rest) leader
              (blocking_critiques c.critiques))
            _ h in
        let (dissent, ed, e₁) = >>=-eq-ok (stance_ratio "OPPOSE" c.agent_positions) _ ex in
        let (abstention, ea, e₂) = >>=-eq-ok (stance_ratio "ABSTAIN" c.agent_positions) _ e₁ in
        let last =
          concluded (named id hash c outcome) (leader ∷ rest) leader
            (blocking_critiques c.critiques) dissent abstention in
        let same : explained s (leader ∷ rest) as' last ≡ r =
          ap (explained s (leader ∷ rest) as') (ok-injective e₂) ∙ ok-injective h₁ in
        subst (IsWithin ids) same (record {
          scored = inside;
          selected = λ a e.
              subst (λ b. Mem b ids) (selection-eq outcome leader.alternative_id a e)
                (inside leader (inl refl));
        })

    decide-IsWithin :
        (table : List (Uuid × Values D)) (pareto : List Uuid) (r : ConsensusResult D)
        → decide_frontier id hash s c g as' table pareto ≡ ok r
        → IsWithin pareto r
    unfolding decide_frontier return_frontier support_order
    decide-IsWithin table pareto r h = elim (Bool-cases (conflicts table pareto c.objectives)) [
      | inl torn ↦ subst (IsWithin pareto) (ok-injective (rw torn at h)) (record {
        scored = frontier_scores-mem g.rankable as' 1 pareto;
        selected = λ a e. absurd (ground (arith, e));
      })
      | inr single ↦
          let key =
            λ (a : Uuid). get_or zero_dec a (table_of (λ (x : Assessed D). x.support_ev) as') in
          ranking-IsWithin (support_order g as' pareto) pareto r
            (λ x m.
              mem-sort_desc d.below key x.alternative_id pareto
                (ordered_scores-mem g as' 1 (sort_desc d.below key pareto) x m))
            (rw single at h)
    ]

    floor-IsWithin :
        (floor : List Uuid) (table : List (Uuid × Values D)) (r : ConsensusResult D)
        → stage2_values c floor ≡ ok table
        → after_floor id hash s c g as' floor ≡ ok r
        → IsWithin
            (undominated floor table
              (map (λ (o : ObjectiveInput D). o.objective_id) c.objectives)
              s.epsilon)
            r
    unfolding after_floor
    floor-IsWithin [] table r t h =
        subst (IsWithin _) (ok-injective h)
          (record { scored = λ x m. elim m [ ]; selected = λ a e. absurd (ground (arith, e)) })
    floor-IsWithin (a ∷ rest) table r t h =
        let keys = map (λ (o : ObjectiveInput D). o.objective_id) c.objectives in
        let (table', t', h') = >>=-eq-ok (stage2_values c (a ∷ rest)) _ h in
        let same : table' ≡ table = ok-injective (sym t' ∙ t) in
        decide-IsWithin table (undominated (a ∷ rest) table keys s.epsilon) r (rw same at h')

  computed-IsWithin :
      (id : Uuid) (input_hash : ConsensusContext D → String) (c : ConsensusContext D)
      (r : ConsensusResult D) (s : ConstraintSettings D) (g : FeasibilityGateResult)
      (as' : List (Assessed D)) (table : List (Uuid × Values D))
      → computed id input_hash c ≡ ok r
      → read_constraint c.strategy_config.parameters ≡ ok s
      → feasibility_gate c.alternatives c.feasibility ≡ ok g
      → traverse (assess s c) g.rankable ≡ ok as'
      → stage2_values c (evidence_floor s as' g.rankable) ≡ ok table
      → IsWithin
          (undominated
            (evidence_floor s as' g.rankable)
            table
            (map (λ (o : ObjectiveInput D). o.objective_id) c.objectives)
            s.epsilon)
          r
  unfolding computed stages
  computed-IsWithin id input_hash c r s g as' table e es eg et t =
      let e₃ = rw (es, eg) at e in
      elim (Bool-cases g.all_infeasible) [
        | inl shut ↦
            subst (IsWithin _) (ok-injective (rw shut at e₃))
              (record { scored = λ x m. elim m [ ]; selected = λ a k. absurd (ground (arith, k)) })
        | inr open' ↦
            floor-IsWithin id (input_hash c) s c g as' (evidence_floor s as' g.rankable) table r t
              (rw et at (rw open' at e₃))
      ]

  -- A result of ConstraintAwareStrategy.evaluate scores and selects only alternatives that are
  -- undominated, by the values read and within the margin, among those that passed the gate and
  -- the evidence floor.
  pub constraint_aware-IsWithin :
      (id : Uuid) (input_hash : ConsensusContext D → String) (c : ConsensusContext D)
      (r : ConsensusResult D) (s : ConstraintSettings D) (g : FeasibilityGateResult)
      (as' : List (Assessed D)) (table : List (Uuid × Values D))
      → evaluate id input_hash c ≡ ok r
      → read_constraint c.strategy_config.parameters ≡ ok s
      → feasibility_gate c.alternatives c.feasibility ≡ ok g
      → traverse (assess s c) g.rankable ≡ ok as'
      → stage2_values c (evidence_floor s as' g.rankable) ≡ ok table
      → IsWithin
          (undominated
            (evidence_floor s as' g.rankable)
            table
            (map (λ (o : ObjectiveInput D). o.objective_id) c.objectives)
            s.epsilon)
          r
  unfolding evaluate
  constraint_aware-IsWithin id input_hash c r s g as' table e es eg et t =
      let (x, ex, checked) = >>=-eq-ok (computed id input_hash c) checked_result e in
      subst (IsWithin _) (checked-eq x r checked)
        (computed-IsWithin id input_hash c x s g as' table ex es eg et t)

  -- Unless unevidenced alternatives are allowed, an alternative that passes the evidence floor
  -- has a positive evidence total.
  pub evidence_floor-evidenced :
      (s : ConstraintSettings D) (as' : List (Assessed D)) (alts : List AlternativeInput) (a : Uuid)
      → s.allow_unevidenced ≡ false
      → Mem a (evidence_floor s as' alts)
      → d.below zero_dec (get_or zero_dec a (table_of (λ (x : Assessed D). x.evidence_total) as'))
        ≡ true
  unfolding evidence_floor
  evidence_floor-evidenced s as' alts a strict m =
      (mem-filter
        (λ b.
          d.below zero_dec
            (get_or zero_dec b (table_of (λ (x : Assessed D). x.evidence_total) as')))
        a (map (λ (x : AlternativeInput). x.alternative_id) alts) (rw strict at m)).1
