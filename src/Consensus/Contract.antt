-- ===== src/Consensus/Contract.antt =====
-- What docs/CONSENSUS_MODEL.md asks of every strategy: no infeasible selection, the caps on the
-- outcome, and supports within the unit interval.
use agora_opencode.Prelude.{
  ap, ◌>>=◌, String, inr, ok-injective, inl, Bool-cases, >>=-eq-ok, ok, subst, filter, mem-filter,
  ==_iff, ◌||◌, ◌≡◌, ◌≢◌, ◌↔◌, refl, sym, ◌∙◌, true, false, not, none, some, List, [], ◌∷◌, arith,
  all, Mem, lookup-dict_of, any-mem, ◌==◌,
}
use agora_opencode.Decimal.{Decimal, zero_dec, one_dec}
use agora_opencode.Consensus.Types.{
  Uuid, ConsensusOutcome, full_consensus, conditional_consensus, infeasible, unknown,
  AlternativeInput, FeasibilityVerdict, AlternativeScore, ConsensusContext, ConsensusResult,
  result_invariants, is_selectable, is_none,
}
use agora_opencode.Consensus.Params.{Settings}
use agora_opencode.Consensus.Gate.{verdict_of, FeasibilityGateResult, feasibility_gate}
use agora_opencode.Consensus.Gate.Laws.{is_blocked, feasibility_gate-rankable, recorded}
use agora_opencode.Consensus.Support.{blocking_critiques}
use agora_opencode.Consensus.Outcome.{
  bare_result, is_unknown, classify, selection, conclude, concluded, stance_ratio,
}
use agora_opencode.Consensus.Checks.{result_is_valid, checked_result}

-- The identifier is that of an alternative of the context whose verdict is not `UNSAT`.
abbrev pub IsFeasible : {D : Type 0} → ConsensusContext D → Uuid → Type 0
IsFeasible c a =
    (x : AlternativeInput) × Mem x c.alternatives
    × (x.alternative_id ≡ a)
    × (is_blocked c.feasibility x ≡ false)

pub selection-eq : (o : ConsensusOutcome) (a b : Uuid) → selection o a ≡ some b → a ≡ b
selection-eq o a b h = ground arith

selection_selectable :
    (o : ConsensusOutcome) (a : Uuid) → (is_none (selection o a) || is_selectable o) ≡ true
selection_selectable o a = ground arith

module _ {D : Type 0} ⦃d : Decimal D⦄ where
  abbrev pub InUnit : D → Type 0
  InUnit x = (d.below x zero_dec ≡ false) × (d.below one_dec x ≡ false)

  -- A score of a feasible alternative, with its support between 0 and 1.
  abbrev pub IsSoundScore : ConsensusContext D → AlternativeScore D → Type 0
  IsSoundScore c s = IsFeasible c s.alternative_id × InUnit s.support

  pub record IsSound (c : ConsensusContext D) (r : ConsensusResult D) : Type 0 where
    pub scored : (s : AlternativeScore D) → Mem s r.scores → IsSoundScore c s
    pub selected : (a : Uuid) → r.selected_alternative_id ≡ some a → IsFeasible c a
    pub selectable : result_invariants r ≡ true
    pub capped : blocking_critiques c.critiques ≢ [] → r.outcome ≢ full_consensus
    pub unresolved :
        (a : Uuid) (v : FeasibilityVerdict)
        → r.selected_alternative_id ≡ some a
        → verdict_of c.feasibility a ≡ some v
        → v.status ≡ unknown
        → r.outcome ≡ conditional_consensus
    pub all_blocked :
        (r.outcome ≡ infeasible) ↔ (all (is_blocked c.feasibility) c.alternatives ≡ true)

  pub classify-capped :
      (s : Settings D) (c : ConsensusContext D) (vs : List FeasibilityVerdict)
      (blocking : List Uuid) (a : Uuid) (x : D)
      → (blocking ≢ [] → classify s c vs blocking a x ≢ full_consensus)
        × (classify s c vs blocking a x ≢ infeasible)
        × (is_unknown vs a ≡ true → classify s c vs blocking a x ≡ conditional_consensus)
  unfolding classify
  classify-capped s c vs [] a x = (λ h. absurd (h refl), ground arith, ground arith)
  classify-capped s c vs (b ∷ bs) a x = (ground arith, ground arith, ground arith)

  -- The identifier of an alternative that passed the gate is feasible.
  pub rankable-IsFeasible :
      (c : ConsensusContext D) (g : FeasibilityGateResult)
      → feasibility_gate c.alternatives c.feasibility ≡ ok g
      → (x : AlternativeInput) → Mem x g.rankable
      → IsFeasible c x.alternative_id
  rankable-IsFeasible c g e x m =
      let kept = λ (a : AlternativeInput). not (is_blocked c.feasibility a) in
      let listed : Mem x (filter kept c.alternatives) =
        subst (Mem x) (feasibility_gate-rankable c.alternatives c.feasibility g e).0 m in
      let (inside, free) = mem-filter kept x c.alternatives listed in
      (x, inside, refl, ground arith)

  -- A feasible alternative whose verdict is `UNKNOWN` is in the gate's census.
  unknown-census :
      (c : ConsensusContext D) (g : FeasibilityGateResult) (a : Uuid) (v : FeasibilityVerdict)
      → feasibility_gate c.alternatives c.feasibility ≡ ok g
      → IsFeasible c a
      → verdict_of c.feasibility a ≡ some v
      → v.status ≡ unknown
      → is_unknown g.unknown a ≡ true
  unknown-census c g a v e (x, m, same, free) ev st =
      let ev' : verdict_of c.feasibility x.alternative_id ≡ some v = rw same ev in
      let inside : Mem v g.unknown = (recorded c.alternatives c.feasibility g x v e m ev').0 st in
      let key : v.alternative_id ≡ a =
        (lookup-dict_of (λ (w : FeasibilityVerdict). w.alternative_id) a c.feasibility v ev).0 in
      any-mem (λ (w : FeasibilityVerdict). w.alternative_id == a) v g.unknown inside
        ((==_iff v.alternative_id a).1 key)

  -- A result that selects nothing.
  pub unselected-IsSound :
      (c : ConsensusContext D) (r : ConsensusResult D)
      → ((s : AlternativeScore D) → Mem s r.scores → IsSoundScore c s)
      → r.selected_alternative_id ≡ none
      → r.outcome ≢ full_consensus
      → (r.outcome ≡ infeasible) ↔ (all (is_blocked c.feasibility) c.alternatives ≡ true)
      → IsSound c r
  unfolding result_invariants
  unselected-IsSound c r scored nothing weak blocked = record {
    scored = scored;
    selected = λ a e. absurd (ground arith);
    selectable = rw nothing refl;
    capped = λ h. weak;
    unresolved = λ a v e. absurd (ground arith);
    all_blocked = blocked;
  }

  -- A result that takes the leader's outcome and selection from `classify`.
  pub concluded-IsSound :
      (s : Settings D) (c : ConsensusContext D) (g : FeasibilityGateResult)
      (leader : AlternativeScore D) (r : ConsensusResult D)
      → feasibility_gate c.alternatives c.feasibility ≡ ok g
      → g.all_infeasible ≡ false
      → ((s : AlternativeScore D) → Mem s r.scores → IsSoundScore c s)
      → Mem leader r.scores
      → r.outcome
        ≡ classify s c g.unknown
            (blocking_critiques c.critiques)
            leader.alternative_id
            leader.support
      → r.selected_alternative_id ≡ selection r.outcome leader.alternative_id
      → IsSound c r
  unfolding result_invariants
  concluded-IsSound s c g leader r e open' scored m eo es =
      let (weak, possible, conditional) =
        classify-capped s c g.unknown (blocking_critiques c.critiques) leader.alternative_id
          leader.support in
      let feasible = (scored leader m).0 in
      let same = λ (a : Uuid) (h : r.selected_alternative_id ≡ some a).
        selection-eq r.outcome leader.alternative_id a (sym es ∙ h) in
      record {
        scored = scored;
        selected = λ a h. subst (IsFeasible c) (same a h) feasible;
        selectable = rw es (selection_selectable r.outcome leader.alternative_id);
        capped = λ h k. weak h (sym eo ∙ k);
        unresolved = λ a v h ev st.
            eo
            ∙ conditional
                (unknown-census c g leader.alternative_id v e feasible (rw (same a h) ev) st);
        all_blocked = (
          λ k. absurd (possible (sym eo ∙ k)),
          λ k. absurd (ground (arith, feasibility_gate-rankable c.alternatives c.feasibility g e)),
        );
      }

  -- What the gate says of the whole context.
  pub gate-all_blocked :
      (c : ConsensusContext D) (g : FeasibilityGateResult)
      → feasibility_gate c.alternatives c.feasibility ≡ ok g
      → g.all_infeasible ≡ all (is_blocked c.feasibility) c.alternatives
  gate-all_blocked c g e = (feasibility_gate-rankable c.alternatives c.feasibility g e).1

  -- Past the gate some alternative is not blocked.
  pub never_blocked :
      (c : ConsensusContext D) (g : FeasibilityGateResult) (o : ConsensusOutcome)
      → feasibility_gate c.alternatives c.feasibility ≡ ok g
      → g.all_infeasible ≡ false
      → o ≢ infeasible
      → (o ≡ infeasible) ↔ (all (is_blocked c.feasibility) c.alternatives ≡ true)
  never_blocked c g o e open' h =
      (λ k. absurd (h k), λ k. absurd (ground (arith, gate-all_blocked c g e)))

  -- A result that passes its validators is returned unchanged.
  pub checked-eq : (x r : ConsensusResult D) → checked_result x ≡ ok r → x ≡ r
  unfolding checked_result
  checked-eq x r e = elim (Bool-cases (result_is_valid x)) [
    | inl valid ↦ ok-injective (rw valid at e)
    | inr refused ↦ absurd (ground (arith, rw refused at e))
  ]

  -- The last return of a strategy, whose reports keep the scores, the outcome and the selection.
  pub conclude-IsSound :
      (s : Settings D) (c : ConsensusContext D) (g : FeasibilityGateResult)
      (leader : AlternativeScore D) (scores : List (AlternativeScore D)) (id : Uuid)
      (hash name version : String) (report : ConsensusResult D → ConsensusResult D)
      (r : ConsensusResult D)
      → feasibility_gate c.alternatives c.feasibility ≡ ok g
      → g.all_infeasible ≡ false
      → ((x : AlternativeScore D) → Mem x scores → IsSoundScore c x)
      → Mem leader scores
      → ((x : ConsensusResult D)
          → ((report x).scores ≡ x.scores)
            × ((report x).outcome ≡ x.outcome)
            × ((report x).selected_alternative_id ≡ x.selected_alternative_id))
      → (conclude
            (bare_result id hash name version c (
              classify s c g.unknown
                (blocking_critiques c.critiques)
                leader.alternative_id
                leader.support))
            c
            scores
            leader
            (blocking_critiques c.critiques)
          >>= λ x. ok (report x))
        ≡ ok r
      → IsSound c r
  conclude-IsSound s c g leader scores id hash name version report r e open' sound m keeps h =
      let blocking = blocking_critiques c.critiques in
      let outcome = classify s c g.unknown blocking leader.alternative_id leader.support in
      let base = bare_result id hash name version c outcome in
      let (x, ex, h₁) = >>=-eq-ok (conclude base c scores leader blocking) _ h in
      let (dissent, ed, e₁) = >>=-eq-ok (stance_ratio "OPPOSE" c.agent_positions) _ ex in
      let (abstention, ea, e₂) = >>=-eq-ok (stance_ratio "ABSTAIN" c.agent_positions) _ e₁ in
      let last = concluded base scores leader blocking dissent abstention in
      let same : report last ≡ r = ap report (ok-injective e₂) ∙ ok-injective h₁ in
      let (ks, ko, kc) = keeps last in
      subst (IsSound c) same (
        concluded-IsSound s c g leader (report last) e open' (λ y n. sound y (subst (Mem y) ks n))
          (subst (Mem leader) (sym ks) m) ko
          (kc ∙ ap (λ o. selection o leader.alternative_id) (sym ko)))
