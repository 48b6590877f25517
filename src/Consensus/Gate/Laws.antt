-- ===== src/Consensus/Gate/Laws.antt =====
-- What the feasibility gate of backend/app/domain/consensus.py lets through.
use agora_opencode.Prelude.{
  refl, lookup-dict_of, all-mem, Option-cases, is_nil-filter, any, all, ◌≡◌, ◌⊎◌, inl, inr, Bool,
  true, false, not, none, some, List, [], ◌∷◌, arith, ok, >>=-eq-ok, filter, Mem, if◌then◌else◌,
}
use agora_opencode.Consensus.Types.{
  sat, evidence_matches_status, AlternativeInput, FeasibilityVerdict, FeasibilityStatus, unsat,
  unknown,
}
use agora_opencode.Consensus.Gate.{
  gate_of, defer, block, proceed, place, FeasibilityGateResult, feasibility_gate, Sorting,
  verdict_of, sort_alternative, sort_alternatives,
}

abbrev pub is_unsat : FeasibilityStatus → Bool
is_unsat unsat = true
is_unsat _ = false

-- The alternative's verdict is `UNSAT`.
abbrev pub is_blocked : List FeasibilityVerdict → AlternativeInput → Bool
is_blocked vs a = elim (verdict_of vs a.alternative_id) [
  | none ↦ false
  | some v ↦ is_unsat v.status
]

module _ (vs : List FeasibilityVerdict) where
  round-rankable :
      (a : AlternativeInput) (s t : Sorting)
      → sort_alternative a (verdict_of vs a.alternative_id) s ≡ ok t
      → t.rankable ≡ (if not (is_blocked vs a) then a ∷ s.rankable else s.rankable)
  unfolding sort_alternative
  round-rankable a s t e = ground arith

  sorted-rankable :
      (as' : List AlternativeInput) (s : Sorting)
      → sort_alternatives vs as' ≡ ok s
      → s.rankable ≡ filter (λ a. not (is_blocked vs a)) as'
  unfolding sort_alternatives
  sorted-rankable [] s e = ground arith
  sorted-rankable (a ∷ as') s e =
      let (t, et, es) = >>=-eq-ok (sort_alternatives vs as') _ e in
      ground (arith, round-rankable a t s es, sorted-rankable as' t et)

  round-unknown :
      (a : AlternativeInput) (s t : Sorting) (v : FeasibilityVerdict)
      → sort_alternative a (verdict_of vs a.alternative_id) s ≡ ok t
      → (verdict_of vs a.alternative_id ≡ some v) × (v.status ≡ unknown) ⊎ Mem v s.unknown
      → Mem v t.unknown
  unfolding sort_alternative
  round-unknown a s t v e m = ground arith

  sorted-unknown :
      (as' : List AlternativeInput) (s : Sorting) (a : AlternativeInput) (v : FeasibilityVerdict)
      → sort_alternatives vs as' ≡ ok s
      → Mem a as'
      → verdict_of vs a.alternative_id ≡ some v
      → v.status ≡ unknown
      → Mem v s.unknown
  unfolding sort_alternatives
  sorted-unknown [] s a v e m ev st = elim m [ ]
  sorted-unknown (x ∷ xs) s a v e m ev st =
      let (t, et, es) = >>=-eq-ok (sort_alternatives vs xs) _ e in
      elim m [
        | inl p ↦ round-unknown x t s v es (inl (rw p at ev, st))
        | inr n ↦ round-unknown x t s v es (inr (sorted-unknown xs t a v et n ev st))
      ]

  round-infeasible :
      (a : AlternativeInput) (s t : Sorting) (v : FeasibilityVerdict)
      → sort_alternative a (verdict_of vs a.alternative_id) s ≡ ok t
      → (verdict_of vs a.alternative_id ≡ some v) × (v.status ≡ unsat) ⊎ Mem v s.infeasible
      → Mem v t.infeasible
  unfolding sort_alternative
  round-infeasible a s t v e m = ground arith

  sorted-infeasible :
      (as' : List AlternativeInput) (s : Sorting) (a : AlternativeInput) (v : FeasibilityVerdict)
      → sort_alternatives vs as' ≡ ok s
      → Mem a as'
      → verdict_of vs a.alternative_id ≡ some v
      → v.status ≡ unsat
      → Mem v s.infeasible
  unfolding sort_alternatives
  sorted-infeasible [] s a v e m ev st = elim m [ ]
  sorted-infeasible (x ∷ xs) s a v e m ev st =
      let (t, et, es) = >>=-eq-ok (sort_alternatives vs xs) _ e in
      elim m [
        | inl p ↦ round-infeasible x t s v es (inl (rw p at ev, st))
        | inr n ↦ round-infeasible x t s v es (inr (sorted-infeasible xs t a v et n ev st))
      ]

  all-not-any :
      (as' : List AlternativeInput)
      → not (any (λ a. not (is_blocked vs a)) as') ≡ all (is_blocked vs) as'
  all-not-any [] = refl
  all-not-any (a ∷ as') = ground (arith, all-not-any as')

  -- A verdict that passed its validator is decided.
  round_total :
      (a : AlternativeInput) (s : Sorting)
      → all evidence_matches_status vs ≡ true
      → (t : Sorting) × (sort_alternative a (verdict_of vs a.alternative_id) s ≡ ok t)
  unfolding sort_alternative evidence_matches_status
  round_total a s h = elim (Option-cases (verdict_of vs a.alternative_id)) [
    | inl e ↦ (record s { rankable = a ∷ s.rankable }, rw e refl)
    | inr (v, e) ↦ rw e (
        decided v (
          all-mem evidence_matches_status v vs h
            (lookup-dict_of (λ (x : FeasibilityVerdict). x.alternative_id) a.alternative_id vs v
              e).1))
  ]
    where
      by_status :
          (st : FeasibilityStatus) (v : FeasibilityVerdict)
          → v.status ≡ st
          → evidence_matches_status v ≡ true
          → (t : Sorting) × (sort_alternative a (some v) s ≡ ok t)
      by_status sat v e ok' = (place a v proceed s, ground arith)
      by_status unsat v e ok' = (place a v block s, ground arith)
      by_status unknown v e ok' = (place a v defer s, ground arith)

      decided :
          (v : FeasibilityVerdict)
          → evidence_matches_status v ≡ true
          → (t : Sorting) × (sort_alternative a (some v) s ≡ ok t)
      decided v ok' = by_status v.status v refl ok'

  sort_total :
      (as' : List AlternativeInput)
      → all evidence_matches_status vs ≡ true
      → (s : Sorting) × (sort_alternatives vs as' ≡ ok s)
  unfolding sort_alternatives
  sort_total [] h = (record { rankable = []; infeasible = []; unknown = [] }, refl)
  sort_total (a ∷ as') h =
      let (s, es) = sort_total as' h in let (t, et) = round_total a s h in (t, rw es et)

-- Where the gate raises nothing, the rankable alternatives are those whose verdict is not UNSAT,
-- in their order, and all are infeasible exactly when each verdict is UNSAT.
pub feasibility_gate-rankable :
    (alts : List AlternativeInput) (vs : List FeasibilityVerdict) (g : FeasibilityGateResult)
    → feasibility_gate alts vs ≡ ok g
    → (g.rankable ≡ filter (λ a. not (is_blocked vs a)) alts)
      × (g.all_infeasible ≡ all (is_blocked vs) alts)
unfolding feasibility_gate
feasibility_gate-rankable alts vs g e =
    let (s, es, eg) = >>=-eq-ok (sort_alternatives vs alts) _ e in
    ground (
      arith,
      sorted-rankable vs alts s es,
      is_nil-filter (λ a. not (is_blocked vs a)) alts,
      all-not-any vs alts,
    )

pub recorded :
    (alts : List AlternativeInput) (vs : List FeasibilityVerdict) (g : FeasibilityGateResult)
    (a : AlternativeInput) (v : FeasibilityVerdict)
    → feasibility_gate alts vs ≡ ok g
    → Mem a alts
    → verdict_of vs a.alternative_id ≡ some v
    → (v.status ≡ unknown → Mem v g.unknown) × (v.status ≡ unsat → Mem v g.infeasible)
unfolding feasibility_gate
recorded alts vs g a v e m ev =
    let (s, es, eg) = >>=-eq-ok (sort_alternatives vs alts) _ e in
    (
      λ st. ground (arith, sorted-unknown vs alts s a v es m ev st),
      λ st. ground (arith, sorted-infeasible vs alts s a v es m ev st),
    )

by_status :
    (st : FeasibilityStatus) (A B : Type 0)
    → (st ≡ unknown → A)
    → (st ≡ unsat → B)
    → (st ≡ sat) ⊎ (st ≡ unknown) × A ⊎ (st ≡ unsat) × B
by_status sat A B f g = inl refl
by_status unknown A B f g = inr (inl (refl, f refl))
by_status unsat A B f g = inr (inr (refl, g refl))

-- Where the gate raises nothing, the verdict of an alternative given is SAT, or UNKNOWN and
-- recorded as unknown, or UNSAT and recorded as infeasible.
pub feasibility_gate-records :
    (alts : List AlternativeInput) (vs : List FeasibilityVerdict) (g : FeasibilityGateResult)
    (a : AlternativeInput) (v : FeasibilityVerdict)
    → feasibility_gate alts vs ≡ ok g
    → Mem a alts
    → verdict_of vs a.alternative_id ≡ some v
    → (v.status ≡ sat)
      ⊎ (v.status ≡ unknown) × Mem v g.unknown
      ⊎ (v.status ≡ unsat) × Mem v g.infeasible
feasibility_gate-records alts vs g a v e m ev =
    let (f, h) = recorded alts vs g a v e m ev in by_status v.status _ _ f h

-- On verdicts that passed their validator the gate raises nothing.
pub feasibility_gate_total :
    (alts : List AlternativeInput) (vs : List FeasibilityVerdict)
    → all evidence_matches_status vs ≡ true
    → (g : FeasibilityGateResult) × (feasibility_gate alts vs ≡ ok g)
unfolding feasibility_gate
feasibility_gate_total alts vs h = let (s, es) = sort_total vs alts h in (gate_of s, rw es refl)
