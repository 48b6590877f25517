-- ===== src/Consensus/Dominance.antt =====
-- Dominance between alternatives: stage 3 of the constraint-aware strategy in
-- backend/app/application/consensus.py.
pub mod Order
use agora_opencode.Prelude.{
  ℕ, Bool, true, false, ◌&&◌, not, Option, none, some, String, List, [], ◌∷◌, Result, ok, ◌>>=◌,
  or_raise, lookup, any, filter, ◌==◌, if◌then◌else◌,
}
use agora_opencode.Decimal.{Decimal}
use agora_opencode.Consensus.Types.{Uuid, ObjectiveInput, ConsensusFault, bad_objective_value}
use agora_opencode.Consensus.Support.{raw_value}

-- The values of one alternative by objective, the latest entry first.
abbrev pub Values : Type 0 → Type 0
Values D = List (Uuid × D)

-- `values_by_alt.get(a, {})`
abbrev pub values_of : {D : Type 0} → List (Uuid × Values D) → Uuid → Values D
values_of table a = elim (lookup a table) [ none ↦ [] | some vs ↦ vs ]

module _ {D : Type 0} ⦃d : Decimal D⦄ where
  -- The loop of `_objective_value_lookup`, with the entries so far.
  unfoldable pub lookup_from :
      Uuid
      → List (Uuid × List (Uuid × String))
      → Values D
      → List (ObjectiveInput D)
      → Result ConsensusFault (Values D)
  lookup_from alt values acc [] = ok acc
  lookup_from alt values acc (o ∷ os) = elim (raw_value values o.objective_id alt) [
    | none ↦ lookup_from alt values acc os
    | some raw ↦ or_raise (d.parse raw) bad_objective_value >>= λ v.
        lookup_from alt values ((o.objective_id, v) ∷ acc) os
  ]

  unfoldable pub objective_value_lookup :
      Uuid
      → List (ObjectiveInput D)
      → List (Uuid × List (Uuid × String))
      → Result ConsensusFault (Values D)
  unfolding lookup_from
  objective_value_lookup alt os values = lookup_from alt values [] os

  -- The loop of `_dominates` over `at_least_one_better`, with its two early returns.
  unfoldable pub dominates_from : Values D → Values D → D → Bool → List Uuid → Bool
  dominates_from a b epsilon better [] = better
  dominates_from a b epsilon better (k ∷ ks) = elim (lookup k a) [
    | none ↦ false
    | some av ↦ elim (lookup k b) [
      | none ↦ false
      | some bv ↦ elim (d.below av bv) [
        | true ↦ false
        | false ↦
            dominates_from a b epsilon (if d.below (d.plus bv epsilon) av then true else better) ks
      ]
    ]
  ]

  -- With no objective the loop ends at once and answers `False`, as the guard in front of it does.
  unfoldable pub dominates : Values D → Values D → List Uuid → D → Bool
  unfolding dominates_from
  dominates a b ks epsilon = dominates_from a b epsilon false ks

  -- `b != a and _dominates(values(b), values(a))`
  abbrev pub beats : List (Uuid × Values D) → List Uuid → D → Uuid → Uuid → Bool
  beats table ks epsilon b a =
      not (b == a) && dominates (values_of table b) (values_of table a) ks epsilon

  unfoldable pub undominated : List Uuid → List (Uuid × Values D) → List Uuid → D → List Uuid
  undominated alts table ks epsilon =
      filter (λ a. not (any (λ b. beats table ks epsilon b a) alts)) alts
