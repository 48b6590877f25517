-- ===== src/Consensus/Total/Values.antt =====
-- Divisions that raise nothing, and the values of the objectives.
use agora_opencode.Prelude.{
  ◌⊎◌, ◌≡◌, refl, [], ◌∷◌, List, String, true, false, ok, inl, inr, Option-cases, arith, Bool,
  Option, map, some, ℕ, suc, length, filter, length-filter-le, str_eq,
}
use agora_opencode.Decimal.{Decimal, sum_from, zero_dec, one_dec}
use agora_opencode.Decimal.Laws.{below_trans}
use agora_opencode.Consensus.Types.{
  Uuid, AgentPosition, AbstainPolicy, ConsensusContext, ObjectiveInput,
}
use agora_opencode.Consensus.Params.{Weights}
use agora_opencode.Consensus.Checks.{in_unit}
use agora_opencode.Consensus.Support.{
  is_zero, divide, compute_support, position_score, relevant, raw_value, add_values,
  weighted_objective_value,
}
use agora_opencode.Consensus.Outcome.{stance_ratio}

-- Every value of an alternative under an objective is the text of a decimal.
unfoldable pub IsReadable :
    (D : Type 0) → ⦃d : Decimal D⦄ → List (Uuid × List (Uuid × String)) → Type 0
IsReadable D ⦃d⦄ values =
    (objective alt : Uuid) (raw : String)
    → raw_value values objective alt ≡ some raw
    → (v : D) × (d.parse raw ≡ some v)

count_nonzero : (D : Type 0) → ⦃d : Decimal D⦄ → (n : ℕ) → is_zero (d.lit (suc n) 0) ≡ false
count_nonzero D ⦃d⦄ n = ground (
  arith,
  below_trans zero_dec one_dec (d.lit (suc n) 0) d.zero-below-one
      (d.lit_mono 1 (suc n) 0 (omega arith)),
)

pub List-cases {ℓ} :
    {A : Type ℓ} (xs : List A) → (xs ≡ []) ⊎ ((y : A) × (ys : List A) × (xs ≡ y ∷ ys))
List-cases [] = inl refl
List-cases (y ∷ ys) = inr (y, ys, refl)

module _ {D : Type 0} ⦃d : Decimal D⦄ where
  pub divide_count : (a : D) (n : ℕ) → divide a (d.lit (suc n) 0) ≡ ok (d.over a (d.lit (suc n) 0))
  unfolding divide
  divide_count a n = rw (count_nonzero D n) refl

  pub stance_ratio-in_unit :
      (stance : String) (ps : List (AgentPosition D))
      → (x : D) × (stance_ratio stance ps ≡ ok x) × (in_unit x ≡ true)
  unfolding stance_ratio
  stance_ratio-in_unit stance [] = (
    d.over zero_dec one_dec,
    divide_count zero_dec 0,
    ground (arith, d.ratio_nonneg 0 0, d.ratio-le-one 0 0 (omega arith)),
  )
  stance_ratio-in_unit stance (p ∷ ps) =
      let test = λ (q : AgentPosition D). str_eq q.stance stance in
      let m = length (filter test (p ∷ ps)) in
      let bound = length-filter-le test (p ∷ ps) in
      (
        _,
        divide_count (d.lit m 0) (length ps),
        ground (arith, d.ratio_nonneg m (length ps), d.ratio-le-one m (length ps) bound),
      )

  pub support_total :
      (alt : Uuid) (ps : List (AgentPosition D)) (use_confidence : Bool) (policy : AbstainPolicy)
      (weights : Weights D)
      → (p : D × ℕ) × (compute_support alt ps use_confidence policy weights ≡ ok p)
  unfolding compute_support
  support_total alt ps use_confidence policy weights = elim (List-cases (relevant alt policy ps)) [
    | inl e ↦ ((zero_dec, 0), rw (compute_support, e) refl)
    | inr (q, qs, e) ↦
        let scores =
          map (λ (p : AgentPosition D). position_score p.stance p.confidence use_confidence weights)
            (q ∷ qs) in
        let total = sum_from zero_dec scores in
        let n = suc (length qs) in
        (
          (d.over total (d.lit n 0), n),
          rw (compute_support, e, divide_count total (length qs)) refl,
        )
  ]

  add_total :
      (alt : Uuid) (values : List (Uuid × List (Uuid × String))) (total : D) (any_value : Bool)
      → (os : List (ObjectiveInput D)) → IsReadable D values
      → (p : D × Bool) × (add_values alt values total any_value os ≡ ok p)
  unfolding add_values IsReadable
  add_total alt values total any_value [] h = ((total, any_value), refl)
  add_total alt values total any_value (o ∷ os) h =
      elim (Option-cases (raw_value values o.objective_id alt)) [
        | inl e ↦
            let (p, k) = add_total alt values total any_value os h in (p, ground (arith, e, k))
        | inr (raw, e) ↦
            let (v, q) = h o.objective_id alt raw e in
            let (p, k) = add_total alt values (d.plus total (d.times o.weight v)) true os h in
            (p, ground (arith, e, q, k))
      ]

  pub value_total :
      (c : ConsensusContext D) (alt : Uuid)
      → IsReadable D c.objective_values
      → (o : Option D) × (weighted_objective_value alt c.objectives c.objective_values ≡ ok o)
  unfolding weighted_objective_value
  value_total c alt h =
      let (p, k) = add_total alt c.objective_values zero_dec false c.objectives h in rw k (_, refl)
