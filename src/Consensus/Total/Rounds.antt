-- ===== src/Consensus/Total/Rounds.antt =====
-- What the validators ask of what a round of the loop makes, for a context that passed its own.
use agora_opencode.Prelude.{
  ◌≡◌, refl, [], ◌∷◌, List, String, true, false, ok, inl, inr, Bool-cases, arith, Bool, not, all,
  map, filter, Mem, ℕ, str_eq, lookup_text, none, some, all-mem, mem-filter, >>=-eq-ok,
  ok-injective, subst,
}
use agora_opencode.Decimal.{Decimal, zero_dec}
use agora_opencode.Decimal.Laws.{clamp_unit}
use agora_opencode.Consensus.Types.{
  Uuid, AgentPosition, AlternativeInput, ConsensusContext, DissentEntry, MinorityEntry,
  FeasibilityVerdict, CritiqueInput,
}
use agora_opencode.Consensus.Params.{Settings, position_weights}
use agora_opencode.Consensus.Checks.{in_unit, position_is_valid, contribution_is_valid}
use agora_opencode.Consensus.Support.{
  position_score, contributions, build_dissent, build_minority, is_about, compute_support,
  weighted_objective_value,
}
use agora_opencode.Consensus.Outcome.{Weighed}
use agora_opencode.Consensus.Weighted.{weigh}
use agora_opencode.Consensus.Total.Values.{IsReadable, support_total, value_total}

pub all-true {ℓ} :
    {A : Type ℓ} (p : A → Bool) (xs : List A) → ((x : A) → Mem x xs → p x ≡ true) → all p xs ≡ true
all-true p [] h = refl
all-true p (x ∷ xs) h = ground (arith, h x (inl refl), all-true p xs (λ y m. h y (inr m)))

pub all-filter {ℓ} :
    {A : Type ℓ} (p kept : A → Bool) (xs : List A) → all p xs ≡ true → all p (filter kept xs) ≡ true
all-filter p kept xs h =
    all-true p (filter kept xs) (λ x m. all-mem p x xs h (mem-filter kept x xs m).0)

all-map-filter {ℓ κ} :
    {A : Type ℓ} {B : Type κ} (f : A → B) (kept : A → Bool) (p : B → Bool) (xs : List A)
    → ((x : A) → Mem x xs → p (f x) ≡ true)
    → all p (map f (filter kept xs)) ≡ true
all-map-filter f kept p [] h = refl
all-map-filter f kept p (x ∷ xs) h =
    let rest = all-map-filter f kept p xs (λ y m. h y (inr m)) in
    elim (Bool-cases (kept x)) [
      | inl e ↦ rw e (ground (arith, h x (inl refl), rest))
      | inr e ↦ rw e rest
    ]

lit_nonneg : (D : Type 0) → ⦃d : Decimal D⦄ → (n k : ℕ) → d.below (d.lit n k) zero_dec ≡ false
lit_nonneg D ⦃d⦄ n k =
    d.below_between (d.lit n k) (d.lit 0 k) zero_dec (d.lit_mono 0 n k (omega arith))
      (d.zero_exponent k)

-- The default weight of any stance is not negative.
weight_nonneg :
    (D : Type 0)
    → ⦃d : Decimal D⦄ → (stance : String)
    → d.below
        (elim (lookup_text stance position_weights) [ none ↦ d.lit 5 1 | some x ↦ x ])
        zero_dec
      ≡ false
weight_nonneg D ⦃d⦄ stance = ground (
  arith,
  lit_nonneg D 1 0,
  lit_nonneg D 75 2,
  lit_nonneg D 25 2,
  lit_nonneg D 0 0,
  lit_nonneg D 5 1,
)

module _ {D : Type 0} ⦃d : Decimal D⦄ where
  position_score_nonneg :
      (p : AgentPosition D) (use_confidence : Bool)
      → position_is_valid p ≡ true
      → d.below (position_score p.stance p.confidence use_confidence position_weights) zero_dec
        ≡ false
  unfolding position_score position_is_valid
  position_score_nonneg p false v = weight_nonneg D p.stance
  position_score_nonneg p true v =
      d.times_nonneg _ p.confidence (weight_nonneg D p.stance) (ground (arith, v))

  module _ (ps : List (AgentPosition D)) (v : all position_is_valid ps ≡ true) where
    pub contributions_valid :
        (kept : AgentPosition D → Bool) (use_confidence : Bool)
        → all contribution_is_valid (contributions (filter kept ps) use_confidence) ≡ true
    unfolding contributions contribution_is_valid position_is_valid
    contributions_valid kept use_confidence = all-map-filter _ kept contribution_is_valid ps (λ p m.
        let valid = all-mem position_is_valid p ps v m in
        ground (arith, valid, position_score_nonneg p use_confidence valid))

    pub dissent_valid :
        (alt : Uuid)
        → all (λ (x : DissentEntry). not (str_eq x.stance "")) (build_dissent alt ps) ≡ true
    unfolding build_dissent position_is_valid
    dissent_valid alt =
        all-map-filter _ _ _ ps (λ p m. ground (arith, all-mem position_is_valid p ps v m))

    pub minority_valid :
        (alt : Uuid) (cs : List CritiqueInput)
        → all (λ (x : MinorityEntry). not (str_eq x.position "")) (build_minority alt ps cs) ≡ true
    unfolding build_minority position_is_valid
    minority_valid alt cs =
        all-map-filter _ _ _ ps (λ p m. ground (arith, all-mem position_is_valid p ps v m))

  -- A round whose parts pass their validators.
  pub record IsValidRound (w : Weighed D) : Type 0 where
    pub has_name : not (str_eq w.score.alternative_name "") ≡ true
    pub bounded : in_unit w.score.support ≡ true
    pub contributed : all contribution_is_valid w.contributions ≡ true
    pub dissenting : all (λ (x : DissentEntry). not (str_eq x.stance "")) w.dissent ≡ true
    pub outvoted : all (λ (x : MinorityEntry). not (str_eq x.position "")) w.minority ≡ true

  pub weigh-IsValidRound :
      (s : Settings D) (alpha : D) (c : ConsensusContext D) (vs : List FeasibilityVerdict)
      (x : AlternativeInput) (w : Weighed D)
      → all position_is_valid c.agent_positions ≡ true
      → not (str_eq x.name "") ≡ true
      → weigh s alpha c vs x ≡ ok w
      → IsValidRound w
  unfolding weigh
  weigh-IsValidRound s alpha c vs x w v named e =
      let (support, es, e₁) =
        >>=-eq-ok
          (compute_support x.alternative_id c.agent_positions s.use_confidence s.abstain_policy
            s.weights)
          _ e in
      let (value, ev, ew) =
        >>=-eq-ok (weighted_objective_value x.alternative_id c.objectives c.objective_values) _
          e₁ in
      subst IsValidRound (ok-injective ew) (record {
        has_name = named;
        bounded = ground (arith, clamp_unit support.0);
        contributed =
            contributions_valid c.agent_positions v (is_about x.alternative_id) s.use_confidence;
        dissenting = dissent_valid c.agent_positions v x.alternative_id;
        outvoted = minority_valid c.agent_positions v x.alternative_id c.critiques;
      })

  pub weigh_total :
      (s : Settings D) (alpha : D) (c : ConsensusContext D) (vs : List FeasibilityVerdict)
      → IsReadable D c.objective_values
      → (x : AlternativeInput) → (w : Weighed D) × (weigh s alpha c vs x ≡ ok w)
  unfolding weigh
  weigh_total s alpha c vs h x =
      let (p, ep) =
        support_total x.alternative_id c.agent_positions s.use_confidence s.abstain_policy
          s.weights in
      let (o, k) = value_total c x.alternative_id h in rw (ep, k) (_, refl)
