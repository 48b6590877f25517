-- ===== src/Consensus/Dominance/Order.antt =====
-- The undominated set of stage 3: with a margin that is not negative, dominance is a strict order, so
-- the set is not empty and every alternative left out is dominated from within it.
use agora_opencode.Prelude.{
  ◌∙◌, ◌≡◌, refl, ◌⊎◌, inl, inr, Bool, true, false, not, some, List, [], ◌∷◌, arith, lookup, any,
  Mem, mem-filter, filter-mem, any-mem, mem-any, Bool-cases, Option-cases, if◌then◌else◌,
}
use agora_opencode.Decimal.{Decimal, zero_dec}
use agora_opencode.Decimal.Laws.{below_irrefl, below_trans}
use agora_opencode.Consensus.Types.{Uuid}
use agora_opencode.Consensus.Dominance.{
  Values, values_of, dominates_from, dominates, beats, undominated,
}

module _ {D : Type 0} ⦃d : Decimal D⦄ (epsilon : D) where
  -- The margin is not negative.
  abbrev IsMargin : Type 0
  IsMargin = d.below epsilon zero_dec ≡ false

  better_irrefl :
      IsMargin → (a : Values D) (ks : List Uuid) → dominates_from a a epsilon false ks ≡ false
  unfolding dominates_from
  better_irrefl m a [] = refl
  better_irrefl m a (k ∷ ks) = elim (Option-cases (lookup k a)) [
    | inl e ↦ rw (e, dominates_from) refl
    | inr (v, e) ↦ ground (arith, below_irrefl v, d.plus_grows v epsilon, better_irrefl m a ks)
  ]

  -- What one round of the loop has found where the answer is `True`.
  round_inv :
      (a b : Values D) (x : Bool) (k : Uuid) (ks : List Uuid)
      → dominates_from a b epsilon x (k ∷ ks) ≡ true
      → (av : D) × (bv : D) × (lookup k a ≡ some av)
        × (lookup k b ≡ some bv)
        × (d.below av bv ≡ false)
        × (dominates_from a b epsilon (if d.below (d.plus bv epsilon) av then true else x) ks
            ≡ true)
  unfolding dominates_from
  round_inv a b x k ks p = elim (Option-cases (lookup k a)) [
    | inl ea ↦ absurd (ground arith)
    | inr (av, ea) ↦ elim (Option-cases (lookup k b)) [
      | inl eb ↦ absurd (ground arith)
      | inr (bv, eb) ↦ (av, bv, ea, eb, ground arith, ground arith)
    ]
  ]

  round_of :
      (a b : Values D) (x : Bool) (k : Uuid) (ks : List Uuid) (av bv : D)
      → lookup k a ≡ some av
      → lookup k b ≡ some bv
      → d.below av bv ≡ false
      → dominates_from a b epsilon (if d.below (d.plus bv epsilon) av then true else x) ks ≡ true
      → dominates_from a b epsilon x (k ∷ ks) ≡ true
  unfolding dominates_from
  round_of a b x k ks av bv ea eb ge p = ground arith

  flag :
      (av bv cv : D) (x y z : Bool)
      → d.below av bv ≡ false
      → d.below bv cv ≡ false
      → ((x ≡ true) ⊎ (y ≡ true) → z ≡ true)
      → ((if d.below (d.plus bv epsilon) av then true else x) ≡ true)
        ⊎ ((if d.below (d.plus cv epsilon) bv then true else y) ≡ true)
      → (if d.below (d.plus cv epsilon) av then true else z) ≡ true
  flag av bv cv x y z ab bc w h = ground (
    arith,
    d.below_between (d.plus bv epsilon) (d.plus cv epsilon) av,
    d.plus_mono cv bv epsilon bc,
    below_trans (d.plus cv epsilon) bv av,
  )

  -- Dominance composes. The flags are what the loops have found so far.
  compose :
      (a b c : Values D) (ks : List Uuid) (x y z : Bool)
      → ((x ≡ true) ⊎ (y ≡ true) → z ≡ true)
      → dominates_from a b epsilon x ks ≡ true
      → dominates_from b c epsilon y ks ≡ true
      → dominates_from a c epsilon z ks ≡ true
  unfolding dominates_from
  compose a b c [] x y z w p q = w (inl p)
  compose a b c (k ∷ ks) x y z w p q =
      let (av, bv, ea, eb, ab, p') = round_inv a b x k ks p in
      let (bv', cv, eb', ec, bc, q') = round_inv b c y k ks q in
      let same : bv' ≡ bv = cc in
      let bc' : d.below bv cv ≡ false = rw same at bc in
      let q'' = rw same at q' in
      round_of a c z k ks av cv ea ec (d.below_between av bv cv ab bc')
        (compose a b c ks _ _ _ (flag av bv cv x y z ab bc' w) p' q'')

  -- With a margin that is not negative no vector of values dominates itself.
  pub dominates_irrefl :
      IsMargin → (a : Values D) (ks : List Uuid) → dominates a a ks epsilon ≡ false
  unfolding dominates
  dominates_irrefl m a ks = better_irrefl m a ks

  -- Dominance is transitive, whatever the margin.
  pub dominates_trans :
      (a b c : Values D) (ks : List Uuid)
      → dominates a b ks epsilon ≡ true
      → dominates b c ks epsilon ≡ true
      → dominates a c ks epsilon ≡ true
  unfolding dominates
  dominates_trans a b c ks p q =
      compose a b c ks false false false (elim [ inl e ↦ e | inr e ↦ e ]) p q

  module _ (margin : IsMargin) (table : List (Uuid × Values D)) (ks : List Uuid) where
    above : Uuid → Uuid → Bool
    above b a = dominates (values_of table b) (values_of table a) ks epsilon

    above_irrefl : (a : Uuid) → above a a ≡ false
    unfolding above
    above_irrefl a = dominates_irrefl margin (values_of table a) ks

    above_trans : (a b c : Uuid) → above a b ≡ true → above b c ≡ true → above a c ≡ true
    unfolding above
    above_trans a b c =
        dominates_trans (values_of table a) (values_of table b) (values_of table c) ks

    -- With such a margin the test `b != a` never decides.
    above-beats : (a b : Uuid) → beats table ks epsilon b a ≡ above b a
    unfolding above
    above-beats a b = ground (arith, above_irrefl a)

    -- The best candidate at or above `cur`, in one pass.
    climb : Uuid → List Uuid → Uuid
    climb cur [] = cur
    climb cur (y ∷ ys) = climb (if above y cur then y else cur) ys

    climb-above :
        (cur : Uuid) (ys : List Uuid) → (climb cur ys ≡ cur) ⊎ (above (climb cur ys) cur ≡ true)
    unfolding climb
    climb-above cur [] = inl refl
    climb-above cur (y ∷ ys) = elim (Bool-cases (above y cur)) [
      | inl e ↦ rw e (
          inr (elim (climb-above y ys) [
            | inl same ↦ rw same e
            | inr up ↦ above_trans (climb y ys) y cur up e
          ]))
      | inr e ↦ rw e (climb-above cur ys)
    ]

    climb-mem : (cur : Uuid) (ys : List Uuid) → Mem (climb cur ys) (cur ∷ ys)
    unfolding climb
    climb-mem cur [] = inl refl
    climb-mem cur (y ∷ ys) = ground (arith, climb-mem y ys, climb-mem cur ys)

    -- What is not above the start is not above the end.
    not_above :
        (y cur : Uuid) (ys : List Uuid) → above y cur ≡ false → above y (climb cur ys) ≡ false
    not_above y cur ys h = ground (arith, climb-above cur ys, above_trans y (climb cur ys) cur)

    climb_top : (cur y : Uuid) (ys : List Uuid) → Mem y ys → above y (climb cur ys) ≡ false
    unfolding climb
    climb_top cur y [] m = elim m [ ]
    climb_top cur y (z ∷ zs) (inl same) = rw same (elim (Bool-cases (above z cur)) [
      | inl up ↦ rw up (not_above z z zs (above_irrefl z))
      | inr down ↦ rw down (not_above z cur zs down)
    ])
    climb_top cur y (z ∷ zs) (inr m) = climb_top (if above z cur then z else cur) y zs m

    top_unbeaten :
        (a : Uuid) (alts : List Uuid)
        → any (λ b. beats table ks epsilon b (climb a alts)) alts ≡ false
    top_unbeaten a alts =
        elim (Bool-cases (any (λ b. beats table ks epsilon b (climb a alts)) alts)) [
          | inr none_beats ↦ none_beats
          | inl some_beats ↦
              let (b, m, e) =
                mem-any (λ b. beats table ks epsilon b (climb a alts)) alts some_beats in
              absurd (ground (arith, above-beats (climb a alts) b, climb_top a b alts m))
        ]

    -- With a margin that is not negative, every alternative given is undominated or is dominated
    -- by an undominated one.
    pub undominated_covers :
        (alts : List Uuid) (a : Uuid)
        → Mem a alts
        → (b : Uuid) × Mem b (undominated alts table ks epsilon)
          × ((b ≡ a) ⊎ (beats table ks epsilon b a ≡ true))
    unfolding undominated
    undominated_covers alts a m =
        let top = climb a alts in
        let inside : Mem top alts = elim (climb-mem a alts) [ inl e ↦ rw e m | inr n ↦ n ] in
        (
          top,
          filter-mem (λ x. not (any (λ b. beats table ks epsilon b x) alts)) top alts inside
              (rw (top_unbeaten a alts) refl),
          elim (climb-above a alts) [ inl e ↦ inl e | inr up ↦ inr (above-beats a top ∙ up) ],
        )

  -- What the undominated set holds is one of the alternatives given, and none of them dominates
  -- it.
  pub undominated_sound :
      (table : List (Uuid × Values D)) (ks alts : List Uuid) (a : Uuid)
      → Mem a (undominated alts table ks epsilon)
      → Mem a alts × ((b : Uuid) → Mem b alts → beats table ks epsilon b a ≡ false)
  unfolding undominated
  undominated_sound table ks alts a m =
      let (inside, kept) =
        mem-filter (λ x. not (any (λ b. beats table ks epsilon b x) alts)) a alts m in
      (
        inside,
        λ b n. elim (Bool-cases (beats table ks epsilon b a)) [
          | inr e ↦ e
          | inl e ↦ absurd (ground (arith, any-mem (λ b. beats table ks epsilon b a) b alts n e))
        ],
      )
