-- ===== src/Consensus/Total/Blends.antt =====
-- The evidence of a position is not negative where the weights are not, so the divisions by it raise
-- nothing.
use agora_opencode.Prelude.{
  ◌≡◌, refl, [], ◌∷◌, List, String, true, false, ok, arith, Bool, not, all, str_eq, if◌then◌else◌,
  length, suc, Result, err, ◌>>=◌, subst, sym, ok-injective,
}
use agora_opencode.Decimal.{Decimal, zero_dec, one_dec}
use agora_opencode.Decimal.Laws.{below_trans}
use agora_opencode.Consensus.Types.{Uuid, AgentPosition, EvidenceCitationInput, ConsensusContext}
use agora_opencode.Consensus.Params.{Weights, EvidenceSettings}
use agora_opencode.Consensus.Support.{is_zero, divide, relevant, compute_support}
use agora_opencode.Consensus.Evidence.{
  weight_of, citation_weight, add_citations, evidence_strength, not_rejected, capped_by_publisher,
  evidence_for_position,
}
use agora_opencode.Consensus.EvidenceWeighted.{
  evidence_factor, add_terms, evidence_support, blended_support,
}
use agora_opencode.Consensus.Total.Values.{divide_count, support_total}

-- A chain returns where its first step and the rest do.
pub then_ok :
    {E A B : Type 0} (first : Result E A) (next : A → Result E B) {a : A}
    → first ≡ ok a
    → (b : B) × (next a ≡ ok b)
    → (b : B) × ((first >>= next) ≡ ok b)
then_ok (ok y) next e (b, k) = (b, subst (λ v. next v ≡ ok b) (sym (ok-injective e)) k)
then_ok (err x) next e r = absurd (ground (arith, e))

module _ {D : Type 0} ⦃d : Decimal D⦄ where
  abbrev pub IsNonneg : D → Type 0
  IsNonneg x = d.below x zero_dec ≡ false

  -- Configured weights without a negative one.
  abbrev pub AreNonneg : Weights D → Type 0
  AreNonneg ws = all (λ (k, w). not (d.below w zero_dec)) ws ≡ true

  weight_of-IsNonneg :
      (ws : Weights D) (k : String) → IsNonneg zero_dec → AreNonneg ws → IsNonneg (weight_of ws k)
  weight_of-IsNonneg [] k z h = z
  weight_of-IsNonneg ((j, w) ∷ ws) k z h = ground (arith, h, weight_of-IsNonneg ws k z)

  plus-IsNonneg : (a b : D) → IsNonneg a → IsNonneg b → IsNonneg (d.plus a b)
  plus-IsNonneg a b h k = d.below_between (d.plus a b) a zero_dec (d.plus_grows a b k) h

  choose-IsNonneg : (b : Bool) (x y : D) → IsNonneg x → IsNonneg y → IsNonneg (if b then x else y)
  choose-IsNonneg true x y h k = h
  choose-IsNonneg false x y h k = k

  module _ (verification trust : Weights D) (z : IsNonneg zero_dec) (v : AreNonneg verification)
      (t : AreNonneg trust) where
    citation-IsNonneg :
        (c : EvidenceCitationInput) → IsNonneg (citation_weight c verification trust)
    unfolding citation_weight
    citation-IsNonneg c =
        d.times_nonneg _ _ (weight_of-IsNonneg verification c.verification z v)
          (weight_of-IsNonneg trust c.trust_level z t)

    citations-IsNonneg :
        (cs : List EvidenceCitationInput) (e_total d_total : D)
        → IsNonneg e_total
        → IsNonneg d_total
        → IsNonneg (add_citations verification trust e_total d_total cs).0
          × IsNonneg (add_citations verification trust e_total d_total cs).1
    unfolding add_citations
    citations-IsNonneg [] e_total d_total h k = (h, k)
    citations-IsNonneg (c ∷ cs) e_total d_total h k =
        let w = citation_weight c verification trust in
        let e_more = plus-IsNonneg e_total w h (citation-IsNonneg c) in
        let d_more = plus-IsNonneg d_total w k (citation-IsNonneg c) in
        let supports = str_eq c.polarity "SUPPORT" in
        let opposes = str_eq c.polarity "OPPOSE" in
        citations-IsNonneg cs _ _
          (choose-IsNonneg (not_rejected c) _ _ (choose-IsNonneg supports _ _ e_more h) h)
          (choose-IsNonneg (not_rejected c) _ _
            (choose-IsNonneg supports _ _ k (choose-IsNonneg opposes _ _ d_more k)) k)

  factor_total :
      (e_i d_i : D) → IsNonneg e_i → IsNonneg d_i → (x : D) × (evidence_factor e_i d_i ≡ ok x)
  unfolding evidence_factor divide
  factor_total e_i d_i h k =
      let sum = d.plus e_i d_i in
      let above : d.below (d.plus sum one_dec) one_dec ≡ false =
        d.below_between (d.plus sum one_dec) (d.plus zero_dec one_dec) one_dec
          (d.plus_mono zero_dec sum one_dec (plus-IsNonneg e_i d_i h k)) (d.zero_plus one_dec) in
      let nonzero : is_zero (d.plus sum one_dec) ≡ false =
        ground (arith, below_trans zero_dec one_dec (d.plus sum one_dec) d.zero-below-one above) in
      let quotient : divide (d.minus e_i d_i) (d.plus sum one_dec)
          ≡ ok (d.over (d.minus e_i d_i) (d.plus sum one_dec)) =
        rw nonzero refl in
      then_ok (divide (d.minus e_i d_i) (d.plus sum one_dec)) _ quotient (_, refl)

  module _ (s : EvidenceSettings D) (c : ConsensusContext D) (z : IsNonneg zero_dec)
      (v : AreNonneg s.verification_weights) (t : AreNonneg s.trust_multiplier) where
    terms_total :
        (ps : List (AgentPosition D)) (e_alt terms : D)
        → (p : D × D) × (add_terms s c e_alt terms ps ≡ ok p)
    unfolding add_terms evidence_strength
    terms_total [] e_alt terms = ((e_alt, terms), refl)
    terms_total (p ∷ ps) e_alt terms =
        let citations =
          capped_by_publisher (evidence_for_position p c.evidence) s.independence_cap in
        let (h, k) =
          citations-IsNonneg s.verification_weights s.trust_multiplier z v t citations zero_dec
            zero_dec z z in
        let (evid, ef) = factor_total _ _ h k in
        then_ok (evidence_factor _ _) _ ef (terms_total ps _ _)

    evidence_total : (ps : List (AgentPosition D)) → (p : D × D) × (evidence_support s c ps ≡ ok p)
    unfolding evidence_support
    evidence_total [] = ((zero_dec, zero_dec), refl)
    evidence_total (p ∷ ps) =
        let (sums, e) = terms_total (p ∷ ps) zero_dec zero_dec in
        then_ok (add_terms s c zero_dec zero_dec (p ∷ ps)) _ e (
          then_ok (divide sums.1 (d.lit (suc (length ps)) 0)) _ (divide_count sums.1 (length ps))
            (_, refl))

    pub blended_total : (alt : Uuid) → (p : D × D) × (blended_support s c alt ≡ ok p)
    unfolding blended_support
    blended_total alt =
        let (p, ep) = evidence_total (relevant alt s.base.abstain_policy c.agent_positions) in
        let (q, eq) =
          support_total alt c.agent_positions s.base.use_confidence s.base.abstain_policy
            s.base.weights in
        then_ok (evidence_support s c (relevant alt s.base.abstain_policy c.agent_positions)) _ ep (
          then_ok
            (compute_support alt c.agent_positions s.base.use_confidence s.base.abstain_policy
              s.base.weights)
            _ eq (_, refl))
