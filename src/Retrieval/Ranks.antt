-- ===== src/Retrieval/Ranks.antt =====
-- The scores and the order of a fusion.
use agora_opencode.Prelude.{
  ℕ, suc, ◌≡◌, refl, ap, ◌∙◌, true, false, String, List, [], ◌∷◌, map, arith, All, All-of_mem, ◌==◌,
  if◌then◌else◌, get_or, sort_desc, sort_desc-IsDescending, IsDescending,
}
use agora_opencode.Retrieval.Types.{HybridCandidate, RetrievedChunk, Score, candidate_id, chunk_id}
use agora_opencode.Retrieval.Fusion.{
  Arm, lexical_arm, vector_arm, Fused, behind, chunk_of, fuse, fuse_arm, fuse_one, fused_of,
  nothing_fused, reciprocal_rank_fusion,
}
use agora_opencode.Retrieval.Distinct.{mem-chunks}

module _ {S : Type 0} ⦃o : Score S⦄ where
  -- The reciprocal ranks of an id in an arm, added in order to what there is.
  pub ranks_sum : ℕ → ℕ → S → List (HybridCandidate S) → S
  ranks_sum j rank sum [] = sum
  ranks_sum j rank sum (c ∷ cs) =
      ranks_sum j (suc rank)
        (if candidate_id c == j then o.plus sum (o.reciprocal_rank rank) else sum) cs

  abbrev score_in : ℕ → Fused S → S
  score_in j f = get_or o.nought j f.fused_scores

  score-fuse_one :
      (j : ℕ) (arm : Arm) (rank : ℕ) (c : HybridCandidate S) (f : Fused S)
      → score_in j (fuse_one arm rank c f) ≡ (
          if candidate_id c == j
          then o.plus (score_in j f) (o.reciprocal_rank rank)
          else score_in j f)
  unfolding fuse_one
  score-fuse_one j lexical_arm rank c f = ground arith
  score-fuse_one j vector_arm rank c f = ground arith

  score-fuse_arm :
      (j : ℕ) (arm : Arm) (rank : ℕ) (cs : List (HybridCandidate S)) (f : Fused S)
      → score_in j (fuse_arm arm rank cs f) ≡ ranks_sum j rank (score_in j f) cs
  unfolding fuse_arm ranks_sum
  score-fuse_arm j arm rank [] f = refl
  score-fuse_arm j arm rank (c ∷ cs) f =
      score-fuse_arm j arm (suc rank) cs (fuse_one arm rank c f)
      ∙ ap (λ x. ranks_sum j (suc rank) x cs) (score-fuse_one j arm rank c f)

  -- `behind` is the strict part of a total order.
  behind_asym : (x y : S × ℕ) → behind x y ≡ true → behind y x ≡ false
  behind_asym (a, j) (b, k) e =
      ground (arith, o.below_asym a b, o.below_asym b a, o.same_iff a b, o.same_iff b a)

  behind_between : (x y z : S × ℕ) → behind x y ≡ false → behind y z ≡ false → behind x z ≡ false
  behind_between (a, j) (b, k) (c, l) e f = ground (
    arith,
    o.below_between a b c,
    o.below_total a b,
    o.below_total b c,
    o.below_between b c a,
    o.below_between c a b,
    o.same_iff a b,
    o.same_iff b c,
    o.same_iff a c,
  )

  abbrev pub rank_of : RetrievedChunk S → S × ℕ
  rank_of x = (x.fused_score, chunk_id x)

  module _ (version : String) (f : Fused S) where
    abbrev key_in : HybridCandidate S → S × ℕ
    key_in c = (fused_of f c, candidate_id c)

    chunks-below :
        (c : HybridCandidate S) (cs : List (HybridCandidate S))
        → All (λ d. behind (key_in c) (key_in d) ≡ false) cs
        → All
            (λ x. behind (rank_of (chunk_of version f c)) (rank_of x) ≡ false)
            (map (chunk_of version f) cs)
    chunks-below c [] a = tt
    chunks-below c (d ∷ ds) a = (a.0, chunks-below c ds a.1)

    chunks-IsDescending :
        (cs : List (HybridCandidate S))
        → IsDescending behind key_in cs
        → IsDescending behind rank_of (map (chunk_of version f) cs)
    chunks-IsDescending [] d = tt
    chunks-IsDescending (c ∷ cs) d = (chunks-below c cs d.0, chunks-IsDescending cs d.1)

  -- In a fusion the fused score of a chunk is the sum of its reciprocal ranks, those in the
  -- lexical arm first, and no chunk stands before one with a higher score, or with the same
  -- score and a lower id.
  pub fusion-IsRanked :
      (version : String) (lexical vector : List (HybridCandidate S))
      → All
          (λ (x : RetrievedChunk S).
            x.fused_score
            ≡ ranks_sum (chunk_id x) 1 (ranks_sum (chunk_id x) 1 o.nought lexical) vector)
          (reciprocal_rank_fusion version lexical vector)
        × IsDescending behind rank_of (reciprocal_rank_fusion version lexical vector)
  unfolding reciprocal_rank_fusion fuse
  fusion-IsRanked version lexical vector =
      let f = fuse lexical vector in
      let sorted = sort_desc behind (key_in version f) f.candidates in
      (
        All-of_mem _ (map (chunk_of version f) sorted)
            λ x m. let (c, _, same) = mem-chunks version f sorted x m in rw same (scored c),
        chunks-IsDescending version f sorted (
            sort_desc-IsDescending behind (key_in version f) behind_asym behind_between
              f.candidates),
      )
    where
      scored :
          (c : HybridCandidate S)
          → fused_of (fuse lexical vector) c
            ≡ ranks_sum (candidate_id c) 1 (ranks_sum (candidate_id c) 1 o.nought lexical) vector
      scored c =
          score-fuse_arm (candidate_id c) vector_arm 1 vector
            (fuse_arm lexical_arm 1 lexical nothing_fused)
          ∙ ap (λ s. ranks_sum (candidate_id c) 1 s vector)
              (score-fuse_arm (candidate_id c) lexical_arm 1 lexical nothing_fused)
