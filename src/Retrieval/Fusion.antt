-- ===== src/Retrieval/Fusion.antt =====
-- `reciprocal_rank_fusion` and `_validate_reranker_output` of backend/app/application/retrieval.py.
use agora_opencode.Prelude.{
  ℕ, suc, Bool, false, ◌&&◌, ◌||◌, none, some, String, List, [], ◌∷◌, map, ◌==◌, ltb, leb,
  if◌then◌else◌, all, contains, are_distinct, length, lookup, get_or, sort_desc, dict_of,
}
use agora_opencode.Retrieval.Types.{
  Score, HybridCandidate, RetrievedChunk, candidate_id, chunk_id, same_chunk,
}

-- The dicts of the loop. `candidates` keeps its first entry of a key, in the order of insertion; of
-- the others the latest entry stands first.
pub record Fused (S : Type 0) : Type 0 where
  pub candidates : List (HybridCandidate S)
  pub lexical_scores : List (ℕ × S)
  pub vector_scores : List (ℕ × S)
  pub fused_scores : List (ℕ × S)

-- `min(a, b)`
abbrev pub smaller : ℕ → ℕ → ℕ
smaller a b = if leb a b then a else b

pub data Arm : Type 0 where
  lexical_arm vector_arm : Arm

module _ {S : Type 0} where
  -- `candidates.setdefault(key, candidate)`
  unfoldable pub set_default :
      HybridCandidate S → List (HybridCandidate S) → List (HybridCandidate S)
  set_default c [] = c ∷ []
  set_default c (x ∷ xs) =
      let rest = set_default c xs in if candidate_id x == candidate_id c then x ∷ xs else x ∷ rest

module _ {S : Type 0} ⦃o : Score S⦄ where
  abbrev pub with_arm : Arm → HybridCandidate S → Fused S → Fused S
  with_arm lexical_arm c f = record f {
    lexical_scores = (candidate_id c, c.score) ∷ f.lexical_scores;
  }
  with_arm vector_arm c f = record f { vector_scores = (candidate_id c, c.score) ∷ f.vector_scores }

  -- One round of the loop over an arm.
  unfoldable pub fuse_one : Arm → ℕ → HybridCandidate S → Fused S → Fused S
  unfolding set_default
  fuse_one arm rank c f = with_arm arm c (record f {
    candidates = set_default c f.candidates;
    fused_scores =
        (
          candidate_id c,
          o.plus (get_or o.nought (candidate_id c) f.fused_scores) (o.reciprocal_rank rank),
        )
        ∷ f.fused_scores;
  })

  unfoldable pub fuse_arm : Arm → ℕ → List (HybridCandidate S) → Fused S → Fused S
  fuse_arm arm rank [] f = f
  fuse_arm arm rank (c ∷ cs) f = fuse_arm arm (suc rank) cs (fuse_one arm rank c f)

  abbrev pub nothing_fused : Fused S
  nothing_fused = record {
    candidates = [];
    lexical_scores = [];
    vector_scores = [];
    fused_scores = [];
  }

  unfoldable pub fuse : List (HybridCandidate S) → List (HybridCandidate S) → Fused S
  unfolding fuse_arm
  fuse lexical vector = fuse_arm vector_arm 1 vector (fuse_arm lexical_arm 1 lexical nothing_fused)

  -- `(-fused_scores[key], str(key))`: the better score first, and of equal ones the lower id.
  abbrev pub behind : S × ℕ → S × ℕ → Bool
  behind (a, j) (b, k) = o.below a b || o.same a b && ltb k j

  abbrev pub fused_of : Fused S → HybridCandidate S → S
  fused_of f c = get_or o.nought (candidate_id c) f.fused_scores

  abbrev pub chunk_of : String → Fused S → HybridCandidate S → RetrievedChunk S
  chunk_of index_version f c = record {
    provenance = c.provenance;
    score = fused_of f c;
    lexical_score = lookup (candidate_id c) f.lexical_scores;
    vector_score = lookup (candidate_id c) f.vector_scores;
    fused_score = fused_of f c;
    rerank_score = none;
    index_version = index_version;
  }

  -- `reciprocal_rank_fusion`
  unfoldable pub reciprocal_rank_fusion :
      String → List (HybridCandidate S) → List (HybridCandidate S) → List (RetrievedChunk S)
  unfolding fuse
  reciprocal_rank_fusion index_version lexical vector =
      let f = fuse lexical vector in
      map (chunk_of index_version f)
        (sort_desc behind (λ (c : HybridCandidate S). (fused_of f c, candidate_id c)) f.candidates)

  -- The chunk that a reranked one must be a copy of, but for its rerank score.
  abbrev pub is_copy : List (ℕ × RetrievedChunk S) → RetrievedChunk S → Bool
  is_copy originals c = elim (lookup (chunk_id c) originals) [
    | none ↦ false
    | some original ↦ same_chunk c original
  ]

  -- `_validate_reranker_output`, `true` where it raises nothing
  unfoldable pub reranker_output_is_valid :
      List (RetrievedChunk S) → List (RetrievedChunk S) → ℕ → Bool
  reranker_output_is_valid reranked candidates k =
      length reranked == smaller k (length candidates)
      && are_distinct (map chunk_id reranked)
      && all (λ c. contains (chunk_id c) (map chunk_id candidates)) reranked
      && all (is_copy (dict_of chunk_id candidates)) reranked
