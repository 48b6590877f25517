-- ===== src/Retrieval/Audited.antt =====
-- What the audit holds after a retrieval.
use agora_opencode.Prelude.{
  List-cases, ℕ, ◌≡◌, refl, ap, true, ◌&&◌, none, some, String, List, [], ◌∷◌, map, arith, Result,
  ok, err, Bool-cases, inl, inr, length, is_nil, ==_refl,
}
use agora_opencode.Retrieval.Types.{
  index_mismatch, lexical_only, undegraded, HybridCandidate, RetrievalAttempt, RetrievalRequest,
  RetrievalResult, RetrievedChunk, Score, allowed, denied, rag_failed, census_matches_outcome,
  chunk_id,
}
use agora_opencode.Retrieval.Retriever.{
  degraded, Census, Ports, PortError, transient, mismatch, permanent, RetrieveError, VectorArm,
  after_authorize, after_lexical, after_vector, attempt_with, attempt_without, conclude,
  failed_retrieval, fuse_and_rerank, no_namespace, retrieve,
}

-- The attempt says what the caller got: the result and its chunks, a failure, or a refusal.
abbrev pub Tells :
    {S : Type 0} → Result RetrieveError (RetrievalResult S) → RetrievalAttempt → Type 0
Tells (ok x) a =
    (a.outcome ≡ allowed)
    × (a.result_chunk_ids ≡ map chunk_id x.chunks)
    × (a.degradation ≡ some x.degradation)
    × (a.searched_namespace_ids ≡ x.searched_namespace_ids)
Tells (err failed_retrieval) a = (a.outcome ≡ rag_failed) × (a.result_chunk_ids ≡ [])
Tells (err no_namespace) a = (a.outcome ≡ denied) × (a.result_chunk_ids ≡ [])

-- One attempt more, which passes its validator and tells the answer.
pub record IsAudited {S : Type 0} (r : RetrievalRequest) (audit : List RetrievalAttempt)
    (out : Result RetrieveError (RetrievalResult S) × List RetrievalAttempt) : Type 0 where
  pub attempt : RetrievalAttempt
  pub added : out.1 ≡ attempt ∷ audit
  pub own : attempt.attempt_id ≡ r.attempt_id
  pub census : census_matches_outcome attempt ≡ true
  pub tells : Tells out.0 attempt

length-map {ℓ κ} :
    {A : Type ℓ} {B : Type κ} (f : A → B) (xs : List A) → length (map f xs) ≡ length xs
length-map f [] = refl
length-map f (x ∷ xs) = omega (arith, length-map f xs)

module _ {S : Type 0} ⦃o : Score S⦄ (p : Ports S) (r : RetrievalRequest)
    (audit : List RetrievalAttempt) where
  failure-IsAudited :
      (c : Census) (warnings : List String)
      → IsAudited {S = S} r audit
          (err failed_retrieval, attempt_without p r rag_failed none c warnings ∷ audit)
  unfolding attempt_without census_matches_outcome
  failure-IsAudited c warnings = record {
    attempt = attempt_without p r rag_failed none c warnings;
    added = refl;
    own = refl;
    census = refl;
    tells = (refl, refl);
  }

  conclude-IsAudited : (x : RetrievalResult S) → IsAudited r audit (conclude p r x audit)
  unfolding conclude attempt_with census_matches_outcome
  conclude-IsAudited x = elim (Bool-cases (r.expected_match && is_nil x.chunks)) [
    | inr usual ↦ rw usual (record {
      attempt = attempt_with p r allowed x [];
      added = refl;
      own = refl;
      census = counted x;
      tells = (refl, refl, refl, refl);
    })
    | inl empty ↦ rw empty (record {
      attempt = attempt_with p r rag_failed x _;
      added = refl;
      own = refl;
      census = ground (arith, none_of x (ground arith));
      tells = (refl, ap (map chunk_id) (none_of x (ground arith)));
    })
  ]
    where
      none_of : (x : RetrievalResult S) → is_nil x.chunks ≡ true → x.chunks ≡ []
      none_of x e = elim (List-cases x.chunks) [
        | inl nil ↦ nil
        | inr (c, cs, full) ↦ absurd (ground (arith, full))
      ]

      counted :
          (x : RetrievalResult S) → census_matches_outcome (attempt_with p r allowed x []) ≡ true
      counted x =
          simp
            (
              length-map chunk_id x.chunks,
              length-map (λ (c : RetrievedChunk S). c.provenance.content_hash) x.chunks,
              ==_refl,
            )
            refl

  rerank-IsAudited :
      (namespaces : List ℕ) (lexical : List (HybridCandidate S)) (v : VectorArm S)
      → IsAudited r audit (fuse_and_rerank p r namespaces lexical v audit)
  unfolding fuse_and_rerank
  rerank-IsAudited namespaces lexical v = conclude-IsAudited _

  vector-IsAudited :
      (namespaces : List ℕ) (lexical : List (HybridCandidate S))
      → (out : Result PortError (List (HybridCandidate S)))
      → IsAudited r audit (after_vector p r namespaces lexical audit out)
  unfolding after_vector
  vector-IsAudited namespaces lexical (ok vector) =
      rerank-IsAudited namespaces lexical
        (record { candidates = vector; degradation = undegraded; warnings = [] })
  vector-IsAudited namespaces lexical (err transient) =
      rerank-IsAudited namespaces lexical
        (degraded p r lexical_only "vector retrieval unavailable; lexical candidates retained")
  vector-IsAudited namespaces lexical (err mismatch) =
      rerank-IsAudited namespaces lexical
        (degraded p r index_mismatch "vector index identity mismatch; lexical candidates retained")
  vector-IsAudited namespaces lexical (err permanent) = failure-IsAudited _ _

  lexical-IsAudited :
      (namespaces : List ℕ) (out : Result PortError (List (HybridCandidate S)))
      → IsAudited r audit (after_lexical p r namespaces audit out)
  unfolding after_lexical
  lexical-IsAudited namespaces (err x) = failure-IsAudited _ _
  lexical-IsAudited namespaces (ok lexical) = vector-IsAudited namespaces lexical _

  authorize-IsAudited :
      (out : Result PortError (List ℕ)) → IsAudited r audit (after_authorize p r audit out)
  unfolding after_authorize attempt_without census_matches_outcome
  authorize-IsAudited (err x) = failure-IsAudited _ _
  authorize-IsAudited (ok []) = record {
    attempt = attempt_without p r denied none (record { searched = []; lexical_count = 0 }) [];
    added = refl;
    own = refl;
    census = refl;
    tells = (refl, refl);
  }
  authorize-IsAudited (ok (n ∷ ns)) = lexical-IsAudited (n ∷ ns) _

  -- Every retrieval, however it ends, adds one attempt to the audit, in front: it passes its
  -- validator, has the id of the request and tells the answer: ALLOWED with the chunks, the
  -- degradation and the namespaces of the result, or RAG_FAILED or DENIED with no chunks.
  pub retrieve-IsAudited : IsAudited r audit (retrieve p r audit)
  unfolding retrieve
  retrieve-IsAudited = authorize-IsAudited (p.authorize r)
