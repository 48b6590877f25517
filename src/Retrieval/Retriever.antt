-- ===== src/Retrieval/Retriever.antt =====
-- `HybridRetriever.retrieve` of backend/app/application/retrieval.py. The searches, the reranker, the
-- hash of the query and the time are given; the audit is the list of its attempts, the last in front.
use agora_opencode.Prelude.{
  ℕ, zero, suc, ◌*◌, ◌&&◌, Option, none, some, String, List, [], ◌∷◌, ◌++◌, map, Result, ok, err,
  if◌then◌else◌, is_nil, length,
}
use agora_opencode.Retrieval.Types.{
  HybridCandidate, RetrievalAttempt, RetrievalDegradation, RetrievalOutcome, RetrievalRequest,
  RetrievalResult, RetrievedChunk, Score, undegraded, lexical_only, index_mismatch, reranker_failed,
  allowed, denied, rag_failed, chunk_id,
}
use agora_opencode.Retrieval.Fusion.{reciprocal_rank_fusion, reranker_output_is_valid}

-- `TransientPortError`, `IndexMismatchError` and the other `PermanentPortError`s
pub data PortError : Type 0 where
  transient mismatch permanent : PortError

-- What a retrieval raises: `RagFailed`, or the refusal of every namespace.
pub data RetrieveError : Type 0 where
  failed_retrieval no_namespace : RetrieveError

pub record Ports (S : Type 0) : Type 0 where
  pub authorize : RetrievalRequest → Result PortError (List ℕ)
  pub lexical : RetrievalRequest → ℕ → Result PortError (List (HybridCandidate S))
  pub vector : RetrievalRequest → ℕ → Result PortError (List (HybridCandidate S))
  pub rerank : String → List (RetrievedChunk S) → ℕ → Result PortError (List (RetrievedChunk S))
  pub reranker_version : String
  pub hash_query : String → String
  pub now : ℕ

-- `xs[:k]`
abbrev pub take : {S : Type 0} → ℕ → List (RetrievedChunk S) → List (RetrievedChunk S)
take zero xs = []
take (suc k) [] = []
take (suc k) (x ∷ xs) = x ∷ take k xs

-- `NoopReranker.rerank`
abbrev pub noop_rerank :
    {S : Type 0} → String → List (RetrievedChunk S) → ℕ → Result PortError (List (RetrievedChunk S))
noop_rerank query candidates k = ok (take k candidates)

-- `warnings or (result.warnings if result else ())`
abbrev pub or_else : List String → List String → List String
or_else [] ws = ws
or_else (v ∷ vs) ws = v ∷ vs

-- What an attempt without a result says of the search.
pub record Census : Type 0 where
  pub searched : List ℕ
  pub lexical_count : ℕ

-- The searches' outcome: the vector arm, how it degraded, and the warnings.
pub record VectorArm (S : Type 0) : Type 0 where
  pub candidates : List (HybridCandidate S)
  pub degradation : RetrievalDegradation
  pub warnings : List String

module _ {S : Type 0} ⦃o : Score S⦄ (p : Ports S) (r : RetrievalRequest) where
  -- `_attempt` without a result
  unfoldable pub attempt_without :
      RetrievalOutcome → Option String → Census → List String → RetrievalAttempt
  attempt_without outcome version c warnings = record {
    attempt_id = r.attempt_id;
    trace_id = r.trace_id;
    workspace_id = r.workspace_id;
    principal_class = r.principal_class;
    principal_id = r.principal_id;
    requested_at = r.requested_at;
    completed_at = p.now;
    query_hash = p.hash_query r.query;
    requested_namespace_ids = r.namespace_ids;
    searched_namespace_ids = c.searched;
    result_chunk_ids = [];
    result_content_hashes = [];
    index_version = r.index_version;
    embedding_model = r.embedding_model;
    embedding_version = r.embedding_version;
    reranker_version = version;
    lexical_count = c.lexical_count;
    vector_count = 0;
    result_count = 0;
    outcome = outcome;
    degradation = none;
    warnings = warnings;
  }

  -- `_attempt` with a result
  unfoldable pub attempt_with :
      RetrievalOutcome → RetrievalResult S → List String → RetrievalAttempt
  attempt_with outcome x warnings = record {
    attempt_id = r.attempt_id;
    trace_id = r.trace_id;
    workspace_id = r.workspace_id;
    principal_class = r.principal_class;
    principal_id = r.principal_id;
    requested_at = r.requested_at;
    completed_at = p.now;
    query_hash = p.hash_query r.query;
    requested_namespace_ids = r.namespace_ids;
    searched_namespace_ids = x.searched_namespace_ids;
    result_chunk_ids = map chunk_id x.chunks;
    result_content_hashes = map (λ (c : RetrievedChunk S). c.provenance.content_hash) x.chunks;
    index_version = r.index_version;
    embedding_model = r.embedding_model;
    embedding_version = r.embedding_version;
    reranker_version = some p.reranker_version;
    lexical_count = x.lexical_count;
    vector_count = x.vector_count;
    result_count = length x.chunks;
    outcome = outcome;
    degradation = some x.degradation;
    warnings = or_else warnings x.warnings;
  }

  abbrev pub Answer : Type 0
  Answer = Result RetrieveError (RetrievalResult S) × List RetrievalAttempt

  abbrev pub rag_failure : Census → String → List RetrievalAttempt → Answer
  rag_failure c warning audit =
      (err failed_retrieval, attempt_without rag_failed none c (warning ∷ []) ∷ audit)

  -- The end of `retrieve`, from the result.
  unfoldable pub conclude : RetrievalResult S → List RetrievalAttempt → Answer
  unfolding attempt_with
  conclude x audit =
      if r.expected_match && is_nil x.chunks
      then (
        err failed_retrieval,
        attempt_with rag_failed x
              (x.warnings ++ ("RAG_FAILED: expected match returned no candidates" ∷ []))
            ∷ audit,
      )
      else (ok x, attempt_with allowed x [] ∷ audit)

  abbrev pub result_of :
      List ℕ
      → List (HybridCandidate S)
      → VectorArm S
      → RetrievalDegradation
      → List String
      → List (RetrievedChunk S)
      → RetrievalResult S
  result_of namespaces lexical v degradation warnings chunks = record {
    query_hash = p.hash_query r.query;
    requested_namespace_ids = r.namespace_ids;
    searched_namespace_ids = namespaces;
    index_version = r.index_version;
    embedding_model = r.embedding_model;
    embedding_version = r.embedding_version;
    reranker_version = p.reranker_version;
    lexical_count = length lexical;
    vector_count = length v.candidates;
    degradation = degradation;
    warnings = warnings;
    chunks = chunks;
  }

  abbrev pub fallback :
      List ℕ → List (HybridCandidate S) → VectorArm S → List (RetrievedChunk S) → RetrievalResult S
  fallback namespaces lexical v fused =
      result_of namespaces lexical v reranker_failed
        (v.warnings ++ ("reranker failed; deterministic fused order retained" ∷ []))
        (take r.final_k fused)

  -- The reranked chunks where they pass the check, else the fused order.
  unfoldable pub selected :
      List ℕ
      → List (HybridCandidate S)
      → VectorArm S
      → List (RetrievedChunk S)
      → Result PortError (List (RetrievedChunk S))
      → RetrievalResult S
  selected namespaces lexical v fused (err x) = fallback namespaces lexical v fused
  selected namespaces lexical v fused (ok reranked) =
      if reranker_output_is_valid reranked fused r.final_k
      then result_of namespaces lexical v v.degradation v.warnings reranked
      else fallback namespaces lexical v fused

  unfoldable pub fuse_and_rerank :
      List ℕ → List (HybridCandidate S) → VectorArm S → List RetrievalAttempt → Answer
  unfolding conclude selected
  fuse_and_rerank namespaces lexical v audit =
      let fused = reciprocal_rank_fusion r.index_version lexical v.candidates in
      conclude (selected namespaces lexical v fused (p.rerank r.query fused r.final_k)) audit

  abbrev pub degraded : RetrievalDegradation → String → VectorArm S
  degraded degradation warning = record {
    candidates = [];
    degradation = degradation;
    warnings = warning ∷ [];
  }

  unfoldable pub after_vector :
      List ℕ
      → List (HybridCandidate S)
      → List RetrievalAttempt
      → Result PortError (List (HybridCandidate S))
      → Answer
  unfolding attempt_without fuse_and_rerank
  after_vector namespaces lexical audit (ok vector) =
      fuse_and_rerank namespaces lexical
        (record { candidates = vector; degradation = undegraded; warnings = [] }) audit
  after_vector namespaces lexical audit (err transient) =
      fuse_and_rerank namespaces lexical
        (degraded lexical_only "vector retrieval unavailable; lexical candidates retained") audit
  after_vector namespaces lexical audit (err mismatch) =
      fuse_and_rerank namespaces lexical
        (degraded index_mismatch "vector index identity mismatch; lexical candidates retained")
        audit
  after_vector namespaces lexical audit (err permanent) =
      rag_failure (record { searched = namespaces; lexical_count = length lexical })
        "RAG_FAILED: vector retrieval did not complete" audit

  abbrev pub scoped_to : List ℕ → RetrievalRequest
  scoped_to namespaces = record r { namespace_ids = namespaces }

  unfoldable pub after_lexical :
      List ℕ → List RetrievalAttempt → Result PortError (List (HybridCandidate S)) → Answer
  unfolding attempt_without
  after_lexical namespaces audit (err x) =
      rag_failure (record { searched = namespaces; lexical_count = 0 })
        "RAG_FAILED: lexical retrieval did not complete" audit
  after_lexical namespaces audit (ok lexical) =
      after_vector namespaces lexical audit (p.vector (scoped_to namespaces) (r.final_k * 3))

  unfoldable pub after_authorize : List RetrievalAttempt → Result PortError (List ℕ) → Answer
  unfolding attempt_without
  after_authorize audit (err x) =
      rag_failure (record { searched = []; lexical_count = 0 })
        "RAG_FAILED: namespace authorization did not complete" audit
  after_authorize audit (ok []) = (
    err no_namespace,
    attempt_without denied none (record { searched = []; lexical_count = 0 }) [] ∷ audit,
  )
  after_authorize audit (ok (n ∷ ns)) =
      after_lexical (n ∷ ns) audit (p.lexical (scoped_to (n ∷ ns)) (r.final_k * 3))

  -- `retrieve`
  unfoldable pub retrieve : List RetrievalAttempt → Answer
  retrieve audit = after_authorize audit (p.authorize r)
