-- ===== src/Retrieval/Types.antt =====
-- The value objects of backend/app/domain/retrieval.py. Scores are Python floats: a type with what the
-- code does with them, the sum and the reciprocal rank 1 / (60 + rank), and an order.
use agora_opencode.Prelude.{
  ℕ, ◌≡◌, ◌↔◌, Bool, true, false, ◌&&◌, not, Option, none, some, String, List, [], ◌∷◌, ◌==◌,
  str_eq, any, all, are_distinct, is_nil, is_blank, length,
}

-- `same` and `below` are `==` and `<` on finite floats.
pub record Score (S : Type 0) : Type 0 where
  pub nought : S
  pub plus : S → S → S
  pub reciprocal_rank : ℕ → S
  pub below : S → S → Bool
  pub same : S → S → Bool
  pub same_iff : (a b : S) → (same a b ≡ true) ↔ (a ≡ b)
  pub below_asym : (a b : S) → below a b ≡ true → below b a ≡ false
  pub below_between : (a b c : S) → below a b ≡ false → below b c ≡ false → below a c ≡ false
  pub below_total : (a b : S) → below a b ≡ false → below b a ≡ false → a ≡ b

pub data RetrievalDegradation : Type 0 where
  undegraded lexical_only index_mismatch reranker_failed : RetrievalDegradation

pub data PrincipalClass : Type 0 where
  human agent : PrincipalClass

pub data RetrievalOutcome : Type 0 where
  allowed denied rag_failed : RetrievalOutcome

pub data NamespaceSubjectKind : Type 0 where
  workspace user agent_definition session : NamespaceSubjectKind

abbrev pub same_kind : NamespaceSubjectKind → NamespaceSubjectKind → Bool
same_kind workspace workspace = true
same_kind user user = true
same_kind agent_definition agent_definition = true
same_kind session session = true
same_kind _ _ = false

pub record RetrievalSubject : Type 0 where
  pub kind : NamespaceSubjectKind
  pub id : ℕ

-- The query's vector and the least scores are for the two searches alone.
pub record RetrievalRequest : Type 0 where
  pub attempt_id : ℕ
  pub trace_id : ℕ
  pub workspace_id : ℕ
  pub principal_class : PrincipalClass
  pub principal_id : ℕ
  pub namespace_ids : List ℕ
  pub subjects : List RetrievalSubject
  pub query : String
  pub embedding_model : String
  pub embedding_version : String
  pub index_version : String
  pub requested_at : ℕ
  pub expected_match : Bool
  pub final_k : ℕ

abbrev pub is_subject : NamespaceSubjectKind → ℕ → RetrievalSubject → Bool
is_subject kind k s = same_kind s.kind kind && s.id == k

unfoldable pub distinct_subjects : List RetrievalSubject → Bool
distinct_subjects [] = true
distinct_subjects (s ∷ ss) = not (any (is_subject s.kind s.id) ss) && distinct_subjects ss

abbrev pub principal_kind : PrincipalClass → NamespaceSubjectKind
principal_kind human = user
principal_kind agent = agent_definition

-- The validators of a request
unfoldable pub request_is_valid : RetrievalRequest → Bool
unfolding distinct_subjects
request_is_valid r =
    not (is_nil r.namespace_ids)
    && not (r.final_k == 0)
    && all (λ s. not (is_blank s))
        (r.query ∷ r.embedding_model ∷ r.embedding_version ∷ r.index_version ∷ [])
    && are_distinct r.namespace_ids
    && distinct_subjects r.subjects
    && any (is_subject workspace r.workspace_id) r.subjects
    && any (is_subject (principal_kind r.principal_class) r.principal_id) r.subjects

-- The fields that a candidate shares with a chunk; the locator is its JSON text.
pub record Provenance : Type 0 where
  pub namespace_id : ℕ
  pub chunk_id : ℕ
  pub document_id : ℕ
  pub source_id : ℕ
  pub citation : String
  pub text : String
  pub source_content_hash : String
  pub content_hash : String
  pub locator : String
  pub chunker_version : String
  pub source_timestamp : ℕ
  pub document_timestamp : ℕ
  pub retrieved_at : ℕ
  pub trust_level : String

unfoldable pub same_provenance : Provenance → Provenance → Bool
same_provenance a b =
    a.namespace_id == b.namespace_id
    && a.chunk_id == b.chunk_id
    && a.document_id == b.document_id
    && a.source_id == b.source_id
    && str_eq a.citation b.citation
    && str_eq a.text b.text
    && str_eq a.source_content_hash b.source_content_hash
    && str_eq a.content_hash b.content_hash
    && str_eq a.locator b.locator
    && str_eq a.chunker_version b.chunker_version
    && a.source_timestamp == b.source_timestamp
    && a.document_timestamp == b.document_timestamp
    && a.retrieved_at == b.retrieved_at
    && str_eq a.trust_level b.trust_level

pub record HybridCandidate (S : Type 0) : Type 0 where
  pub provenance : Provenance
  pub score : S

pub record RetrievedChunk (S : Type 0) : Type 0 where
  pub provenance : Provenance
  pub score : S
  pub lexical_score : Option S
  pub vector_score : Option S
  pub fused_score : S
  pub rerank_score : Option S
  pub index_version : String

abbrev pub chunk_id : {S : Type 0} → RetrievedChunk S → ℕ
chunk_id c = c.provenance.chunk_id

abbrev pub candidate_id : {S : Type 0} → HybridCandidate S → ℕ
candidate_id c = c.provenance.chunk_id

module _ {S : Type 0} ⦃o : Score S⦄ where
  abbrev pub same_scores : Option S → Option S → Bool
  same_scores none none = true
  same_scores (some a) (some b) = o.same a b
  same_scores _ _ = false

  -- Equal but for the score of the reranker
  unfoldable pub same_chunk : RetrievedChunk S → RetrievedChunk S → Bool
  same_chunk a b =
      same_provenance a.provenance b.provenance
      && o.same a.score b.score
      && same_scores a.lexical_score b.lexical_score
      && same_scores a.vector_score b.vector_score
      && o.same a.fused_score b.fused_score
      && str_eq a.index_version b.index_version

pub record RetrievalResult (S : Type 0) : Type 0 where
  pub query_hash : String
  pub requested_namespace_ids : List ℕ
  pub searched_namespace_ids : List ℕ
  pub index_version : String
  pub embedding_model : String
  pub embedding_version : String
  pub reranker_version : String
  pub lexical_count : ℕ
  pub vector_count : ℕ
  pub degradation : RetrievalDegradation
  pub warnings : List String
  pub chunks : List (RetrievedChunk S)

pub record RetrievalAttempt : Type 0 where
  pub attempt_id : ℕ
  pub trace_id : ℕ
  pub workspace_id : ℕ
  pub principal_class : PrincipalClass
  pub principal_id : ℕ
  pub requested_at : ℕ
  pub completed_at : ℕ
  pub query_hash : String
  pub requested_namespace_ids : List ℕ
  pub searched_namespace_ids : List ℕ
  pub result_chunk_ids : List ℕ
  pub result_content_hashes : List String
  pub index_version : String
  pub embedding_model : String
  pub embedding_version : String
  pub reranker_version : Option String
  pub lexical_count : ℕ
  pub vector_count : ℕ
  pub result_count : ℕ
  pub outcome : RetrievalOutcome
  pub degradation : Option RetrievalDegradation
  pub warnings : List String

abbrev pub is_absent {ℓ} : {A : Type ℓ} → Option A → Bool
is_absent none = true
is_absent (some a) = false

-- `RetrievalAttempt._census_matches_outcome`, by the outcome; the form of the content hashes is
-- checked where the candidates are made.
abbrev pub census_of : RetrievalOutcome → RetrievalAttempt → Bool
census_of allowed a = not (is_absent a.degradation)
census_of denied a =
    is_nil a.searched_namespace_ids
    && is_nil a.result_chunk_ids
    && is_nil a.result_content_hashes
    && a.lexical_count == 0
    && a.vector_count == 0
    && is_absent a.degradation
census_of rag_failed a =
    is_nil a.result_chunk_ids && is_nil a.result_content_hashes && a.result_count == 0

unfoldable pub census_matches_outcome : RetrievalAttempt → Bool
census_matches_outcome a =
    a.result_count == length a.result_chunk_ids
    && a.result_count == length a.result_content_hashes
    && census_of a.outcome a
