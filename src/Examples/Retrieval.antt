-- ===== src/Examples/Retrieval.antt =====
-- A retrieval with one candidate in both arms, and one in the vector arm; scores in millionths.
use agora_opencode.Prelude.{
  is_blank, sort_desc, ℕ, ◌+◌, ◌/◌, ◌≡◌, refl, true, false, none, some, List, [], ◌∷◌, arith, ok,
  ltb, ◌==◌, ==_iff, All, IsDescending,
}
use agora_opencode.Retrieval.Types.{
  same_chunk, same_provenance, HybridCandidate, Provenance, RetrievalRequest, RetrievalResult,
  RetrievedChunk, Score, chunk_id, agent, workspace, agent_definition, undegraded, request_is_valid,
}
use agora_opencode.Retrieval.Fusion.{
  fuse_one, reranker_output_is_valid, behind, reciprocal_rank_fusion,
}
use agora_opencode.Retrieval.Retriever.{
  after_vector, after_lexical, after_authorize, Ports, noop_rerank, retrieve,
}
use agora_opencode.Retrieval.Audited.{IsAudited, retrieve-IsAudited}
use agora_opencode.Retrieval.Bounds.{IsGrounded, retrieve-IsGrounded}
use agora_opencode.Retrieval.Ranks.{fusion-IsRanked, rank_of, ranks_sum}

asym : (a b : ℕ) → ltb a b ≡ true → ltb b a ≡ false
asym a b e = ground arith

between : (a b c : ℕ) → ltb a b ≡ false → ltb b c ≡ false → ltb a c ≡ false
between a b c e f = ground arith

total : (a b : ℕ) → ltb a b ≡ false → ltb b a ≡ false → a ≡ b
total a b e f = ground arith

instance abbrev millionths : Score ℕ
millionths = record {
  nought = 0;
  plus = λ a b. a + b;
  reciprocal_rank = λ rank. 1000000 / (60 + rank);
  below = ltb;
  same = ◌==◌;
  same_iff = ==_iff;
  below_asym = asym;
  below_between = between;
  below_total = total;
}

abbrev source_of : ℕ → Provenance
source_of k = record {
  namespace_id = 3;
  chunk_id = k;
  document_id = 30;
  source_id = 31;
  citation = "p. 1";
  text = "text";
  source_content_hash = "s";
  content_hash = "c";
  locator = "{}";
  chunker_version = "1";
  source_timestamp = 1;
  document_timestamp = 2;
  retrieved_at = 3;
  trust_level = "high";
}

abbrev shared : HybridCandidate ℕ
shared = record { provenance = source_of 5; score = 9 }

abbrev near : HybridCandidate ℕ
near = record { provenance = source_of 4; score = 8 }

abbrev lexical : List (HybridCandidate ℕ)
lexical = shared ∷ []

abbrev vector : List (HybridCandidate ℕ)
vector = near ∷ shared ∷ []

abbrev request : RetrievalRequest
request = record {
  attempt_id = 1;
  trace_id = 2;
  workspace_id = 1;
  principal_class = agent;
  principal_id = 7;
  namespace_ids = 3 ∷ [];
  subjects = record { kind = workspace; id = 1 } ∷ record { kind = agent_definition; id = 7 } ∷ [];
  query = "cost";
  embedding_model = "m";
  embedding_version = "1";
  index_version = "1";
  requested_at = 5;
  expected_match = true;
  final_k = 8;
}

request_valid : request_is_valid request ≡ true
unfolding request_is_valid is_blank
request_valid = refl

abbrev ports : Ports ℕ
ports = record {
  authorize = λ r. ok (3 ∷ []);
  lexical = λ r k. ok lexical;
  vector = λ r k. ok vector;
  rerank = noop_rerank;
  reranker_version = "noop-v1";
  hash_query = λ q. q;
  now = 6;
}

fusion-IsRanked_example :
    All
      (λ (x : RetrievedChunk ℕ).
        x.fused_score ≡ ranks_sum (chunk_id x) 1 (ranks_sum (chunk_id x) 1 0 lexical) vector)
      (reciprocal_rank_fusion "1" lexical vector)
    × IsDescending behind rank_of (reciprocal_rank_fusion "1" lexical vector)
fusion-IsRanked_example = fusion-IsRanked "1" lexical vector

retrieve-IsAudited_example : IsAudited request [] (retrieve ports request [])
retrieve-IsAudited_example = retrieve-IsAudited ports request []

abbrev found : RetrievalResult ℕ
found = record {
  query_hash = "cost";
  requested_namespace_ids = 3 ∷ [];
  searched_namespace_ids = 3 ∷ [];
  index_version = "1";
  embedding_model = "m";
  embedding_version = "1";
  reranker_version = "noop-v1";
  lexical_count = 1;
  vector_count = 2;
  degradation = undegraded;
  warnings = [];
  chunks =
      record {
        provenance = source_of 5;
        score = 32522;
        lexical_score = some 9;
        vector_score = some 9;
        fused_score = 32522;
        rerank_score = none;
        index_version = "1";
      }
      ∷ record {
        provenance = source_of 4;
        score = 16393;
        lexical_score = none;
        vector_score = some 8;
        fused_score = 16393;
        rerank_score = none;
        index_version = "1";
      }
      ∷ [];
}

finds : retrieve ports request [] ≡ (ok found, (retrieve ports request []).1)
unfolding retrieve after_authorize after_lexical after_vector reranker_output_is_valid
    reciprocal_rank_fusion sort_desc fuse_one same_chunk same_provenance
finds = refl

retrieve-IsGrounded_example : IsGrounded ports request found
retrieve-IsGrounded_example =
    retrieve-IsGrounded ports request [] (retrieve ports request []).1 found finds
