-- ===== src/Retrieval/Bounds.antt =====
-- What a retrieval returns, whatever the searches and the reranker answer.
use agora_opencode.Prelude.{
  ℕ, zero, suc, ◌*◌, ◌≤◌, ◌≡◌, ◌≢◌, refl, sym, ap, ◌∙◌, subst, true, false, ◌&&◌, Option, none,
  some, List, [], ◌∷◌, map, arith, Result, ok, err, ok-injective, Mem, All, All-of_mem, all-mem,
  Bool-cases, inl, inr, ◌⊎◌, length, contains, are_distinct, is_nil, dict_of, lookup,
  lookup-dict_of,
}
use text.Mathlib.TextEquality.{eq_iff}
use agora_opencode.Retrieval.Types.{
  index_mismatch, lexical_only, undegraded, HybridCandidate, Provenance, RetrievalAttempt,
  RetrievalRequest, RetrievalResult, RetrievedChunk, Score, chunk_id, same_chunk, same_provenance,
}
use agora_opencode.Retrieval.Fusion.{is_copy, reciprocal_rank_fusion, reranker_output_is_valid}
use agora_opencode.Retrieval.Retriever.{
  Ports, PortError, VectorArm, after_authorize, after_lexical, after_vector, conclude, degraded,
  fuse_and_rerank, mismatch, permanent, retrieve, scoped_to, selected, take, transient,
}
use agora_opencode.Retrieval.Distinct.{From, fusion-From, fusion-distinct}

same_provenance-eq : (a b : Provenance) → same_provenance a b ≡ true → a ≡ b
unfolding same_provenance
same_provenance-eq a b e = ground (
  arith,
  eq_iff a.citation b.citation,
  eq_iff a.text b.text,
  eq_iff a.source_content_hash b.source_content_hash,
  eq_iff a.content_hash b.content_hash,
  eq_iff a.locator b.locator,
  eq_iff a.chunker_version b.chunker_version,
  eq_iff a.trust_level b.trust_level,
)

module _ {S : Type 0} where
  length-take-le : (k : ℕ) (xs : List (RetrievedChunk S)) → length (take k xs) ≤ k
  length-take-le zero xs = omega arith
  length-take-le (suc k) [] = omega arith
  length-take-le (suc k) (x ∷ xs) = omega (arith, length-take-le k xs)

  mem-take :
      (k : ℕ) (x : RetrievedChunk S) (xs : List (RetrievedChunk S)) → Mem x (take k xs) → Mem x xs
  mem-take zero x xs m = elim m [ ]
  mem-take (suc k) x [] m = elim m [ ]
  mem-take (suc k) x (y ∷ ys) (inl e) = inl e
  mem-take (suc k) x (y ∷ ys) (inr m) = inr (mem-take k x ys m)

  take-contains :
      (j k : ℕ) (xs : List (RetrievedChunk S))
      → contains j (map chunk_id xs) ≡ false
      → contains j (map chunk_id (take k xs)) ≡ false
  take-contains j zero xs e = refl
  take-contains j (suc k) [] e = refl
  take-contains j (suc k) (x ∷ xs) e = ground (arith, take-contains j k xs)

  take-distinct :
      (k : ℕ) (xs : List (RetrievedChunk S))
      → are_distinct (map chunk_id xs) ≡ true
      → are_distinct (map chunk_id (take k xs)) ≡ true
  take-distinct zero xs u = refl
  take-distinct (suc k) [] u = refl
  take-distinct (suc k) (x ∷ xs) u =
      ground (arith, take-distinct k xs, take-contains (chunk_id x) k xs (ground arith))

module _ {S : Type 0} ⦃o : Score S⦄ where
  -- At most `k` chunks, no id twice, each with the provenance of a candidate of the arms.
  pub record Within (k : ℕ) (lexical vector : List (HybridCandidate S))
      (chunks : List (RetrievedChunk S)) : Type 0 where
    pub few : length chunks ≤ k
    pub distinct : are_distinct (map chunk_id chunks) ≡ true
    pub from : All (From lexical vector) chunks

  same_chunk-provenance :
      (a b : RetrievedChunk S) → same_chunk a b ≡ true → a.provenance ≡ b.provenance
  unfolding same_chunk
  same_chunk-provenance a b e = same_provenance-eq a.provenance b.provenance (ground arith)

  is_copy-From :
      (lexical vector : List (HybridCandidate S)) (fused : List (RetrievedChunk S))
      → ((x : RetrievedChunk S) → Mem x fused → From lexical vector x)
      → (x : RetrievedChunk S) → is_copy (dict_of chunk_id fused) x ≡ true
      → From lexical vector x
  is_copy-From lexical vector fused whence x e =
      go (lookup (chunk_id x) (dict_of chunk_id fused)) refl e
    where
      go :
          (found : Option (RetrievedChunk S))
          → lookup (chunk_id x) (dict_of chunk_id fused) ≡ found
          → elim found [ none ↦ false | some original ↦ same_chunk x original ] ≡ true
          → From lexical vector x
      go none f e' = absurd (cc)
      go (some original) f e' =
          let (_, m) = lookup-dict_of chunk_id (chunk_id x) fused original f in
          let (c, there, same) = whence original m in
          (c, there, same_chunk-provenance x original e' ∙ same)

  reranked-Within :
      (k : ℕ) (lexical vector : List (HybridCandidate S)) (fused reranked : List (RetrievedChunk S))
      → ((x : RetrievedChunk S) → Mem x fused → From lexical vector x)
      → reranker_output_is_valid reranked fused k ≡ true
      → Within k lexical vector reranked
  unfolding reranker_output_is_valid
  reranked-Within k lexical vector fused reranked whence e = record {
    few = ground arith;
    distinct = ground arith;
    from = All-of_mem (From lexical vector) reranked λ x m.
        is_copy-From lexical vector fused whence x
          (all-mem (is_copy (dict_of chunk_id fused)) x reranked (ground arith) m);
  }

  taken-Within :
      (k : ℕ) (lexical vector : List (HybridCandidate S)) (fused : List (RetrievedChunk S))
      → ((x : RetrievedChunk S) → Mem x fused → From lexical vector x)
      → are_distinct (map chunk_id fused) ≡ true
      → Within k lexical vector (take k fused)
  taken-Within k lexical vector fused whence u = record {
    few = length-take-le k fused;
    distinct = take-distinct k fused u;
    from = All-of_mem (From lexical vector) (take k fused) λ x m. whence x (mem-take k x fused m);
  }

  module _ (p : Ports S) (r : RetrievalRequest) where
    -- What a result rests on: the namespaces that were authorized, the candidates that the searches
    -- returned for these, of the vector search none where it failed, and chunks within these.
    pub record IsGrounded (x : RetrievalResult S) : Type 0 where
      pub lexical : List (HybridCandidate S)
      pub vector : List (HybridCandidate S)
      pub authorized : p.authorize r ≡ ok x.searched_namespace_ids
      pub searched : p.lexical (scoped_to p r x.searched_namespace_ids) (r.final_k * 3) ≡ ok lexical
      pub vectors :
          (p.vector (scoped_to p r x.searched_namespace_ids) (r.final_k * 3) ≡ ok vector)
          ⊎ (vector ≡ [])
      pub within : Within r.final_k lexical vector x.chunks
      pub expected : r.expected_match ≡ true → x.chunks ≢ []

    selected-Within :
        (namespaces : List ℕ) (lexical : List (HybridCandidate S)) (v : VectorArm S)
        → (fused : List (RetrievedChunk S))
        → ((x : RetrievedChunk S) → Mem x fused → From lexical v.candidates x)
        → are_distinct (map chunk_id fused) ≡ true
        → (out : Result PortError (List (RetrievedChunk S)))
        → Within r.final_k lexical v.candidates (selected p r namespaces lexical v fused out).chunks
          × ((selected p r namespaces lexical v fused out).searched_namespace_ids ≡ namespaces)
    unfolding selected
    selected-Within namespaces lexical v fused whence u (err x) =
        (taken-Within r.final_k lexical v.candidates fused whence u, refl)
    selected-Within namespaces lexical v fused whence u (ok reranked) =
        elim (Bool-cases (reranker_output_is_valid reranked fused r.final_k)) [
          | inl fine ↦
              rw fine
                (reranked-Within r.final_k lexical v.candidates fused reranked whence fine, refl)
          | inr bad ↦ rw bad (taken-Within r.final_k lexical v.candidates fused whence u, refl)
        ]

    conclude-ok :
        (x y : RetrievalResult S) (audit audit' : List RetrievalAttempt)
        → conclude p r x audit ≡ (ok y, audit')
        → (x ≡ y) × ((r.expected_match && is_nil x.chunks) ≡ false)
    unfolding conclude
    conclude-ok x y audit audit' e = elim (Bool-cases (r.expected_match && is_nil x.chunks)) [
      | inl empty ↦ absurd (ground (arith, ap (λ z. z.0) (rw empty at e)))
      | inr usual ↦ (ok-injective (ap (λ z. z.0) (rw usual at e)), usual)
    ]

    module _ (audit audit' : List RetrievalAttempt) (y : RetrievalResult S) where
      rerank-IsGrounded :
          (namespaces : List ℕ) (lexical : List (HybridCandidate S)) (v : VectorArm S)
          → p.authorize r ≡ ok namespaces
          → p.lexical (scoped_to p r namespaces) (r.final_k * 3) ≡ ok lexical
          → (p.vector (scoped_to p r namespaces) (r.final_k * 3) ≡ ok v.candidates)
            ⊎ (v.candidates ≡ [])
          → fuse_and_rerank p r namespaces lexical v audit ≡ (ok y, audit')
          → IsGrounded y
      unfolding fuse_and_rerank
      rerank-IsGrounded namespaces lexical v a l w e =
          let fused = reciprocal_rank_fusion r.index_version lexical v.candidates in
          let x = selected p r namespaces lexical v fused (p.rerank r.query fused r.final_k) in
          let (same, kept) = conclude-ok x y audit audit' e in
          let (within, there) =
            selected-Within namespaces lexical v fused
              (fusion-From r.index_version lexical v.candidates)
              (fusion-distinct r.index_version lexical v.candidates)
              (p.rerank r.query fused r.final_k) in
          subst IsGrounded same (grounded x within there kept)
        where
          grounded :
              (x : RetrievalResult S)
              → Within r.final_k lexical v.candidates x.chunks
              → x.searched_namespace_ids ≡ namespaces
              → (r.expected_match && is_nil x.chunks) ≡ false
              → IsGrounded x
          grounded x within there kept = record {
            lexical = lexical;
            vector = v.candidates;
            authorized = a ∙ ap ok (sym there);
            searched =
                subst (λ ns. p.lexical (scoped_to p r ns) (r.final_k * 3) ≡ ok lexical) (sym there)
                  l;
            vectors =
                subst
                  (λ ns.
                    (p.vector (scoped_to p r ns) (r.final_k * 3) ≡ ok v.candidates)
                    ⊎ (v.candidates ≡ []))
                  (sym there) w;
            within = within;
            expected = λ want nil. absurd (ground (arith, want, nil, kept));
          }

      vector-IsGrounded :
          (namespaces : List ℕ) (lexical : List (HybridCandidate S))
          → p.authorize r ≡ ok namespaces
          → p.lexical (scoped_to p r namespaces) (r.final_k * 3) ≡ ok lexical
          → (out : Result PortError (List (HybridCandidate S)))
          → p.vector (scoped_to p r namespaces) (r.final_k * 3) ≡ out
          → after_vector p r namespaces lexical audit out ≡ (ok y, audit')
          → IsGrounded y
      unfolding after_vector
      vector-IsGrounded namespaces lexical a l (ok vector) v e =
          rerank-IsGrounded namespaces lexical
            (record { candidates = vector; degradation = undegraded; warnings = [] }) a l (inl v) e
      vector-IsGrounded namespaces lexical a l (err transient) v e =
          rerank-IsGrounded namespaces lexical
            (degraded p r lexical_only "vector retrieval unavailable; lexical candidates retained")
            a l (inr refl) e
      vector-IsGrounded namespaces lexical a l (err mismatch) v e =
          rerank-IsGrounded namespaces lexical
            (degraded p r index_mismatch
              "vector index identity mismatch; lexical candidates retained")
            a l (inr refl) e
      vector-IsGrounded namespaces lexical a l (err permanent) v e =
          absurd (ground (arith, ap (λ z. z.0) e))

      lexical-IsGrounded :
          (namespaces : List ℕ)
          → p.authorize r ≡ ok namespaces
          → (out : Result PortError (List (HybridCandidate S)))
          → p.lexical (scoped_to p r namespaces) (r.final_k * 3) ≡ out
          → after_lexical p r namespaces audit out ≡ (ok y, audit')
          → IsGrounded y
      unfolding after_lexical
      lexical-IsGrounded namespaces a (ok lexical) l e =
          vector-IsGrounded namespaces lexical a l _ refl e
      lexical-IsGrounded namespaces a (err x) l e = absurd (ground (arith, ap (λ z. z.0) e))

      authorize-IsGrounded :
          (out : Result PortError (List ℕ))
          → p.authorize r ≡ out
          → after_authorize p r audit out ≡ (ok y, audit')
          → IsGrounded y
      unfolding after_authorize
      authorize-IsGrounded (ok (n ∷ ns)) a e = lexical-IsGrounded (n ∷ ns) a _ refl e
      authorize-IsGrounded (ok []) a e = absurd (ground (arith, ap (λ z. z.0) e))
      authorize-IsGrounded (err x) a e = absurd (ground (arith, ap (λ z. z.0) e))

      -- A result that is returned searched the namespaces that were authorized, has at most
      -- `final_k` chunks with distinct ids, each with the provenance of a candidate that the
      -- searches returned for these namespaces, whatever the reranker answers, and where a match
      -- was expected it is not empty.
      pub retrieve-IsGrounded : retrieve p r audit ≡ (ok y, audit') → IsGrounded y
      unfolding retrieve
      retrieve-IsGrounded e = authorize-IsGrounded (p.authorize r) refl e
