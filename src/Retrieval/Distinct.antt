-- ===== src/Retrieval/Distinct.antt =====
-- The chunks of a fusion: whence they come, and that no id occurs twice.
use agora_opencode.Prelude.{
  ℕ, suc, ◌≡◌, refl, ap, ◌∙◌, Bool, true, false, ◌||◌, String, List, [], ◌∷◌, map, arith, Mem,
  Bool-cases, inl, inr, ◌⊎◌, ◌==◌, contains, are_distinct, insert_desc, sort_desc, mem-sort_desc,
}
use agora_opencode.Retrieval.Types.{HybridCandidate, RetrievedChunk, Score, candidate_id, chunk_id}
use agora_opencode.Retrieval.Fusion.{
  Arm, lexical_arm, vector_arm, Fused, behind, chunk_of, fuse, fuse_arm, fuse_one, fused_of,
  nothing_fused, reciprocal_rank_fusion, set_default,
}

-- Sorting neither adds nor doubles a key.
module _ {A K : Type 0} (below : K → K → Bool) (key : A → K) (id : A → ℕ) where
  contains-insert_desc :
      (j : ℕ) (x : A) (xs : List A)
      → contains j (map id (insert_desc below key x xs)) ≡ (id x == j || contains j (map id xs))
  unfolding insert_desc
  contains-insert_desc j x [] = refl
  contains-insert_desc j x (y ∷ ys) = elim (Bool-cases (below (key x) (key y))) [
    | inl lt ↦ rw lt (ground (arith, contains-insert_desc j x ys))
    | inr ge ↦ rw ge refl
  ]

  contains-sort_desc :
      (j : ℕ) (xs : List A) → contains j (map id (sort_desc below key xs)) ≡ contains j (map id xs)
  unfolding sort_desc
  contains-sort_desc j [] = refl
  contains-sort_desc j (x ∷ xs) =
      contains-insert_desc j x (sort_desc below key xs)
      ∙ ap (λ b. id x == j || b) (contains-sort_desc j xs)

  insert_desc-distinct :
      (x : A) (xs : List A)
      → contains (id x) (map id xs) ≡ false
      → are_distinct (map id xs) ≡ true
      → are_distinct (map id (insert_desc below key x xs)) ≡ true
  unfolding insert_desc
  insert_desc-distinct x [] new u = refl
  insert_desc-distinct x (y ∷ ys) new u = elim (Bool-cases (below (key x) (key y))) [
    | inl lt ↦ rw lt (
        ground (
          arith,
          contains-insert_desc (id y) x ys,
          insert_desc-distinct x ys (ground arith) (ground arith),
        ))
    | inr ge ↦ rw ge (ground arith)
  ]

  sort_desc-distinct :
      (xs : List A)
      → are_distinct (map id xs) ≡ true
      → are_distinct (map id (sort_desc below key xs)) ≡ true
  unfolding sort_desc
  sort_desc-distinct [] u = refl
  sort_desc-distinct (x ∷ xs) u =
      insert_desc-distinct x (sort_desc below key xs) (contains-sort_desc (id x) xs ∙ ground arith)
        (sort_desc-distinct xs (ground arith))

module _ {S : Type 0} where
  contains-set_default :
      (j : ℕ) (c : HybridCandidate S) (xs : List (HybridCandidate S))
      → contains j (map candidate_id (set_default c xs))
        ≡ (candidate_id c == j || contains j (map candidate_id xs))
  unfolding set_default
  contains-set_default j c [] = refl
  contains-set_default j c (x ∷ xs) = ground (arith, contains-set_default j c xs)

  set_default-distinct :
      (c : HybridCandidate S) (xs : List (HybridCandidate S))
      → are_distinct (map candidate_id xs) ≡ true
      → are_distinct (map candidate_id (set_default c xs)) ≡ true
  unfolding set_default
  set_default-distinct c [] u = refl
  set_default-distinct c (x ∷ xs) u = elim (Bool-cases (candidate_id x == candidate_id c)) [
    | inl here ↦ rw here u
    | inr there ↦ rw there (
        ground (
          arith,
          contains-set_default (candidate_id x) c xs,
          set_default-distinct c xs (ground arith),
        ))
  ]

  mem-set_default :
      (a c : HybridCandidate S) (xs : List (HybridCandidate S))
      → Mem a (set_default c xs)
      → (a ≡ c) ⊎ Mem a xs
  unfolding set_default
  mem-set_default a c [] m = m
  mem-set_default a c (x ∷ xs) m = ground (arith, mem-set_default a c xs)

module _ {S : Type 0} ⦃o : Score S⦄ where
  candidates-of :
      (arm : Arm) (rank : ℕ) (c : HybridCandidate S) (f : Fused S)
      → (fuse_one arm rank c f).candidates ≡ set_default c f.candidates
  unfolding fuse_one
  candidates-of lexical_arm rank c f = refl
  candidates-of vector_arm rank c f = refl

  fuse_arm-distinct :
      (arm : Arm) (rank : ℕ) (cs : List (HybridCandidate S)) (f : Fused S)
      → are_distinct (map candidate_id f.candidates) ≡ true
      → are_distinct (map candidate_id (fuse_arm arm rank cs f).candidates) ≡ true
  unfolding fuse_arm
  fuse_arm-distinct arm rank [] f u = u
  fuse_arm-distinct arm rank (c ∷ cs) f u =
      fuse_arm-distinct arm (suc rank) cs (fuse_one arm rank c f)
        (rw (candidates-of arm rank c f) (set_default-distinct c f.candidates u))

  mem-fuse_arm :
      (a : HybridCandidate S) (arm : Arm) (rank : ℕ) (cs : List (HybridCandidate S)) (f : Fused S)
      → Mem a (fuse_arm arm rank cs f).candidates
      → Mem a cs ⊎ Mem a f.candidates
  unfolding fuse_arm
  mem-fuse_arm a arm rank [] f m = inr m
  mem-fuse_arm a arm rank (c ∷ cs) f m =
      elim (mem-fuse_arm a arm (suc rank) cs (fuse_one arm rank c f) m) [
        | inl later ↦ inl (inr later)
        | inr old ↦
            elim (mem-set_default a c f.candidates (rw (candidates-of arm rank c f) at old)) [
              | inl same ↦ inl (inl same)
              | inr older ↦ inr older
            ]
      ]

  map-chunk_of :
      (version : String) (f : Fused S) (cs : List (HybridCandidate S))
      → map chunk_id (map (chunk_of version f) cs) ≡ map candidate_id cs
  map-chunk_of version f [] = refl
  map-chunk_of version f (c ∷ cs) = ap (λ ks. candidate_id c ∷ ks) (map-chunk_of version f cs)

  -- A chunk has the provenance of a candidate of one of the arms.
  abbrev pub From : List (HybridCandidate S) → List (HybridCandidate S) → RetrievedChunk S → Type 0
  From lexical vector x =
      (c : HybridCandidate S) × (Mem c lexical ⊎ Mem c vector) × (x.provenance ≡ c.provenance)

  pub mem-chunks :
      (version : String) (f : Fused S) (cs : List (HybridCandidate S)) (x : RetrievedChunk S)
      → Mem x (map (chunk_of version f) cs)
      → (c : HybridCandidate S) × Mem c cs × (x ≡ chunk_of version f c)
  mem-chunks version f [] x m = elim m [ ]
  mem-chunks version f (c ∷ cs) x (inl e) = (c, inl refl, e)
  mem-chunks version f (c ∷ cs) x (inr m) =
      let (d, there, e) = mem-chunks version f cs x m in (d, inr there, e)

  module _ (version : String) (lexical vector : List (HybridCandidate S)) where
    -- No chunk id occurs twice in a fusion.
    pub fusion-distinct :
        are_distinct (map chunk_id (reciprocal_rank_fusion version lexical vector)) ≡ true
    unfolding reciprocal_rank_fusion fuse
    fusion-distinct =
        let f = fuse lexical vector in
        let key : HybridCandidate S → S × ℕ = λ c. (fused_of f c, candidate_id c) in
        rw (map-chunk_of version f (sort_desc behind key f.candidates)) (
          sort_desc-distinct behind key candidate_id f.candidates (
            fuse_arm-distinct vector_arm 1 vector (fuse_arm lexical_arm 1 lexical nothing_fused)
              (fuse_arm-distinct lexical_arm 1 lexical nothing_fused refl)))

    -- Every chunk of a fusion comes from an arm.
    pub fusion-From :
        (x : RetrievedChunk S)
        → Mem x (reciprocal_rank_fusion version lexical vector)
        → From lexical vector x
    unfolding reciprocal_rank_fusion fuse
    fusion-From x m =
        let f = fuse lexical vector in
        let key : HybridCandidate S → S × ℕ = λ c. (fused_of f c, candidate_id c) in
        let (c, there, same) = mem-chunks version f (sort_desc behind key f.candidates) x m in
        let arms = fuse_arm lexical_arm 1 lexical nothing_fused in
        elim (mem-fuse_arm c vector_arm 1 vector arms
          (mem-sort_desc behind key c f.candidates there)) [
            | inl second ↦ (c, inr second, ap (λ (z : RetrievedChunk S). z.provenance) same)
            | inr old ↦ elim (mem-fuse_arm c lexical_arm 1 lexical nothing_fused old) [
              | inl first ↦ (c, inl first, ap (λ (z : RetrievedChunk S). z.provenance) same)
              | inr nothing ↦ elim nothing [ ]
            ]
          ]
