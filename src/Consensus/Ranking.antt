-- ===== src/Consensus/Ranking.antt =====
-- The ranking of backend/app/application/consensus.py: sorted by descending rank score and numbered
-- from 1, with no alternative lost.
use agora_opencode.Prelude.{
  ℕ, ◌+◌, ◌≡◌, refl, sym, ap, ◌∙◌, inl, inr, false, List, [], ◌∷◌, map, Mem, All, IsDescending,
  sort_desc, sort_desc-IsDescending, sort_desc-Permᴰ, mem-sort_desc, subst,
}
use mathlib.Core.List.{Permᴰ}
use mathlib.Core.List.Permᴰ as PermD
use agora_opencode.Decimal.{Decimal}
use agora_opencode.Consensus.Types.{Uuid, AlternativeScore, ConsensusContext}
use agora_opencode.Consensus.Outcome.{Weighed, table_of, number_from, rank_key, rank_weighed}
use agora_opencode.Consensus.Contract.{IsFeasible, InUnit, IsSoundScore}

-- `i, i + 1, …`, `n` of them
abbrev pub upward {ℓ} : {A : Type ℓ} → ℕ → List A → List ℕ
upward i [] = []
upward i (x ∷ xs) = i ∷ upward (i + 1) xs

pub mem-map {ℓ κ} :
    {A : Type ℓ} {B : Type κ} (f : A → B) (b : B) (xs : List A)
    → Mem b (map f xs)
    → (a : A) × Mem a xs × (f a ≡ b)
mem-map f b [] m = elim m [ ]
mem-map f b (x ∷ xs) m = elim m [
  | inl e ↦ (x, inl refl, sym e)
  | inr n ↦ let (a, h, e) = mem-map f b xs n in (a, inr h, e)
]

map-map :
    {A B C : Type 0} (f : B → C) (g : A → B) (xs : List A)
    → map f (map g xs) ≡ map (λ x. f (g x)) xs
map-map f g [] = refl
map-map f g (x ∷ xs) = rw (map-map f g xs) refl

module _ {D : Type 0} where
  -- Numbering changes the ranks only.
  number_from-map {ℓ} :
      {B : Type ℓ} (f : AlternativeScore D → B)
      → ((s : AlternativeScore D) (i : ℕ) → f (record s { rank = i }) ≡ f s)
      → (i : ℕ) (ss : List (AlternativeScore D)) → map f (number_from i ss) ≡ map f ss
  unfolding number_from
  number_from-map f keep i [] = refl
  number_from-map f keep i (s ∷ ss) = rw (keep s i, number_from-map f keep (i + 1) ss) refl

  number_from-ranks :
      (i : ℕ) (ss : List (AlternativeScore D))
      → map (λ (s : AlternativeScore D). s.rank) (number_from i ss) ≡ upward i ss
  unfolding number_from
  number_from-ranks i [] = refl
  number_from-ranks i (s ∷ ss) = rw (number_from-ranks (i + 1) ss) refl

  upward-number_from :
      (i j : ℕ) (ss : List (AlternativeScore D)) → upward j (number_from i ss) ≡ upward j ss
  unfolding number_from
  upward-number_from i j [] = refl
  upward-number_from i j (s ∷ ss) = rw (upward-number_from (i + 1) (j + 1) ss) refl

  mem-number_from :
      (i : ℕ) (s : AlternativeScore D) (ss : List (AlternativeScore D))
      → Mem s (number_from i ss)
      → (t : AlternativeScore D) × Mem t ss
        × (t.alternative_id ≡ s.alternative_id)
        × (t.support ≡ s.support)
  unfolding number_from
  mem-number_from i s [] m = elim m [ ]
  mem-number_from i s (t ∷ ts) m = elim m [
    | inl e ↦ (
      t,
      inl refl,
      sym (ap (λ (u : AlternativeScore D). u.alternative_id) e),
      sym (ap (λ (u : AlternativeScore D). u.support) e),
    )
    | inr n ↦ let (u, h, e, e') = mem-number_from (i + 1) s ts n in (u, inr h, e, e')
  ]

module _ {D : Type 0} ⦃d : Decimal D⦄ where
  -- What holds of each score that the loop makes holds of the ranking's.
  pub ranked-IsSoundScore :
      (c : ConsensusContext D) (ws : List (Weighed D))
      → ((w : Weighed D) → Mem w ws → IsSoundScore c w.score)
      → (s : AlternativeScore D) → Mem s (rank_weighed ws)
      → IsSoundScore c s
  unfolding rank_weighed
  ranked-IsSoundScore c ws sound s m =
      let key = rank_key (table_of (λ (w : Weighed D). w.rank_score) ws) in
      let scores = map (λ (w : Weighed D). w.score) ws in
      let (t, mt, ei, es) = mem-number_from 1 s (sort_desc d.below key scores) m in
      let (w, mw, ew) =
        mem-map (λ (w : Weighed D). w.score) t ws (mem-sort_desc d.below key t scores mt) in
      let st : IsSoundScore c t = subst (IsSoundScore c) ew (sound w mw) in
      (subst (IsFeasible c) ei st.0, subst InUnit es st.1)

  IsDescending-number_from :
      (table : List (Uuid × D)) (i : ℕ) (ss : List (AlternativeScore D))
      → IsDescending d.below (rank_key table) ss
      → IsDescending d.below (rank_key table) (number_from i ss)
  unfolding number_from
  IsDescending-number_from table i [] h = tt
  IsDescending-number_from table i (s ∷ ss) h =
      (all-number_from s (i + 1) ss h.0, IsDescending-number_from table (i + 1) ss h.1)
    where
      all-number_from :
          (s : AlternativeScore D) (i : ℕ) (ts : List (AlternativeScore D))
          → All (λ t. d.below (rank_key table s) (rank_key table t) ≡ false) ts
          → All (λ t. d.below (rank_key table s) (rank_key table t) ≡ false) (number_from i ts)
      all-number_from s i [] a = tt
      all-number_from s i (t ∷ ts) a = (a.0, all-number_from s (i + 1) ts a.1)

  -- Scores in descending order of the rank scores, numbered 1, 2, …, and a rearrangement of the
  -- alternatives weighed.
  abbrev pub IsRankingOf : List (Weighed D) → List (AlternativeScore D) → Type 0
  IsRankingOf ws scores =
      IsDescending d.below (rank_key (table_of (λ (w : Weighed D). w.rank_score) ws)) scores
      × (map (λ (s : AlternativeScore D). s.rank) scores ≡ upward 1 scores)
      × Permᴰ (map (λ (s : AlternativeScore D). s.alternative_id) scores)
          (map (λ (w : Weighed D). w.score.alternative_id) ws)

  -- The ranking is in descending order of the rank scores, numbered from 1, and a rearrangement
  -- of the alternatives weighed.
  pub rank_weighed-IsRankingOf : (ws : List (Weighed D)) → IsRankingOf ws (rank_weighed ws)
  unfolding rank_weighed
  rank_weighed-IsRankingOf ws =
      let key = rank_key (table_of (λ (w : Weighed D). w.rank_score) ws) in
      let scores = map (λ (w : Weighed D). w.score) ws in
      let sorted = sort_desc d.below key scores in
      (
        IsDescending-number_from (table_of (λ (w : Weighed D). w.rank_score) ws) 1 sorted
            (sort_desc-IsDescending d.below key d.below_asym d.below_between scores),
        number_from-ranks 1 sorted ∙ sym (upward-number_from 1 1 sorted),
        rw (number_from-map (λ (s : AlternativeScore D). s.alternative_id) (λ s i. refl) 1 sorted) (
            subst
              (λ (l : List Uuid).
                Permᴰ (map (λ (s : AlternativeScore D). s.alternative_id) sorted) l)
              (map-map (λ (s : AlternativeScore D). s.alternative_id) (λ (w : Weighed D). w.score)
                ws)
              (PermD.map (λ (s : AlternativeScore D). s.alternative_id)
                (sort_desc-Permᴰ d.below key scores))),
      )
