-- ===== src/Members/Valid.antt =====
-- An approved change of a valid snapshot gives a valid snapshot.
use agora_opencode.Prelude.{
  ℕ, ◌≡◌, refl, sym, ap, ◌∙◌, Bool, true, false, not, Option, none, some, List, [], ◌∷◌, ◌++◌, map,
  arith, ok, Mem, All, Bool-cases, inl, inr, ◌==◌, if◌then◌else◌, all, any, contains, filter,
  lookup, are_distinct, is_nil, ==_iff, subst, lookup-dict_of, ==_refl,
}
use agora_opencode.Ledger.Append.{some-inj}
use agora_opencode.Members.Types.{
  AgentDefinition, MembershipInterventionKind, MembershipSnapshot, replace, inject, logical_ids,
  snapshot_is_valid,
}
use agora_opencode.Members.Store.{find_definition, intervene, replace_first}
use agora_opencode.Members.Coordinator.{by_id, check_change, check_replaced, final_logical_ids}
use agora_opencode.Members.Change.{IsStored, changed}

-- No member has the id.
abbrev lacks : ℕ → List AgentDefinition → Bool
lacks k = all (λ (x : AgentDefinition). not (x.id == k))

abbrev swap_in : ℕ → AgentDefinition → AgentDefinition → AgentDefinition
swap_in k d x = if x.id == k then d else x

abbrev keep_others : ℕ → List AgentDefinition → List AgentDefinition
keep_others k = filter (λ (x : AgentDefinition). not (x.id == k))

module _ (w : ℕ) (table : List AgentDefinition) where
  -- Of valid members only one has a given id.
  lacks-of_distinct :
      (x : AgentDefinition) (xs : List AgentDefinition)
      → IsStored w table x
      → All (IsStored w table) xs
      → contains x.logical_id (logical_ids xs) ≡ false
      → lacks x.id xs ≡ true
  lacks-of_distinct x [] s a e = refl
  lacks-of_distinct x (y ∷ ys) s a e = elim (Bool-cases (y.id == x.id)) [
    | inr other ↦ rw other (lacks-of_distinct x ys s a.1 (ground arith))
    | inl same ↦
        let twin : y ≡ x =
          some-inj (sym a.0 ∙ ap (λ k. find_definition w k table) ((==_iff _ _).0 same) ∙ s) in
        absurd
          (ground (arith, e, ap (λ (z : AgentDefinition). z.logical_id) twin, ==_refl x.logical_id))
  ]

-- Where the id is missing nothing changes.
swap-lacks :
    (k : ℕ) (d : AgentDefinition) (xs : List AgentDefinition)
    → lacks k xs ≡ true
    → map (swap_in k d) xs ≡ xs
swap-lacks k d [] e = refl
swap-lacks k d (x ∷ xs) e = ground (arith, swap-lacks k d xs)

keep-lacks : (k : ℕ) (xs : List AgentDefinition) → lacks k xs ≡ true → keep_others k xs ≡ xs
keep-lacks k [] e = refl
keep-lacks k (x ∷ xs) e = ground (arith, keep-lacks k xs)

-- A logical id that is neither the new one nor among the old ones is not among the changed ones.
swap-contains :
    (j k : ℕ) (d : AgentDefinition) (xs : List AgentDefinition)
    → contains j (logical_ids xs) ≡ false
    → (d.logical_id == j) ≡ false
    → contains j (logical_ids (map (swap_in k d) xs)) ≡ false
swap-contains j k d [] e f = refl
swap-contains j k d (x ∷ xs) e f = elim (Bool-cases (x.id == k)) [
  | inl here ↦ rw here (ground (arith, swap-contains j k d xs))
  | inr there ↦ rw there (ground (arith, swap-contains j k d xs))
]

has_id : ℕ → List AgentDefinition → Bool
has_id k = any (λ (x : AgentDefinition). x.id == k)

module _ (w : ℕ) (table : List AgentDefinition) (k : ℕ) (d : AgentDefinition) where
  -- The replacement in place, of members with distinct logical ids.
  replace_first-changed :
      (xs : List AgentDefinition)
      → All (IsStored w table) xs
      → are_distinct (logical_ids xs) ≡ true
      → has_id k xs ≡ true
      → replace_first (some k) d xs ≡ some (map (swap_in k d) xs)
  unfolding replace_first has_id
  replace_first-changed [] a u e = absurd (ground arith)
  replace_first-changed (x ∷ xs) a u e = elim (Bool-cases (x.id == k)) [
    | inl here ↦
        let gone = lacks-of_distinct w table x xs a.0 a.1 (ground arith) in
        let same : x.id ≡ k = (==_iff _ _).0 here in
        rw here (ap (λ ys. some (d ∷ ys)) (sym (swap-lacks k d xs (rw same at gone))))
    | inr there ↦ rw (there, replace_first-changed xs a.1 (ground arith) (rw there at e)) refl
  ]

  swap-distinct :
      (xs : List AgentDefinition)
      → All (IsStored w table) xs
      → are_distinct (logical_ids xs) ≡ true
      → contains d.logical_id (logical_ids (keep_others k xs)) ≡ false
      → are_distinct (logical_ids (map (swap_in k d) xs)) ≡ true
  swap-distinct [] a u f = refl
  swap-distinct (x ∷ xs) a u f = elim (Bool-cases (x.id == k)) [
    | inl here ↦
        let gone = lacks-of_distinct w table x xs a.0 a.1 (ground arith) in
        let same : x.id ≡ k = (==_iff _ _).0 here in
        let gone' : lacks k xs ≡ true = rw same at gone in
        let f' = rw here at f in
        let f'' = rw (keep-lacks k xs gone') at f' in
        rw (here, swap-lacks k d xs gone') (ground (arith, f''))
    | inr there ↦
        let f' = rw there at f in
        let rest = swap-distinct xs a.1 (ground arith) (ground (arith, f')) in
        rw there (
          ground (
            arith,
            f',
            rest,
            swap-contains x.logical_id k d xs (ground arith) (ground (arith, f')),
          ))
  ]

  swap-workspace :
      (xs : List AgentDefinition)
      → all (λ (x : AgentDefinition). x.workspace_id == w) xs ≡ true
      → (d.workspace_id == w) ≡ true
      → all (λ (x : AgentDefinition). x.workspace_id == w) (map (swap_in k d) xs) ≡ true
  swap-workspace [] e f = refl
  swap-workspace (x ∷ xs) e f = elim (Bool-cases (x.id == k)) [
    | inl here ↦ rw here (ground (arith, swap-workspace xs))
    | inr there ↦ rw there (ground (arith, swap-workspace xs))
  ]

snoc-contains :
    (j : ℕ) (xs : List AgentDefinition) (d : AgentDefinition)
    → contains j (logical_ids xs) ≡ false
    → (d.logical_id == j) ≡ false
    → contains j (logical_ids (xs ++ (d ∷ []))) ≡ false
snoc-contains j [] d e f = ground arith
snoc-contains j (x ∷ xs) d e f = ground (arith, snoc-contains j xs d)

snoc-distinct :
    (xs : List AgentDefinition) (d : AgentDefinition)
    → are_distinct (logical_ids xs) ≡ true
    → contains d.logical_id (logical_ids xs) ≡ false
    → are_distinct (logical_ids (xs ++ (d ∷ []))) ≡ true
snoc-distinct [] d u f = refl
snoc-distinct (x ∷ xs) d u f = ground (
  arith,
  snoc-distinct xs d (ground arith) (ground arith),
  snoc-contains x.logical_id xs d (ground arith) (ground arith),
)

snoc-workspace :
    (w : ℕ) (xs : List AgentDefinition) (d : AgentDefinition)
    → all (λ (x : AgentDefinition). x.workspace_id == w) xs ≡ true
    → (d.workspace_id == w) ≡ true
    → all (λ (x : AgentDefinition). x.workspace_id == w) (xs ++ (d ∷ [])) ≡ true
snoc-workspace w [] d e f = rw f refl
snoc-workspace w (x ∷ xs) d e f = ground (arith, snoc-workspace w xs d)

snoc-is_nil : (xs : List AgentDefinition) (d : AgentDefinition) → is_nil (xs ++ (d ∷ [])) ≡ false
snoc-is_nil [] d = refl
snoc-is_nil (x ∷ xs) d = refl

mem-has_id :
    (k : ℕ) (r : AgentDefinition) (xs : List AgentDefinition)
    → r.id ≡ k
    → Mem r xs
    → has_id k xs ≡ true
unfolding has_id
mem-has_id k r [] e m = elim m [ ]
mem-has_id k r (x ∷ xs) e m = ground (arith, mem-has_id k r xs)

has_id-cons :
    (k : ℕ) (d : AgentDefinition) (xs : List AgentDefinition)
    → has_id k xs ≡ true
    → is_nil (map (swap_in k d) xs) ≡ false
unfolding has_id
has_id-cons k d [] e = absurd (ground arith)
has_id-cons k d (x ∷ xs) e = refl

-- What the tests of a change say, in the two kinds.
check_inject :
    (o : Option ℕ) (d : AgentDefinition) (ds : List AgentDefinition)
    → check_change inject o d ds ≡ ok tt
    → contains d.logical_id (logical_ids ds) ≡ false
unfolding check_change
check_inject o d ds e = ground arith

check_replace :
    (k : ℕ) (d : AgentDefinition) (ds : List AgentDefinition)
    → check_change replace (some k) d ds ≡ ok tt
    → (has_id k ds ≡ true) × (contains d.logical_id (logical_ids (keep_others k ds)) ≡ false)
unfolding check_change
check_replace k d ds e = go (lookup k (by_id ds)) refl e
  where
    go :
        (o : Option AgentDefinition)
        → lookup k (by_id ds) ≡ o
        → check_replaced d ds o ≡ ok tt
        → (has_id k ds ≡ true) × (contains d.logical_id (logical_ids (keep_others k ds)) ≡ false)
    go none f e' = absurd (cc)
    go (some r) f e' =
        let (same, m) = lookup-dict_of (λ (x : AgentDefinition). x.id) k ds r f in
        let free : contains d.logical_id (final_logical_ids r ds) ≡ false = ground arith in
        (
          mem-has_id k r ds same m,
          subst (λ j. contains d.logical_id (logical_ids (keep_others j ds)) ≡ false) same free,
        )

abbrev pub of_members : ℕ → ℕ → ℕ → List AgentDefinition → MembershipSnapshot
of_members w s round ds = record {
  workspace_id = w;
  session_id = s;
  round = round;
  definitions = ds;
}

module _ (w s round : ℕ) (table : List AgentDefinition) where
  -- An approved change succeeds, and keeps a snapshot valid.
  pub change-valid :
      (kind : MembershipInterventionKind) (o : Option ℕ) (d : AgentDefinition)
      → (ds : List AgentDefinition) → snapshot_is_valid (of_members w s round ds) ≡ true
      → All (IsStored w table) ds
      → (d.workspace_id == w) ≡ true
      → check_change kind o d ds ≡ ok tt
      → (intervene kind o d ds ≡ ok (changed kind o d ds))
        × (snapshot_is_valid (of_members w s round (changed kind o d ds)) ≡ true)
  unfolding snapshot_is_valid intervene check_change
  change-valid inject o d ds v a own e =
      let free = check_inject o d ds e in
      (
        refl,
        ground (
          arith,
          snoc-distinct ds d (ground arith) free,
          snoc-workspace w ds d (ground arith) own,
          snoc-is_nil ds d,
        ),
      )
  change-valid replace none d ds v a own e = absurd (ground arith)
  change-valid replace (some k) d ds v a own e =
      let (there, free) = check_replace k d ds e in
      let u : are_distinct (logical_ids ds) ≡ true = ground arith in
      (
        rw (replace_first-changed w table k d ds a u there) refl,
        ground (
          arith,
          swap-distinct w table k d ds a u free,
          swap-workspace w table k d ds (ground arith) own,
          has_id-cons k d ds there,
        ),
      )
