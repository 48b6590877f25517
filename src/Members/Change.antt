-- ===== src/Members/Change.antt =====
-- What an approved intervention makes of the members, and that a snapshot of them is valid again.
use agora_opencode.Prelude.{
  ok-injective, ℕ, ◌≡◌, refl, sym, Option, none, some, List, [], ◌∷◌, ◌++◌, map, arith, ok, All,
  Bool-cases, inl, inr, ◌==◌, if◌then◌else◌, subst, >>=-eq-ok,
}
use agora_opencode.Ledger.Append.{some-inj}
use agora_opencode.Members.Types.{AgentDefinition, MembershipInterventionKind, replace, inject}
use agora_opencode.Members.Store.{
  join_with, Placed, SessionAgent, find_definition, join_definitions, initial_members, intervene,
  intervene_by, replace_first, or_broken, replay_members,
}

-- The members after an intervention: the replaced definition gives way to the new one in its place,
-- or the new one comes last.
abbrev pub changed :
    MembershipInterventionKind
    → Option ℕ
    → AgentDefinition
    → List AgentDefinition
    → List AgentDefinition
changed inject replaced d ds = ds ++ (d ∷ [])
changed replace none d ds = ds
changed replace (some k) d ds = map (λ (x : AgentDefinition). if x.id == k then d else x) ds

-- Every member is the definition of its id.
abbrev pub IsStored : ℕ → List AgentDefinition → AgentDefinition → Type 0
IsStored w table x = find_definition w x.id table ≡ some x

pub find_definition-keys :
    (w k : ℕ) (table : List AgentDefinition) (d : AgentDefinition)
    → find_definition w k table ≡ some d
    → (d.workspace_id ≡ w) × (d.id ≡ k)
unfolding find_definition
find_definition-keys w k [] d e = absurd (ground arith)
find_definition-keys w k (x ∷ xs) d e = ground (arith, find_definition-keys w k xs d)

pub find_definition-IsStored :
    (w k : ℕ) (table : List AgentDefinition) (d : AgentDefinition)
    → find_definition w k table ≡ some d
    → IsStored w table d
find_definition-IsStored w k table d e =
    let (_, same) = find_definition-keys w k table d e in
    subst (λ j. find_definition w j table ≡ some d) (sym same) e

module _ (w : ℕ) (table : List AgentDefinition) where
  join_with-IsStored :
      (k : ℕ) (o : Option AgentDefinition) (rest : List AgentDefinition)
      → find_definition w k table ≡ o
      → All (IsStored w table) rest
      → All (IsStored w table) (join_with o rest)
  join_with-IsStored k none rest f a = a
  join_with-IsStored k (some d) rest f a = (find_definition-IsStored w k table d f, a)

  join-IsStored : (as' : List SessionAgent) → All (IsStored w table) (join_definitions w table as')
  unfolding join_definitions
  join-IsStored [] = tt
  join-IsStored (a ∷ as') =
      join_with-IsStored a.agent_def_id (find_definition w a.agent_def_id table)
        (join_definitions w table as') refl (join-IsStored as')

  All-snoc :
      (xs : List AgentDefinition) (d : AgentDefinition)
      → All (IsStored w table) xs
      → IsStored w table d
      → All (IsStored w table) (xs ++ (d ∷ []))
  All-snoc [] d a s = (s, tt)
  All-snoc (x ∷ xs) d a s = (a.0, All-snoc xs d a.1 s)

  All-replace_first :
      (o : Option ℕ) (d : AgentDefinition) (xs ys : List AgentDefinition)
      → replace_first o d xs ≡ some ys
      → All (IsStored w table) xs
      → IsStored w table d
      → All (IsStored w table) ys
  unfolding replace_first
  All-replace_first none d xs ys e a s = absurd (ground arith)
  All-replace_first (some k) d [] ys e a s = absurd (ground arith)
  All-replace_first (some k) d (x ∷ xs) ys e a s = elim (Bool-cases (x.id == k)) [
    | inl here ↦ subst (All (IsStored w table)) (some-inj (rw here at e)) (s, a.1)
    | inr there ↦
        go (replace_first (some k) d xs) refl (rw there at e) (All-replace_first (some k) d xs)
  ]
    where
      go :
          (o : Option (List AgentDefinition))
          → replace_first (some k) d xs ≡ o
          → elim o [ none ↦ none | some zs ↦ some (x ∷ zs) ] ≡ some ys
          → ((zs : List AgentDefinition)
              → replace_first (some k) d xs ≡ some zs
              → All (IsStored w table) xs
              → IsStored w table d
              → All (IsStored w table) zs)
          → All (IsStored w table) ys
      go none f e' ih = absurd (cc)
      go (some zs) f e' ih = subst (All (IsStored w table)) (some-inj e') (a.0, ih zs f a.1 s)

  intervene-IsStored :
      (kind : MembershipInterventionKind) (o : Option ℕ) (d : AgentDefinition)
      → (xs ys : List AgentDefinition) → intervene kind o d xs ≡ ok ys
      → All (IsStored w table) xs
      → IsStored w table d
      → All (IsStored w table) ys
  unfolding intervene
  intervene-IsStored replace o d xs ys e a s = go (replace_first o d xs) refl e
    where
      go :
          (r : Option (List AgentDefinition))
          → replace_first o d xs ≡ r
          → or_broken r ≡ ok ys
          → All (IsStored w table) ys
      go none f e' = absurd (cc)
      go (some zs) f e' =
          subst (All (IsStored w table)) (ok-injective e') (All-replace_first o d xs zs f a s)
  intervene-IsStored inject o d xs ys e a s =
      subst (All (IsStored w table)) (ok-injective e) (All-snoc xs d a s)

  replay-IsStored :
      (ps : List Placed) (xs ys : List AgentDefinition)
      → replay_members w table ps xs ≡ ok ys
      → All (IsStored w table) xs
      → All (IsStored w table) ys
  unfolding replay_members
  replay-IsStored [] xs ys e a = subst (All (IsStored w table)) (ok-injective e) a
  replay-IsStored (p ∷ ps) xs ys e a =
      let i = p.intervention in
      let (mid, first, rest) =
        >>=-eq-ok (intervene_by i xs (find_definition w i.agent_definition_id table))
          (replay_members w table ps) e in
      replay-IsStored ps mid ys rest
        (go (find_definition w i.agent_definition_id table) refl mid first)
    where
      go :
          (o : Option AgentDefinition)
          → find_definition w p.intervention.agent_definition_id table ≡ o
          → (mid : List AgentDefinition) → intervene_by p.intervention xs o ≡ ok mid
          → All (IsStored w table) mid
      go none f mid e' = absurd (cc)
      go (some d) f mid e' =
          intervene-IsStored p.intervention.kind p.intervention.replaced_agent_definition_id d xs
            mid e' a (find_definition-IsStored w p.intervention.agent_definition_id table d f)

  -- The members of a session are definitions of the table.
  pub members-IsStored :
      (s : ℕ) (ps : List Placed) (as' : List SessionAgent) (ys : List AgentDefinition)
      → replay_members w table ps (initial_members w s table as') ≡ ok ys
      → All (IsStored w table) ys
  unfolding initial_members
  members-IsStored s ps as' ys e = replay-IsStored ps _ ys e (join-IsStored _)
