-- ===== src/Members/Approve.antt =====
-- What a membership that could be read, and an approved intervention, have established.
use agora_opencode.Prelude.{
  ℕ, ◌≡◌, refl, sym, ap, ◌∙◌, subst, true, false, Option, none, some, List, arith, Result, ok, err,
  ◌>>◌, >>=-eq-ok, ok-injective, Bool-cases, inl, inr, ◌==◌,
}
use agora_opencode.Ledger.Defs.{Hashing}
use agora_opencode.Session.States.{LifecycleError, SessionLifecycle}
use agora_opencode.Session.Store.{get}
use agora_opencode.Members.Types.{
  AgentDefinition, MembershipError, MembershipIntervention, MembershipSnapshot, snapshot_is_valid,
}
use agora_opencode.Members.Store.{
  MemberTables, effective_members, find_definition, membership, snapshot,
}
use agora_opencode.Members.Coordinator.{
  Approved, approve, check_change, check_definition, check_lifecycle, lifecycle_of,
}
use agora_opencode.Members.Valid.{of_members}

snapshot-inv :
    (w s round : ℕ) (ds : List AgentDefinition) (m : MembershipSnapshot)
    → snapshot w s round ds ≡ ok m
    → (snapshot_is_valid (of_members w s round ds) ≡ true) × (of_members w s round ds ≡ m)
unfolding snapshot
snapshot-inv w s round ds m e = elim (Bool-cases (snapshot_is_valid (of_members w s round ds))) [
  | inl v ↦ (v, ok-injective (rw v at e))
  | inr v ↦ absurd (ground (arith, rw v at e))
]

pub snapshot-of_valid :
    (w s round : ℕ) (ds : List AgentDefinition)
    → snapshot_is_valid (of_members w s round ds) ≡ true
    → snapshot w s round ds ≡ ok (of_members w s round ds)
unfolding snapshot
snapshot-of_valid w s round ds v = rw v refl

module _ {H : Type 0} where
  -- What a membership that could be read says of the members.
  pub record Members (w s round : ℕ) (t : MemberTables H) (m : MembershipSnapshot) : Type 0 where
    pub positive : (round == 0) ≡ false
    pub replayed : effective_members w s round t ≡ ok m.definitions
    pub snapped : m ≡ of_members w s round m.definitions
    pub valid : snapshot_is_valid (of_members w s round m.definitions) ≡ true

  pub membership-inv :
      (w s round : ℕ) (t : MemberTables H) (m : MembershipSnapshot)
      → membership w s round t ≡ ok m
      → Members w s round t m
  unfolding membership
  membership-inv w s round t m e = elim (Bool-cases (round == 0)) [
    | inl z ↦ absurd (ground (arith, rw z at e))
    | inr z ↦
        let (ds, ran, made) =
          >>=-eq-ok (effective_members w s round t) (snapshot w s round) (rw z at e) in
        let (v, same) = snapshot-inv w s round ds m made in
        let here : ds ≡ m.definitions = ap (λ (x : MembershipSnapshot). x.definitions) same in
        record {
          positive = z;
          replayed = ran ∙ ap ok here;
          snapped = sym same ∙ ap (of_members w s round) here;
          valid = subst (λ xs. snapshot_is_valid (of_members w s round xs) ≡ true) here v;
        }
  ]

check_definition-inv :
    (q : MembershipIntervention) (o : Option AgentDefinition) (d : AgentDefinition)
    → check_definition q o ≡ ok d
    → o ≡ some d
unfolding check_definition
check_definition-inv q none d e = absurd (ground arith)
check_definition-inv q (some x) d e = ground arith

module _ {H : Type 0} ⦃h : Hashing H⦄
    (view : SessionLifecycle → Result LifecycleError SessionLifecycle) where
  -- What the approval of an intervention has established.
  pub record Checked (q : MembershipIntervention) (t : MemberTables H) (a : Approved) : Type 0 where
    pub defined :
        find_definition q.workspace_id q.agent_definition_id t.definitions ≡ some a.definition
    pub before : membership q.workspace_id q.session_id q.effective_round t ≡ ok a.current
    pub allowed :
        check_change q.kind q.replaced_agent_definition_id a.definition a.current.definitions
        ≡ ok tt

  pub approve-Checked :
      (q : MembershipIntervention) (t : MemberTables H) (a : Approved)
      → approve view q t ≡ ok a
      → Checked q t a
  unfolding approve
  approve-Checked q t a e =
      let (found, _, e1) =
        >>=-eq-ok (lifecycle_of (get view q.workspace_id q.session_id t.sessions)) _ e in
      let (r, _, e2) = >>=-eq-ok (check_lifecycle q found) _ e1 in
      let (d, defined, e3) =
        >>=-eq-ok
          (check_definition q (find_definition q.workspace_id q.agent_definition_id t.definitions))
          _ e2 in
      let (current, before, e4) =
        >>=-eq-ok (membership q.workspace_id q.session_id q.effective_round t) _ e3 in
      last r d current (check_definition-inv q _ d defined) before
        (check_change q.kind q.replaced_agent_definition_id d current.definitions) refl e4
    where
      last :
          (r : SessionLifecycle) (d : AgentDefinition) (current : MembershipSnapshot)
          → find_definition q.workspace_id q.agent_definition_id t.definitions ≡ some d
          → membership q.workspace_id q.session_id q.effective_round t ≡ ok current
          → (c : Result MembershipError (Unit {0}))
          → check_change q.kind q.replaced_agent_definition_id d current.definitions ≡ c
          → (c >> ok (record { row = r; definition = d; current = current })) ≡ ok a
          → Checked q t a
      last r d current defined before (err x) same e' = absurd (cc)
      last r d current defined before (ok u) same e' =
          subst (Checked q t) (ok-injective e')
            (record { defined = defined; before = before; allowed = same })
