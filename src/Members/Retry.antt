-- ===== src/Members/Retry.antt =====
-- An intervention that was applied can be asked for again.
use agora_opencode.Prelude.{
  ◌≡◌, refl, ap, subst, Bool, true, false, Option, none, some, String, arith, Result, ok, err,
  Bool-cases, inl, inr, ==_refl,
}
use text.Mathlib.TextEquality.{eq_iff}
use agora_opencode.Ledger.Append.{same_option_refl}
use agora_opencode.Ledger.Defs.{Hashing, LedgerError, LedgerEvent, Tables}
use agora_opencode.Session.States.{LifecycleError, SessionLifecycle, same_bool}
use agora_opencode.Members.Types.{
  AgentDefinition, MembershipError, MembershipIntervention, MembershipSnapshot, same_intervention,
}
use agora_opencode.Members.Store.{MemberTables, find_intervention, membership, add_intervention}
use agora_opencode.Members.Coordinator.{
  Approved, after_append, after_added, apply, apply_after, approve, with_tables, write_intervention,
}

same_bool_refl : (b : Bool) → same_bool b b ≡ true
same_bool_refl true = refl
same_bool_refl false = refl

same_intervention_refl : (q : MembershipIntervention) → same_intervention q q ≡ true
unfolding same_intervention
same_intervention_refl q =
    simp (==_refl, same_bool_refl, same_option_refl, (eq_iff q.reason q.reason).1 refl) refl

module _ {H : Type 0} ⦃h : Hashing H⦄
    (view : SessionLifecycle → Result LifecycleError SessionLifecycle)
    (payload : MembershipIntervention → AgentDefinition → String) (q : MembershipIntervention) where
  -- The outcome of a call is what a reader of the membership sees, and the intervention is stored.
  record Stored (t : MemberTables H) (m : MembershipSnapshot) : Type 0 where
    there :
        (p : MembershipIntervention) × (find_intervention q.event_id t.interventions ≡ some p)
        × (same_intervention p q ≡ true)
    seen_by_all : membership q.workspace_id q.session_id q.effective_round t ≡ ok m

  again :
      (later : Tables H) (t : MemberTables H) (m : MembershipSnapshot)
      → Stored t m
      → apply view payload q later t ≡ (ok m, t)
  unfolding apply apply_after
  again later t m s = let (p, found, same) = s.there in rw (found, same, s.seen_by_all) refl

  answered-Stored :
      (t t' : MemberTables H) (m : MembershipSnapshot) (p : MembershipIntervention)
      → find_intervention q.event_id t.interventions ≡ some p
      → same_intervention p q ≡ true
      → ◌≡◌ {A = Result MembershipError MembershipSnapshot × MemberTables H}
          (membership q.workspace_id q.session_id q.effective_round t, t)
          (ok m, t')
      → Stored t' m
  answered-Stored t t' m p found same e =
      subst (λ x. Stored x m) (ap (λ x. x.1) e)
        (record { there = (p, found, same); seen_by_all = ap (λ x. x.0) e })

  added-Stored :
      (t t' : MemberTables H) (m : MembershipSnapshot)
      → find_intervention q.event_id t.interventions ≡ none
      → after_added q t (add_intervention q t) ≡ (ok m, t')
      → Stored t' m
  unfolding add_intervention find_intervention
  added-Stored t t' m fresh e =
      answered-Stored _ t' m q (rw (==_refl q.event_id) refl) (same_intervention_refl q)
        (rw fresh at e)

  append-Stored :
      (t t' : MemberTables H) (m : MembershipSnapshot)
      → (out : Result LedgerError (LedgerEvent H) × Tables H)
      → find_intervention q.event_id t.interventions ≡ none
      → after_append q t out ≡ (ok m, t')
      → Stored t' m
  append-Stored t t' m (err x, tables) fresh e = absurd (ground (arith, ap (λ x. x.0) e))
  append-Stored t t' m (ok x, tables) fresh e = added-Stored (with_tables tables t) t' m fresh e

  write-Stored :
      (seen : Tables H) (t t' : MemberTables H) (m : MembershipSnapshot)
      → (r : Result MembershipError Approved) → find_intervention q.event_id t.interventions ≡ none
      → write_intervention view payload q seen t r ≡ (ok m, t')
      → Stored t' m
  unfolding write_intervention
  write-Stored seen t t' m (err x) fresh e = absurd (ground (arith, ap (λ x. x.0) e))
  write-Stored seen t t' m (ok a) fresh e = append-Stored t t' m _ fresh e

  after-Stored :
      (seen : Tables H) (t t' : MemberTables H) (m : MembershipSnapshot)
      → (o : Option MembershipIntervention) → find_intervention q.event_id t.interventions ≡ o
      → apply_after view payload q seen t o ≡ (ok m, t')
      → Stored t' m
  unfolding apply_after
  after-Stored seen t t' m none f e = write-Stored seen t t' m (approve view q t) f e
  after-Stored seen t t' m (some p) f e = elim (Bool-cases (same_intervention p q)) [
    | inl same ↦ answered-Stored t t' m p f same (rw same at e)
    | inr other ↦ absurd (ground (arith, ap (λ x. x.0) (rw other at e)))
  ]

  -- A call that returned a snapshot, made again on the tables that it left, with whatever view
  -- of the ledger, returns the same snapshot and changes nothing.
  pub apply-retry :
      (seen later : Tables H) (t t' : MemberTables H) (m : MembershipSnapshot)
      → apply view payload q seen t ≡ (ok m, t')
      → apply view payload q later t' ≡ (ok m, t')
  unfolding apply
  apply-retry seen later t t' m e =
      again later t' m
        (after-Stored seen t t' m (find_intervention q.event_id t.interventions) refl e)
