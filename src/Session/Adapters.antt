-- ===== src/Session/Adapters.antt =====
-- The two stores: what both keep of the rows and of the ledger, and that they agree.
use agora_opencode.Prelude.{
  sym, Option, Bool-cases, ◌⊎◌, arith, Result, ltb, Mem, List, ℕ, ◌≡◌, refl, ok, err, inl, inr,
  false, some, none, [], ◌∷◌,
}
use agora_opencode.Ledger.Defs.{LedgerEvent, LedgerError, Tables, Hashing}
use agora_opencode.Session.States.{
  projection, LifecycleError, same_state, SessionTransition, SessionLifecycle, draft,
}
use agora_opencode.Session.Store.{
  memory_transition, is_replay, is_row, updated_row, check_transition, replayed, transition_row,
  moved, guarded, transition, set_row, find_row, Sessions,
}
use agora_opencode.Session.Transition.{IsSettled, updated-IsSettled}
use agora_opencode.Ledger.Append.{some-inj}

unfoldable pub AllSettled : List SessionLifecycle → Type 0
AllSettled rs = (r : SessionLifecycle) → Mem r rs → IsSettled r

-- The event is not older than the row that it moves.
unfoldable pub IsTimely : SessionTransition → List SessionLifecycle → Type 0
IsTimely c rs =
    (r : SessionLifecycle)
    → find_row c.event.workspace_id c.event.session_id rs ≡ some r
    → ltb c.event.recorded_at r.created_at ≡ false

mem-set_row :
    (x r : SessionLifecycle) (rs : List SessionLifecycle)
    → Mem r (set_row x rs)
    → (r ≡ x) ⊎ Mem r rs
unfolding set_row
mem-set_row x r [] m = inr m
mem-set_row x r (y ∷ ys) m = elim (Bool-cases (is_row x.workspace_id x.session_id y)) [
  | inl e ↦ ground (arith, rw e at m)
  | inr e ↦ ground (arith, rw e at m, mem-set_row x r ys)
]

find_row-mem :
    (w s : ℕ) (rs : List SessionLifecycle) (r : SessionLifecycle)
    → find_row w s rs ≡ some r
    → Mem r rs
unfolding find_row
find_row-mem w s [] r e = absurd (ground (arith, e))
find_row-mem w s (y ∷ ys) r e = elim (Bool-cases (is_row w s y)) [
  | inl h ↦ inl (some-inj (sym (rw h at e)))
  | inr h ↦ inr (find_row-mem w s ys r (rw h at e))
]

set_row-AllSettled :
    (x : SessionLifecycle) (rs : List SessionLifecycle)
    → IsSettled x
    → AllSettled rs
    → AllSettled (set_row x rs)
unfolding AllSettled
set_row-AllSettled x rs s a r m = elim (mem-set_row x r rs m) [ inl e ↦ rw e s | inr m' ↦ a r m' ]

IsSettled-after :
    (c : SessionTransition) (rs : List SessionLifecycle)
    → AllSettled rs
    → IsTimely c rs
    → same_state c.target draft ≡ false
    → (r : SessionLifecycle) → find_row c.event.workspace_id c.event.session_id rs ≡ some r
    → check_transition c r ≡ ok tt
    → IsSettled (updated_row c r)
unfolding AllSettled IsTimely
IsSettled-after c rs a b d r e k = updated-IsSettled c r (a r (find_row-mem _ _ rs r e)) k d (b r e)

module _ {H : Type 0} ⦃h : Hashing H⦄ where
  moved-AllSettled :
      (view : SessionLifecycle → Result LifecycleError SessionLifecycle)
      → (c : SessionTransition) (r : SessionLifecycle) (st : Sessions H)
      → (o : Result LedgerError (LedgerEvent H)) (tables : Tables H) → AllSettled st.rows
      → IsSettled (updated_row c r)
      → AllSettled (moved view c r st o tables).1.rows
  unfolding moved
  moved-AllSettled view c r st (ok e) tables a s = set_row-AllSettled (updated_row c r) st.rows s a
  moved-AllSettled view c r st (err x) tables a s = a

  pub replayed-rows :
      (view : SessionLifecycle → Result LifecycleError SessionLifecycle)
      → (r : SessionLifecycle) (st : Sessions H)
      → (o : Result LedgerError (LedgerEvent H)) (tables : Tables H)
      → (replayed view r st o tables).1.rows ≡ st.rows
  unfolding replayed
  replayed-rows view r st (ok e) tables = refl
  replayed-rows view r st (err x) tables = refl

  guarded-AllSettled :
      (view : SessionLifecycle → Result LifecycleError SessionLifecycle)
      → (c : SessionTransition) (r : SessionLifecycle) (seen : Tables H) (st : Sessions H)
      → (o : Result LifecycleError (Unit {0})) → AllSettled st.rows
      → (o ≡ ok tt → IsSettled (updated_row c r))
      → AllSettled (guarded view c r seen st o).1.rows
  unfolding guarded
  guarded-AllSettled view c r seen st (ok _) a s = moved-AllSettled view c r st _ _ a (s refl)
  guarded-AllSettled view c r seen st (err x) a s = a

  row-AllSettled :
      (view : SessionLifecycle → Result LifecycleError SessionLifecycle)
      → (c : SessionTransition) (seen : Tables H) (st : Sessions H) (o : Option SessionLifecycle)
      → AllSettled st.rows
      → ((r : SessionLifecycle)
          → o ≡ some r
          → check_transition c r ≡ ok tt
          → IsSettled (updated_row c r))
      → AllSettled (transition_row view c seen st o).1.rows
  unfolding transition_row
  row-AllSettled view c seen st none a s = a
  row-AllSettled view c seen st (some r) a s = elim (Bool-cases (is_replay c r)) [
    | inl e ↦ rw (e, replayed-rows view r st _ _) a
    | inr e ↦ rw e (guarded-AllSettled view c r seen st (check_transition c r) a (s r refl))
  ]

  -- A transition of either store that is not into DRAFT, with an event not older than its row,
  -- keeps all rows settled: the projection takes them, and those out of DRAFT have a start.
  pub transition-AllSettled :
      (view : SessionLifecycle → Result LifecycleError SessionLifecycle)
      → (c : SessionTransition) (seen : Tables H) (st : Sessions H) → AllSettled st.rows
      → IsTimely c st.rows
      → same_state c.target draft ≡ false
      → AllSettled (transition view c seen st).1.rows
  unfolding transition
  transition-AllSettled view c seen st a b d =
      row-AllSettled view c seen st _ a (IsSettled-after c st.rows a b d)

  moved-agree :
      (c : SessionTransition) (r : SessionLifecycle) (st : Sessions H)
      → (o : Result LedgerError (LedgerEvent H)) (tables : Tables H)
      → projection (updated_row c r) ≡ ok (updated_row c r)
      → moved projection c r st o tables ≡ moved ok c r st o tables
  unfolding moved
  moved-agree c r st (ok e) tables p = rw p refl
  moved-agree c r st (err x) tables p = refl

  replayed-agree :
      (r : SessionLifecycle) (st : Sessions H)
      → (o : Result LedgerError (LedgerEvent H)) (tables : Tables H) → projection r ≡ ok r
      → replayed projection r st o tables ≡ replayed ok r st o tables
  unfolding replayed
  replayed-agree r st (ok e) tables p = rw p refl
  replayed-agree r st (err x) tables p = refl

  guarded-agree :
      (c : SessionTransition) (r : SessionLifecycle) (seen : Tables H) (st : Sessions H)
      → (o : Result LifecycleError (Unit {0})) → (o ≡ ok tt → IsSettled (updated_row c r))
      → guarded projection c r seen st o ≡ guarded ok c r seen st o
  unfolding guarded
  guarded-agree c r seen st (ok _) s = moved-agree c r st _ _ (s refl).checked
  guarded-agree c r seen st (err x) s = refl

  row-agree :
      (c : SessionTransition) (seen : Tables H) (st : Sessions H) (o : Option SessionLifecycle)
      → ((r : SessionLifecycle) → o ≡ some r → IsSettled r)
      → ((r : SessionLifecycle)
          → o ≡ some r
          → check_transition c r ≡ ok tt
          → IsSettled (updated_row c r))
      → transition_row projection c seen st o ≡ transition_row ok c seen st o
  unfolding transition_row
  row-agree c seen st none b s = refl
  row-agree c seen st (some r) b s = elim (Bool-cases (is_replay c r)) [
    | inl e ↦ rw e (replayed-agree r st _ _ (b r refl).checked)
    | inr e ↦ rw e (guarded-agree c r seen st (check_transition c r) (s r refl))
  ]

  -- On settled rows, a transition that is not into DRAFT, with an event not older than its row,
  -- has the same answer and the same effect in the store of the database and in the one in
  -- memory.
  pub transition-agree :
      (c : SessionTransition) (seen : Tables H) (st : Sessions H)
      → AllSettled st.rows
      → IsTimely c st.rows
      → same_state c.target draft ≡ false
      → transition projection c seen st ≡ memory_transition c seen st
  unfolding transition AllSettled
  transition-agree c seen st a b d =
      row-agree c seen st _ (λ r e. a r (find_row-mem _ _ st.rows r e))
        (IsSettled-after c st.rows a b d)
