-- ===== src/Session/Effects.antt =====
-- What a transition of the store in memory leaves on an error.
use agora_opencode.Prelude.{
  ap, arith, Bool-cases, Option, Result, ◌≡◌, refl, ok, err, inl, inr, some, none,
}
use agora_opencode.Ledger.Defs.{LedgerEvent, LedgerError, Tables, Hashing}
use agora_opencode.Ledger.Retry.{append-err}
use agora_opencode.Session.States.{SessionTransition, LifecycleError, SessionLifecycle}
use agora_opencode.Session.Store.{
  memory_transition, check_transition, is_replay, replayed, guarded, transition, transition_row,
  moved, Sessions,
}

module _ {H : Type 0} ⦃h : Hashing H⦄ where
  moved-err :
      (c : SessionTransition) (r : SessionLifecycle) (st : Sessions H)
      → (o : Result LedgerError (LedgerEvent H)) (tables : Tables H) (x : LifecycleError)
      → ((y : LedgerError) → o ≡ err y → tables ≡ st.tables)
      → (moved ok c r st o tables).0 ≡ err x
      → (moved ok c r st o tables).1 ≡ st
  unfolding moved
  moved-err c r st (ok e) tables x same k = absurd (ground (arith, k))
  moved-err c r st (err y) tables x same k = ap (λ t. record st { tables = t }) (same y refl)

  replayed-err :
      (r : SessionLifecycle) (st : Sessions H)
      → (o : Result LedgerError (LedgerEvent H)) (tables : Tables H) (x : LifecycleError)
      → ((y : LedgerError) → o ≡ err y → tables ≡ st.tables)
      → (replayed ok r st o tables).0 ≡ err x
      → (replayed ok r st o tables).1 ≡ st
  unfolding replayed
  replayed-err r st (ok e) tables x same k = absurd (ground (arith, k))
  replayed-err r st (err y) tables x same k = ap (λ t. record st { tables = t }) (same y refl)

  guarded-err :
      (c : SessionTransition) (r : SessionLifecycle) (seen : Tables H) (st : Sessions H)
      → (o : Result LifecycleError (Unit {0})) (x : LifecycleError)
      → (guarded ok c r seen st o).0 ≡ err x
      → (guarded ok c r seen st o).1 ≡ st
  unfolding guarded
  guarded-err c r seen st (err y) x k = refl
  guarded-err c r seen st (ok _) x k = moved-err c r st _ _ x (append-err c.event seen st.tables) k

  row-err :
      (c : SessionTransition) (seen : Tables H) (st : Sessions H) (o : Option SessionLifecycle)
      → (x : LifecycleError) → (transition_row ok c seen st o).0 ≡ err x
      → (transition_row ok c seen st o).1 ≡ st
  unfolding transition_row
  row-err c seen st none x k = refl
  row-err c seen st (some r) x k = elim (Bool-cases (is_replay c r)) [
    | inl e ↦ rw e (replayed-err r st _ _ x (append-err c.event seen st.tables) (rw e at k))
    | inr e ↦ rw e (guarded-err c r seen st (check_transition c r) x (rw e at k))
  ]

  -- A transition of the store in memory that raises changes neither the rows nor the ledger.
  pub transition-err :
      (c : SessionTransition) (seen : Tables H) (st : Sessions H) (x : LifecycleError)
      → (memory_transition c seen st).0 ≡ err x
      → (memory_transition c seen st).1 ≡ st
  unfolding transition
  transition-err c seen st x k = row-err c seen st _ x k
