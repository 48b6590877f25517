-- ===== src/Session/Replay.antt =====
-- A transition that is asked for again.
use agora_opencode.Prelude.{
  ◌∙◌, Bool-cases, sym, Option, ap, arith, Result, ◌≡◌, refl, ok, err, inl, inr, true, some, none,
}
use agora_opencode.Ledger.Defs.{find_head, append, LedgerError, Head, LedgerEvent, Tables, Hashing}
use agora_opencode.Ledger.Retry.{Sees, append-retry}
use agora_opencode.Session.Graph.{same_state_refl}
use agora_opencode.Session.States.{LifecycleError, SessionTransition, SessionLifecycle}
use agora_opencode.Session.Store.{
  check_transition, set_row, transition, guarded, transition_row, replayed, moved, updated_row,
  find_row, is_replay, Sessions,
}
use agora_opencode.Session.History.{find_row-own, find-set_self, find_row-key}

-- The row of the event's session says that the transition was made.
pub record Made {H : Type 0} (c : SessionTransition) (r : SessionLifecycle) (st : Sessions H)
    : Type 0 where
  pub found : find_row c.event.workspace_id c.event.session_id st.rows ≡ some r
  pub replay : is_replay c r ≡ true

updated-replay :
    (c : SessionTransition) (r : SessionLifecycle) → is_replay c (updated_row c r) ≡ true
unfolding is_replay updated_row
updated-replay c r = ground (arith, same_state_refl c.target)

-- A transition that succeeds, from where its event was appended.
pub record Outcome {H : Type 0} ⦃h : Hashing H⦄
    (view : SessionLifecycle → Result LifecycleError SessionLifecycle) (c : SessionTransition)
    (seen : Tables H) (st st' : Sessions H) (x : SessionLifecycle) : Type 0 where
  pub row : SessionLifecycle
  event : LedgerEvent H
  pub made : Made c row st'
  appended : append c.event seen st.tables ≡ (ok event, st'.tables)
  pub shown : view row ≡ ok x

module _ {H : Type 0} ⦃h : Hashing H⦄
    (view : SessionLifecycle → Result LifecycleError SessionLifecycle) (c : SessionTransition)
    (seen : Tables H) (st st' : Sessions H) (x : SessionLifecycle) where
  moved-Outcome :
      (r : SessionLifecycle) (o : Result LedgerError (LedgerEvent H)) (tables : Tables H)
      → find_row c.event.workspace_id c.event.session_id st.rows ≡ some r
      → append c.event seen st.tables ≡ (o, tables)
      → moved view c r st o tables ≡ (ok x, st')
      → Outcome view c seen st st' x
  unfolding moved updated_row
  moved-Outcome r (err y) tables f a k = absurd (ground (arith, ap (λ q. q.0) k))
  moved-Outcome r (ok e) tables f a k =
      let (kw, ks) = find_row-key _ _ st.rows r f in
      let there = find-set_self (updated_row c r) st.rows r (find_row-own _ _ st.rows r f) in
      record {
        row = updated_row c r;
        event = e;
        made = record {
          found = rw (sym (ap (λ q. q.1) k)) (
              ap (λ n. find_row n c.event.session_id (set_row (updated_row c r) st.rows)) (sym kw)
              ∙ ap (λ n. find_row r.workspace_id n (set_row (updated_row c r) st.rows)) (sym ks)
              ∙ there);
          replay = updated-replay c r;
        };
        appended = a ∙ ap (λ t. (ok e, t)) (ap (λ q. q.1.tables) k);
        shown = ap (λ q. q.0) k;
      }

  replayed-Outcome :
      (r : SessionLifecycle) (o : Result LedgerError (LedgerEvent H)) (tables : Tables H)
      → find_row c.event.workspace_id c.event.session_id st.rows ≡ some r
      → is_replay c r ≡ true
      → append c.event seen st.tables ≡ (o, tables)
      → replayed view r st o tables ≡ (ok x, st')
      → Outcome view c seen st st' x
  unfolding replayed
  replayed-Outcome r (err y) tables f q a k = absurd (ground (arith, ap (λ q. q.0) k))
  replayed-Outcome r (ok e) tables f q a k = record {
    row = r;
    event = e;
    made = record { found = rw (sym (ap (λ q. q.1) k)) f; replay = q };
    appended = a ∙ ap (λ t. (ok e, t)) (ap (λ q. q.1.tables) k);
    shown = ap (λ q. q.0) k;
  }

  guarded-Outcome :
      (r : SessionLifecycle) (o : Result LifecycleError (Unit {0}))
      → find_row c.event.workspace_id c.event.session_id st.rows ≡ some r
      → guarded view c r seen st o ≡ (ok x, st')
      → Outcome view c seen st st' x
  unfolding guarded
  guarded-Outcome r (err y) f k = absurd (ground (arith, ap (λ q. q.0) k))
  guarded-Outcome r (ok _) f k = moved-Outcome r _ _ f refl k

  pub row-Outcome :
      (o : Option SessionLifecycle)
      → find_row c.event.workspace_id c.event.session_id st.rows ≡ o
      → transition_row view c seen st o ≡ (ok x, st')
      → Outcome view c seen st st' x
  unfolding transition_row
  row-Outcome none f k = absurd (ground (arith, ap (λ q. q.0) k))
  row-Outcome (some r) f k = elim (Bool-cases (is_replay c r)) [
    | inl q ↦ replayed-Outcome r _ _ f q refl (rw q at k)
    | inr q ↦ guarded-Outcome r (check_transition c r) f (rw q at k)
  ]

  -- In a session with a ledger head, a transition that succeeded, by a first look that was still
  -- current, can be asked for again on the state that it left, with a look that is current
  -- there: it gives the same answer and changes nothing.
  pub transition-retry :
      (seen' : Tables H) (hd : Head H)
      → Sees c.event.id seen st.tables
      → find_head c.event.workspace_id c.event.session_id st.tables.heads ≡ some hd
      → transition view c seen st ≡ (ok x, st')
      → Sees c.event.id seen' st'.tables
      → transition view c seen' st' ≡ (ok x, st')
  unfolding transition transition_row replayed
  transition-retry seen' hd sees k t sees' =
      let out = row-Outcome _ refl t in
      let again =
        append-retry c.event seen seen' st.tables st'.tables hd out.event sees k out.appended
          sees' in
      rw (out.made.found, out.made.replay, again, out.shown) refl
