-- ===== src/Budget/Ended.antt =====
-- A session that was ended over its budget stays so.
use agora_opencode.Prelude.{
  ◌≢◌, ◌&&◌, ℕ, ◌≡◌, refl, sym, ap, ◌∙◌, true, Option, none, some, String, List, Result, ok, err,
  arith, Bool-cases, inl, inr, ◌>>=◌, subst,
}
use agora_opencode.Decimal.{Decimal}
use agora_opencode.Ledger.Defs.{Hashing, Tables, same_option}
use agora_opencode.Session.Graph.{same_state-eq}
use agora_opencode.Session.Replay.{Made, row-Outcome}
use agora_opencode.Session.States.{
  already_terminal, SessionLifecycle, LifecycleError, failed, is_terminal, same_state,
}
use agora_opencode.Session.Store.{Sessions, find_row, get, is_replay, transition}
use agora_opencode.Budget.{
  Breach, BudgetCheck, Budgets, exhausted, refused, already_ended, budget_transition, enforce,
  enforce_on, first_breach, on_breach, raised,
}

-- A view of a row that returns it or raises, as both stores have it.
abbrev pub IsView : (SessionLifecycle → Result LifecycleError SessionLifecycle) → Type 0
IsView view = (r x : SessionLifecycle) → view r ≡ ok x → r ≡ x

pub exhausted-injective : (y z : SessionLifecycle) → exhausted y ≡ exhausted z → y ≡ z
exhausted-injective y z p = cc

module _ {H : Type 0} ⦃h : Hashing H⦄
    (view : SessionLifecycle → Result LifecycleError SessionLifecycle) where
  -- The session is found, and it ended by the event of this check.
  pub record IsEnded (k : BudgetCheck) (r : SessionLifecycle) (st : Sessions H) : Type 0 where
    pub found : get view k.workspace_id k.session_id st ≡ ok (some r)
    pub over : is_terminal r.state ≡ true
    pub known : already_ended k r ≡ exhausted r

  shown-get :
      (w s : ℕ) (st : Sessions H) (r x : SessionLifecycle)
      → find_row w s st.rows ≡ some r
      → view r ≡ ok x
      → get view w s st ≡ ok (some x)
  unfolding get
  shown-get w s st r x there shown = rw (get, there) (ap (λ z. z >>= λ y. ok (some y)) shown)

  Made-IsEnded :
      (k : BudgetCheck) (payload : Breach → SessionLifecycle → String) (b : Breach)
      → (row r x : SessionLifecycle) (st : Sessions H)
      → Made (budget_transition payload k b row) r st
      → view r ≡ ok x
      → r ≡ x
      → IsEnded k x st
  unfolding get already_ended is_replay budget_transition is_terminal
  Made-IsEnded k payload b row r x st made shown same =
      let there : find_row k.workspace_id k.session_id st.rows ≡ some r = made.found in
      let fails : same_state r.state failed ≡ true = ground (arith, made.replay) in
      let known : same_option r.last_event_id (some k.event_id) ≡ true =
        ground (arith, made.replay) in
      subst (λ y. IsEnded k y st) same
        (record {
          found =
              shown-get k.workspace_id k.session_id st r x there shown
              ∙ ap (λ y. ok (some y)) (sym same);
          over = ended r fails;
          known = rw (known, fails) refl;
        })
    where
      ended : (y : SessionLifecycle) → same_state y.state failed ≡ true → is_terminal y.state ≡ true
      ended y e = rw (same_state-eq y.state failed e) refl

module _ {H : Type 0} ⦃h : Hashing H⦄
    (view : SessionLifecycle → Result LifecycleError SessionLifecycle) (own : IsView view)
    (payload : Breach → SessionLifecycle → String) (k : BudgetCheck) where
  breach-IsEnded :
      (b : Breach) (seen : Tables H) (st st' : Sessions H) (row r : SessionLifecycle)
      → (answer : Result LifecycleError SessionLifecycle)
      → transition view (budget_transition payload k b row) seen st ≡ (answer, st')
      → raised answer ≡ exhausted r
      → IsEnded view k r st'
  unfolding transition raised budget_transition
  breach-IsEnded b seen st st' row r (err x) t e = cc
  breach-IsEnded b seen st st' row r (ok x) t e =
      let out = row-Outcome view (budget_transition payload k b row) seen st st' x _ refl t in
      let ended =
        Made-IsEnded view k payload b row out.row x st' out.made out.shown
          (own out.row x out.shown) in
      subst (λ y. IsEnded view k y st') (exhausted-injective x r e) ended

  answer-IsEnded :
      (b : Breach) (seen : Tables H) (st st' : Sessions H) (row r : SessionLifecycle)
      → on_breach view payload k seen st row (some b) ≡ (exhausted r, st')
      → IsEnded view k r st'
  unfolding on_breach
  answer-IsEnded b seen st st' row r e =
      let c = budget_transition payload k b row in
      breach-IsEnded b seen st st' row r (transition view c seen st).0
        (ap (λ s. ((transition view c seen st).0, s)) (ap (λ x. x.1) e)) (ap (λ x. x.0) e)

  on_breach-IsEnded :
      (o : Option Breach) (seen : Tables H) (st st' : Sessions H) (row r : SessionLifecycle)
      → on_breach view payload k seen st row o ≡ (exhausted r, st')
      → IsEnded view k r st'
  unfolding on_breach
  on_breach-IsEnded none seen st st' row r e = cc
  on_breach-IsEnded (some b) seen st st' row r e = answer-IsEnded b seen st st' row r e

  terminal-IsEnded :
      (row r : SessionLifecycle) (st : Sessions H)
      → get view k.workspace_id k.session_id st ≡ ok (some row)
      → is_terminal row.state ≡ true
      → already_ended k row ≡ exhausted r
      → IsEnded view k r st
  unfolding already_ended
  terminal-IsEnded row r st g over e =
      elim (Bool-cases
        (same_option row.last_event_id (some k.event_id) && same_state row.state failed)) [
          | inr other ↦ absurd (ended-elsewhere (rw other at e))
          | inl this ↦
              subst (λ y. IsEnded view k y st) (exhausted-injective row r (rw this at e))
                (record { found = g; over = over; known = rw this refl })
        ]
    where
      ended-elsewhere : refused already_terminal ≢ exhausted r
      ended-elsewhere p = cc

module _ {D : Type 0} ⦃d : Decimal D⦄ {H : Type 0} ⦃h : Hashing H⦄
    (view : SessionLifecycle → Result LifecycleError SessionLifecycle) (own : IsView view)
    (payload : Breach → SessionLifecycle → String) (k : BudgetCheck) where
  -- An ended session raises the same again, whatever was used.
  pub ended-enforce :
      (b : Budgets D) (agents : List ℕ) (seen : Tables H) (st : Sessions H) (r : SessionLifecycle)
      → IsEnded view k r st
      → enforce view payload k b agents seen st ≡ (exhausted r, st)
  unfolding enforce enforce_on
  ended-enforce b agents seen st r e = rw (e.found, e.over, e.known) refl

  row-IsEnded :
      (b : Budgets D) (agents : List ℕ) (seen : Tables H) (st st' : Sessions H)
      → (r : SessionLifecycle) (o : Result LifecycleError (Option SessionLifecycle))
      → get view k.workspace_id k.session_id st ≡ o
      → enforce_on view payload k b agents seen st o ≡ (exhausted r, st')
      → IsEnded view k r st'
  unfolding enforce_on
  row-IsEnded b agents seen st st' r (err x) g e = cc
  row-IsEnded b agents seen st st' r (ok none) g e = cc
  row-IsEnded b agents seen st st' r (ok (some row)) g e =
      elim (Bool-cases (is_terminal row.state)) [
        | inr alive ↦
            on_breach-IsEnded view own payload k (first_breach b agents) seen st st' row r
              (rw alive at e)
        | inl over ↦
            let same = rw over at e in
            subst (λ s. IsEnded view k r s) (ap (λ x. x.1) same)
              (terminal-IsEnded view own payload k row r st g over (ap (λ x. x.0) same))
      ]

  -- What raises `BudgetExhausted` leaves an ended session.
  pub enforce-IsEnded :
      (b : Budgets D) (agents : List ℕ) (seen : Tables H) (st st' : Sessions H)
      → (r : SessionLifecycle) → enforce view payload k b agents seen st ≡ (exhausted r, st')
      → IsEnded view k r st'
  unfolding enforce
  enforce-IsEnded b agents seen st st' r e = row-IsEnded b agents seen st st' r _ refl e
