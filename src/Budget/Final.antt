-- ===== src/Budget/Final.antt =====
-- A batch over its budget is not run again.
use agora_opencode.Prelude.{ℕ, ◌≡◌, refl, ap, ◌∙◌, String, List, ◌∷◌, Result, ok, err, subst}
use agora_opencode.Decimal.{Decimal}
use agora_opencode.Ledger.Defs.{Hashing, Tables}
use agora_opencode.Session.States.{SessionLifecycle, LifecycleError}
use agora_opencode.Session.Store.{Sessions}
use agora_opencode.Budget.{Breach, Budgets, Enforced, within_budget, exhausted, refused}
use agora_opencode.Budget.Usage.{Ceilings, budgets_of}
use agora_opencode.Budget.Dispatch.{
  Accounts, DispatchCheck, DispatchError, Turn, after_first, after_turns, agents_of, check_of,
  dispatch, enforce_batch, halted, let_through,
}
use agora_opencode.Budget.Ended.{IsEnded, IsView, ended-enforce, enforce-IsEnded}

halted-injective :
    {E O : Type 0} (x y : Enforced)
    → ◌≡◌ {A = Result (DispatchError E) (List O)} (err (halted x)) (err (halted y))
    → x ≡ y
halted-injective x y p = cc

module _ {D : Type 0} ⦃d : Decimal D⦄ {H : Type 0} ⦃h : Hashing H⦄
    (view : SessionLifecycle → Result LifecycleError SessionLifecycle) (own : IsView view)
    (payload : Budgets D → Breach → SessionLifecycle → String) (ceilings : Ceilings D)
    (q : DispatchCheck) (t : Turn) where
  batch-IsEnded :
      (agents : List ℕ) (seen : Tables H) (st : Accounts D H) (r : SessionLifecycle)
      → (e : Enforced × Sessions H) → enforce_batch view payload ceilings q t agents seen st ≡ e
      → e.0 ≡ exhausted r
      → IsEnded view (check_of q t) r e.1
  unfolding enforce_batch
  batch-IsEnded agents seen st r (x, s) k same =
      let b = budgets_of ceilings t.workspace_id t.session_id st.calls in
      enforce-IsEnded view own (payload b) (check_of q t) b agents seen st.sessions s r
        (k ∙ ap (λ y. (y, s)) same)

  ended-batch :
      (agents : List ℕ) (seen : Tables H) (st : Accounts D H) (r : SessionLifecycle)
      → IsEnded view (check_of q t) r st.sessions
      → enforce_batch view payload ceilings q t agents seen st ≡ (exhausted r, st.sessions)
  unfolding enforce_batch
  ended-batch agents seen st r e =
      let b = budgets_of ceilings t.workspace_id t.session_id st.calls in
      ended-enforce view own (payload b) (check_of q t) b agents seen st.sessions r e

  module _ {E O : Type 0} where
    through-IsEnded :
        (outcomes : List O) (agents : List ℕ) (later : Tables H) (st st' : Accounts D H)
        → (r : SessionLifecycle) (e : Enforced × Sessions H)
        → enforce_batch view payload ceilings q t agents later st ≡ e
        → let_through {E = E} outcomes st e ≡ (err (halted (exhausted r)), st')
        → IsEnded view (check_of q t) r st'.sessions
    through-IsEnded outcomes agents later st st' r (within_budget, s) f k = cc
    through-IsEnded outcomes agents later st st' r (refused x, s) f k = cc
    through-IsEnded outcomes agents later st st' r (exhausted y, s) f k =
        subst (IsEnded view (check_of q t) r) (ap (λ z. z.1.sessions) k) (
          batch-IsEnded agents later st r (exhausted y, s) f
            (halted-injective (exhausted y) (exhausted r) (ap (λ z. z.0) k)))

    turns-IsEnded :
        (agents : List ℕ) (later : Tables H) (a : Result E (List O) × Accounts D H)
        → (st' : Accounts D H) (r : SessionLifecycle)
        → after_turns view payload ceilings q t agents later a ≡ (err (halted (exhausted r)), st')
        → IsEnded view (check_of q t) r st'.sessions
    unfolding after_turns
    turns-IsEnded agents later (err x, st) st' r k = cc
    turns-IsEnded agents later (ok outcomes, st) st' r k =
        through-IsEnded outcomes agents later st st' r _ refl k

    first-IsEnded :
        (run : List Turn → Accounts D H → Result E (List O) × Accounts D H)
        → (ts : List Turn) (seen later : Tables H) (st st' : Accounts D H) (r : SessionLifecycle)
        → (e : Enforced × Sessions H)
        → enforce_batch view payload ceilings q t (agents_of (t ∷ ts)) seen st ≡ e
        → after_first view payload ceilings run q t ts later st e
          ≡ (err (halted (exhausted r)), st')
        → IsEnded view (check_of q t) r st'.sessions
    unfolding after_first
    first-IsEnded run ts seen later st st' r (within_budget, s) f k =
        turns-IsEnded (agents_of (t ∷ ts)) later (run (t ∷ ts) (record st { sessions = s })) st' r k
    first-IsEnded run ts seen later st st' r (refused x, s) f k = cc
    first-IsEnded run ts seen later st st' r (exhausted y, s) f k =
        subst (IsEnded view (check_of q t) r) (ap (λ z. z.1.sessions) k) (
          batch-IsEnded (agents_of (t ∷ ts)) seen st r (exhausted y, s) f
            (halted-injective (exhausted y) (exhausted r) (ap (λ z. z.0) k)))

    -- After a dispatch that raised BudgetExhausted, by the check before or the one after the
    -- turns, every batch that begins with the same turn and is dispatched for the same budget
    -- event, on the state left by the first, raises the same and changes nothing, so that its
    -- turns do not run, whatever they would do. The view of a row that the store has returns the
    -- row or raises.
    pub dispatch-exhausted :
        (run run' : List Turn → Accounts D H → Result E (List O) × Accounts D H)
        → (ts ts' : List Turn) (seen later seen' later' : Tables H) (st st' : Accounts D H)
        → (r : SessionLifecycle)
        → dispatch view payload ceilings run q (t ∷ ts) seen later st
          ≡ (err (halted (exhausted r)), st')
        → dispatch view payload ceilings run' q (t ∷ ts') seen' later' st'
          ≡ (err (halted (exhausted r)), st')
    unfolding dispatch after_first
    dispatch-exhausted run run' ts ts' seen later seen' later' st st' r k =
        let ended = first-IsEnded run ts seen later st st' r _ refl k in
        rw (ended-batch (agents_of (t ∷ ts')) seen' st' r ended) refl
