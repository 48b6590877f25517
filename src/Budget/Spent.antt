-- ===== src/Budget/Spent.antt =====
-- What a budgeted dispatch answers.
use agora_opencode.Prelude.{
  ℕ, ◌≡◌, ◌↔◌, refl, sym, ap, Bool, true, false, some, String, List, ◌∷◌, ◌++◌, Result, ok, err,
  All, subst,
}
use agora_opencode.Decimal.{Decimal}
use agora_opencode.Ledger.Defs.{Hashing, Tables}
use agora_opencode.Session.States.{SessionLifecycle, LifecycleError, is_terminal}
use agora_opencode.Session.Store.{Sessions, get}
use agora_opencode.Budget.{
  Breach, BudgetCheck, Budgets, Enforced, within_budget, exhausted, refused, enforce, enforce_on,
  on_breach,
}
use agora_opencode.Budget.Laws.{all_below, breach_below, enforce-within}
use agora_opencode.Budget.Usage.{Ceilings, LlmCallRecord, IsPaid, budgets_of, all_below-grows}
use agora_opencode.Budget.Dispatch.{
  Accounts, DispatchCheck, DispatchError, Turn, after_first, after_turns, agents_of, check_of,
  dispatch, enforce_batch, let_through,
}

-- An enforcement below all ceilings changes nothing.
below-enforce :
    {D : Type 0} ⦃d : Decimal D⦄ {H : Type 0} ⦃h : Hashing H⦄
    (view : SessionLifecycle → Result LifecycleError SessionLifecycle)
    → (payload : Breach → SessionLifecycle → String)
    → (k : BudgetCheck) (b : Budgets D) (agents : List ℕ) (seen : Tables H) (st : Sessions H)
    → (r : SessionLifecycle) → get view k.workspace_id k.session_id st ≡ ok (some r)
    → is_terminal r.state ≡ false
    → all_below b agents ≡ true
    → enforce view payload k b agents seen st ≡ (within_budget, st)
unfolding enforce enforce_on on_breach
below-enforce view payload k b agents seen st r e alive below =
    rw (e, alive, (breach_below b agents).1 below) refl

module _ {D : Type 0} ⦃d : Decimal D⦄ {H : Type 0} ⦃h : Hashing H⦄ {E O : Type 0}
    (view : SessionLifecycle → Result LifecycleError SessionLifecycle)
    (payload : Budgets D → Breach → SessionLifecycle → String) (ceilings : Ceilings D)
    (run : List Turn → Accounts D H → Result E (List O) × Accounts D H) (q : DispatchCheck)
    (t : Turn) where
  -- The session of the batch is found and has not ended.
  abbrev pub IsOpen : Accounts D H → Type 0
  IsOpen st =
      (r : SessionLifecycle) × (get view t.workspace_id t.session_id st.sessions ≡ ok (some r))
      × (is_terminal r.state ≡ false)

  -- The session and the agents of the batch are below their ceilings by the calls recorded.
  abbrev pub is_below : List Turn → Accounts D H → Bool
  is_below ts st =
      all_below (budgets_of ceilings t.workspace_id t.session_id st.calls) (agents_of ts)

  below-batch :
      (ts : List Turn) (seen : Tables H) (st : Accounts D H)
      → IsOpen st
      → is_below ts st ≡ true
      → enforce_batch view payload ceilings q t (agents_of ts) seen st
        ≡ (within_budget, st.sessions)
  unfolding enforce_batch
  below-batch ts seen st (r, e, alive) below =
      let b = budgets_of ceilings t.workspace_id t.session_id st.calls in
      below-enforce view (payload b) (check_of q t) b (agents_of ts) seen st.sessions r e alive
        below

  batch-below :
      (ts : List Turn) (seen : Tables H) (st : Accounts D H)
      → IsOpen st
      → (enforce_batch view payload ceilings q t (agents_of ts) seen st).0 ≡ within_budget
      → is_below ts st ≡ true
  unfolding enforce_batch
  batch-below ts seen st (r, e, alive) w =
      let b = budgets_of ceilings t.workspace_id t.session_id st.calls in
      (enforce-within view (payload b) (check_of q t) b (agents_of ts) seen st.sessions r e alive).0
        w

  through-within :
      (o outcomes : List O) (st st' : Accounts D H) (e : Enforced × Sessions H)
      → let_through {E = E} outcomes st e ≡ (ok o, st')
      → e.0 ≡ within_budget
  through-within o outcomes st st' (within_budget, s) k = refl
  through-within o outcomes st st' (exhausted r, s) k = cc
  through-within o outcomes st st' (refused x, s) k = cc

  turns-below :
      (ts : List Turn) (later : Tables H) (a : Result E (List O) × Accounts D H) (o : List O)
      → (st' : Accounts D H) → IsOpen a.1
      → after_turns view payload ceilings q t (agents_of ts) later a ≡ (ok o, st')
      → (a ≡ (ok o, st')) × (is_below ts st' ≡ true)
  unfolding after_turns
  turns-below ts later (err x, st) o st' alive k = cc
  turns-below ts later (ok outcomes, st) o st' alive k =
      let w = through-within o outcomes st st' _ k in
      let below = batch-below ts later st alive w in
      let same : ◌≡◌ {A = Result (DispatchError E) (List O) × Accounts D H} (ok outcomes, st)
          (ok o, st') =
        rw (below-batch ts later st alive below) at k in
      (cc, subst (λ s. is_below ts s ≡ true) (ap (λ x. x.1) same) below)

  below-turns :
      (ts : List Turn) (later : Tables H) (o : List O) (st : Accounts D H)
      → IsOpen st
      → is_below ts st ≡ true
      → after_turns view payload ceilings {E = E} q t (agents_of ts) later (ok o, st) ≡ (ok o, st)
  unfolding after_turns
  below-turns ts later o st alive below = rw (below-batch ts later st alive below) refl

  -- The turns leave the calls recorded before, add only calls that cost something, and leave the
  -- session open.
  pub record Adds (st st' : Accounts D H) : Type 0 where
    pub more : List (LlmCallRecord D)
    pub kept : st'.calls ≡ st.calls ++ more
    pub paid : All IsPaid more
    pub alive : IsOpen st'

  first-within :
      (ts : List Turn) (later : Tables H) (st st' : Accounts D H) (o : List O)
      → (e : Enforced × Sessions H)
      → after_first view payload ceilings run q t ts later st e ≡ (ok o, st')
      → e.0 ≡ within_budget
  unfolding after_first
  first-within ts later st st' o (within_budget, s) k = refl
  first-within ts later st st' o (exhausted r, s) k = cc
  first-within ts later st st' o (refused x, s) k = cc

  Adds-below :
      (ts : List Turn) (st st' : Accounts D H)
      → Adds st st'
      → is_below ts st' ≡ true
      → is_below ts st ≡ true
  Adds-below ts st st' a below =
      all_below-grows ceilings t.workspace_id t.session_id st.calls a.more a.paid (agents_of ts) (
        subst
          (λ cs.
            all_below (budgets_of ceilings t.workspace_id t.session_id cs) (agents_of ts) ≡ true)
          a.kept below)

  -- Where the session is open and the turns only add calls that do not cost less than nothing
  -- and leave it open, a dispatch returns outcomes exactly when the turns return them and the
  -- session and the agents of the batch are below their ceilings by all the calls that are
  -- recorded then.
  pub dispatch-returns :
      (ts : List Turn) (seen later : Tables H) (st st' : Accounts D H) (o : List O)
      → IsOpen st
      → Adds st (run (t ∷ ts) st).1
      → (dispatch view payload ceilings run q (t ∷ ts) seen later st ≡ (ok o, st'))
        ↔ (run (t ∷ ts) st ≡ (ok o, st')) × (is_below (t ∷ ts) st' ≡ true)
  unfolding dispatch after_first
  dispatch-returns ts seen later st st' o alive adds = (
    λ k.
        let w = first-within ts later st st' o _ k in
        let below = batch-below (t ∷ ts) seen st alive w in
        turns-below (t ∷ ts) later (run (t ∷ ts) st) o st' adds.alive
          (rw (below-batch (t ∷ ts) seen st alive below) at k),
    λ (ran, below).
        let left : (run (t ∷ ts) st).1 ≡ st' = ap (λ x. x.1) ran in
        let before =
          Adds-below (t ∷ ts) st (run (t ∷ ts) st).1 adds
            (subst (λ s. is_below (t ∷ ts) s ≡ true) (sym left) below) in
        rw (below-batch (t ∷ ts) seen st alive before, ran)
          (below-turns (t ∷ ts) later o st' (subst IsOpen left adds.alive) below),
  )
