-- ===== src/Session/Store.antt =====
-- The store of lifecycles beside the reasoning ledger. The two adapters run the same steps; they
-- differ in the view of a row that they return: the database's goes through the checks of the
-- projection, the one in memory is the row itself.
use agora_opencode.Prelude.{
  [], ◌||◌, is_blank, str_eq, ◌>>=◌, not, if◌then◌else◌, ◌&&◌, false, ok, err, ◌==◌, ◌∷◌, some,
  Option, none, List, Bool, Result, String, ℕ,
}
use agora_opencode.Ledger.Defs.{same_option, LedgerEvent, append, LedgerError, Tables, Hashing}
use agora_opencode.Session.States.{
  validate_session_transition, different_workflow, blank_workflow, is_terminal, is_none, ledger,
  wrong_source, no_lifecycle, running, already_exists, same_state, LifecycleError, draft,
  SessionTransition, SessionLifecycle,
}

pub record Sessions (H : Type 0) : Type 0 where
  pub rows : List SessionLifecycle
  pub tables : Tables H

abbrev pub is_row : ℕ → ℕ → SessionLifecycle → Bool
is_row w s r = r.workspace_id == w && r.session_id == s

-- `_row`
unfoldable pub find_row : ℕ → ℕ → List SessionLifecycle → Option SessionLifecycle
find_row w s [] = none
find_row w s (r ∷ rs) = if is_row w s r then some r else find_row w s rs

-- The row of the session is replaced.
unfoldable pub set_row : SessionLifecycle → List SessionLifecycle → List SessionLifecycle
set_row x [] = []
set_row x (r ∷ rs) =
    let rest = set_row x rs in if is_row x.workspace_id x.session_id r then x ∷ rs else r ∷ rest

abbrev pub new_draft : ℕ → ℕ → ℕ → SessionLifecycle
new_draft w s created_at = record {
  workspace_id = w;
  session_id = s;
  state = draft;
  round = 0;
  workflow_id = none;
  run_id = none;
  last_event_id = none;
  initialized_at = none;
  started_at = none;
  ended_at = none;
  created_at = created_at;
  updated_at = created_at;
}

-- What a transition changes in the row.
unfoldable pub updated_row : SessionTransition → SessionLifecycle → SessionLifecycle
updated_row c r = record r {
  state = c.target;
  round = c.round;
  last_event_id = some c.event.id;
  updated_at = c.event.recorded_at;
  initialized_at = if same_state r.state draft then some c.event.recorded_at else r.initialized_at;
  started_at =
      if same_state r.state draft
      then some c.event.recorded_at
      else (if same_state c.target running && is_none r.started_at
          then some c.event.recorded_at
          else r.started_at);
  ended_at = if is_terminal c.target then some c.event.recorded_at else r.ended_at;
}

-- The row is in the target state already, by the same event.
unfoldable pub is_replay : SessionTransition → SessionLifecycle → Bool
is_replay c r = same_state r.state c.target && same_option r.last_event_id (some c.event.id)

-- The checks before the ledger is written.
unfoldable pub check_transition :
    SessionTransition → SessionLifecycle → Result LifecycleError (Unit {0})
check_transition c r =
    if not (same_state r.state c.source)
    then err wrong_source
    else validate_session_transition r.state c.target r.round c.round c.allow_same_state

abbrev pub same_run : SessionLifecycle → String → String → Bool
same_run r workflow_id run_id = elim r.workflow_id [
  | none ↦ false
  | some w ↦ str_eq w workflow_id && elim r.run_id [ none ↦ false | some x ↦ str_eq x run_id ]
]

module _ {H : Type 0} (view : SessionLifecycle → Result LifecycleError SessionLifecycle) where
  unfoldable pub add_draft :
      ℕ → ℕ → ℕ → Sessions H → Result LifecycleError SessionLifecycle × Sessions H
  add_draft w s created_at st = elim (find_row w s st.rows) [
    | some r ↦ (err already_exists, st)
    | none ↦
        (view (new_draft w s created_at), record st { rows = new_draft w s created_at ∷ st.rows })
  ]

  unfoldable pub attach_row :
      String
      → String
      → Sessions H
      → Option SessionLifecycle
      → Result LifecycleError SessionLifecycle × Sessions H
  attach_row workflow_id run_id st none = (err no_lifecycle, st)
  attach_row workflow_id run_id st (some r) =
      if not (is_none r.workflow_id)
      then (if same_run r workflow_id run_id then (view r, st) else (err different_workflow, st))
      else (let r' : SessionLifecycle = record r {
        workflow_id = some workflow_id;
        run_id = some run_id;
      } in
          (view r', record st { rows = set_row r' st.rows }))

  unfoldable pub attach_workflow :
      ℕ → ℕ → String → String → Sessions H → Result LifecycleError SessionLifecycle × Sessions H
  attach_workflow w s workflow_id run_id st =
      if is_blank workflow_id || is_blank run_id
      then (err blank_workflow, st)
      else attach_row workflow_id run_id st (find_row w s st.rows)

  -- After the append of an event that the row has seen: the row stays.
  unfoldable pub replayed :
      SessionLifecycle
      → Sessions H
      → Result LedgerError (LedgerEvent H)
      → Tables H
      → Result LifecycleError SessionLifecycle × Sessions H
  replayed r st (ok e) tables = (view r, record st { tables = tables })
  replayed r st (err x) tables = (err (ledger x), record st { tables = tables })

  -- After the append of a new event: the row is updated.
  unfoldable pub moved :
      SessionTransition
      → SessionLifecycle
      → Sessions H
      → Result LedgerError (LedgerEvent H)
      → Tables H
      → Result LifecycleError SessionLifecycle × Sessions H
  moved c r st (ok e) tables =
      (view (updated_row c r), record { rows = set_row (updated_row c r) st.rows; tables = tables })
  moved c r st (err x) tables = (err (ledger x), record st { tables = tables })

module _ {H : Type 0} ⦃h : Hashing H⦄
    (view : SessionLifecycle → Result LifecycleError SessionLifecycle) where
  unfoldable pub guarded :
      SessionTransition
      → SessionLifecycle
      → Tables H
      → Sessions H
      → Result LifecycleError (Unit {0})
      → Result LifecycleError SessionLifecycle × Sessions H
  guarded c r seen st (err x) = (err x, st)
  guarded c r seen st (ok _) =
      let (written, tables) = append c.event seen st.tables in moved view c r st written tables

  unfoldable pub transition_row :
      SessionTransition
      → Tables H
      → Sessions H
      → Option SessionLifecycle
      → Result LifecycleError SessionLifecycle × Sessions H
  transition_row c seen st none = (err no_lifecycle, st)
  transition_row c seen st (some r) =
      if is_replay c r
      then (let (written, tables) = append c.event seen st.tables in
          replayed view r st written tables)
      else guarded c r seen st (check_transition c r)

  -- `transition`; `seen` is the ledger as the append first sees it.
  unfoldable pub transition :
      SessionTransition
      → Tables H
      → Sessions H
      → Result LifecycleError SessionLifecycle × Sessions H
  transition c seen st =
      transition_row c seen st (find_row c.event.workspace_id c.event.session_id st.rows)

  -- The returned row of `get`
  unfoldable pub get : ℕ → ℕ → Sessions H → Result LifecycleError (Option SessionLifecycle)
  get w s st = elim (find_row w s st.rows) [
    | none ↦ ok none
    | some r ↦ (view r >>= λ x. ok (some x))
  ]

-- `InMemorySessionLifecycleStore.transition`
abbrev pub memory_transition :
    {H : Type 0}
    → ⦃h : Hashing H⦄ → SessionTransition
    → Tables H
    → Sessions H
    → Result LifecycleError SessionLifecycle × Sessions H
memory_transition c seen st = transition ok c seen st
