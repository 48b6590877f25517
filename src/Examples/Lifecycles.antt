-- ===== src/Examples/Lifecycles.antt =====
-- A session that is started, paused and ended.
use agora_opencode.Prelude.{
  ltb, subst, arith, ℕ, ◌≡◌, refl, ok, true, false, some, none, [], ◌∷◌, inl, inr, Result,
}
use agora_opencode.Ledger.Defs.{
  Tables, find_head, append, first_look, event_by_id, append_locked, under_lock, write_new,
  write_event, persisted,
}
use agora_opencode.Ledger.Append.{some-inj}
use agora_opencode.Session.Store.{
  memory_transition, moved, guarded, transition_row, is_replay, find_row, Sessions, new_draft,
  updated_row, transition, check_transition,
}
use agora_opencode.Session.States.{
  validate_session_transition, event_matches_transition, SessionLifecycle, SessionLifecycleState,
  SessionTransition, LifecycleError, wrong_source, projection, draft, initializing, running, paused,
  in_states, transitions, is_terminal, same_state,
}
use agora_opencode.Ledger.Retry.{Sees}
use agora_opencode.Session.Controls.{
  validate_control_request, control_target, SessionControlCommand, pause, control_transition,
  committed,
}
use agora_opencode.Session.Graph.{Reaches, every_state-lives}
use agora_opencode.Session.Transition.{IsSettled}
use agora_opencode.Session.Adapters.{AllSettled, IsTimely, transition-AllSettled, transition-agree}
use agora_opencode.Session.Effects.{transition-err}
use agora_opencode.Session.History.{Continues, start, step, run-Continues}
use agora_opencode.Session.Requests.{control_of, request-accepted}
use agora_opencode.Session.Replay.{transition-retry}
use agora_opencode.Examples.Digest.{Digest, digest_hashing}
use agora_opencode.Examples.Ledgers.{opened, event_of}

every_state-lives_example :
    Reaches draft paused × ((t : SessionLifecycleState) × Reaches paused t × (is_terminal t ≡ true))
every_state-lives_example = every_state-lives paused

abbrev drafted : SessionLifecycle
drafted = new_draft 1 4 10

abbrev sessions : Sessions Digest
sessions = record { rows = drafted ∷ []; tables = opened }

-- The session leaves DRAFT.
abbrev begin : SessionTransition
begin = record {
  source = draft;
  target = initializing;
  round = 0;
  event = event_of 7 "{}";
  allow_same_state = false;
}

drafted-IsSettled : IsSettled drafted
unfolding projection same_state in_states is_terminal
drafted-IsSettled = record { checked = refl; begun = λ e. absurd (ground (arith, e)) }

sessions-AllSettled : AllSettled sessions.rows
unfolding AllSettled
sessions-AllSettled r m = elim m [ inl e ↦ rw e drafted-IsSettled | inr n ↦ elim n [ ] ]

begin-IsTimely : IsTimely begin sessions.rows
unfolding IsTimely find_row
begin-IsTimely r e = subst (λ (x : SessionLifecycle). ltb 50 x.created_at ≡ false) (some-inj e) refl

transition-AllSettled_example : AllSettled (transition projection begin opened sessions).1.rows
unfolding same_state
transition-AllSettled_example =
    transition-AllSettled projection begin opened sessions sessions-AllSettled begin-IsTimely refl

transition-agree_example :
    transition projection begin opened sessions ≡ memory_transition begin opened sessions
unfolding same_state
transition-agree_example =
    transition-agree begin opened sessions sessions-AllSettled begin-IsTimely refl

-- A command that takes the session to be in another state.
abbrev mistaken : SessionTransition
mistaken = record begin { source = running }

transition-err_example : (memory_transition mistaken opened sessions).1 ≡ sessions
unfolding transition transition_row find_row is_replay same_state guarded check_transition
transition-err_example = transition-err mistaken opened sessions wrong_source refl

abbrev after : Sessions Digest
after = (transition projection begin opened sessions).1

Sees-refl : (k : ℕ) (t : Tables Digest) → Sees k t t
unfolding Sees
Sees-refl k t e f = f

transition-retry_example :
    ◌≡◌ {A = Result LifecycleError SessionLifecycle × Sessions Digest}
      (transition projection begin after.tables after)
      (ok (updated_row begin drafted), after)
unfolding find_head transition transition_row find_row is_replay same_state guarded check_transition
    validate_session_transition in_states transitions moved append first_look event_by_id
    append_locked under_lock write_new write_event persisted updated_row projection is_terminal
transition-retry_example =
    transition-retry projection begin opened sessions after (updated_row begin drafted) after.tables
      _ (Sees-refl 7 opened) refl refl (Sees-refl 7 after.tables)

run-Continues_example : Continues 1 4 drafted after.rows
unfolding find_row
run-Continues_example =
    run-Continues projection 1 4 drafted sessions after (step begin opened start) refl

abbrev active : SessionLifecycle
active = record drafted {
  state = running;
  round = 2;
  workflow_id = some "wf";
  run_id = some "run";
  initialized_at = some 20;
  started_at = some 20;
  updated_at = 30;
}

abbrev pausing : SessionControlCommand
pausing = record {
  command_id = 61;
  event_id = 62;
  failure_event_id = 63;
  workspace_id = 1;
  session_id = 4;
  kind = pause;
  observed_state = running;
  correlation_id = 9;
  actor_id = 3;
  requested_at = 40;
  reason = "lunch";
  directive = none;
}

request-accepted_example :
    (control_transition pausing running 2 ≡ ok (control_of pausing active))
    × (check_transition (committed (λ t. "{}") (control_of pausing active)) active ≡ ok tt)
    × (event_matches_transition (committed (λ t. "{}") (control_of pausing active))
        ≡ ok (committed (λ t. "{}") (control_of pausing active)))
unfolding validate_control_request is_terminal validate_session_transition control_target
    transitions
request-accepted_example = request-accepted (λ t. "{}") pausing active refl
