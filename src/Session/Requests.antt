-- ===== src/Session/Requests.antt =====
-- A control that a request has passed, carried out by the workflow and the store.
use agora_opencode.Prelude.{
  String, Bool-cases, Bool, arith, ℕ, ◌≡◌, refl, ok, inl, inr, true, false,
}
use agora_opencode.Session.Graph.{same_state_refl, same_state-eq}
use agora_opencode.Session.States.{
  transitions, in_states, same_state, running, waiting_for_human, event_matches_transition,
  validate_session_transition, is_terminal, SessionLifecycle, SessionLifecycleState,
}
use agora_opencode.Session.Controls.{
  committed, control_transition, SessionControlCommand, is_human_input, control_target,
  SessionControlTransition, SessionControlKind, validate_control_request, pause, resume, cancel,
  human_input,
}
use agora_opencode.Session.Store.{check_transition}

abbrev pub control_of : SessionControlCommand → SessionLifecycle → SessionControlTransition
control_of c r = record {
  command = c;
  source = r.state;
  target = control_target c.kind r.state;
  round = r.round;
}

same_state-valid :
    (s : SessionLifecycleState) (n : ℕ) → validate_session_transition s s n n true ≡ ok tt
unfolding validate_session_transition
same_state-valid s n = ground (arith, same_state_refl s)

from_waiting : (m : ℕ) → validate_session_transition waiting_for_human running m m true ≡ ok tt
unfolding validate_session_transition same_state in_states transitions
from_waiting m = ground arith

human_input-valid :
    (s : SessionLifecycleState) (n : ℕ)
    → validate_session_transition s (control_target human_input s) n n true ≡ ok tt
unfolding control_target
human_input-valid s n = elim (Bool-cases (same_state s waiting_for_human)) [
  | inl e ↦ rw (e, same_state-eq s waiting_for_human e) (from_waiting n)
  | inr e ↦ rw e (same_state-valid s n)
]

valid-control :
    (kind : SessionControlKind) (r : SessionLifecycle)
    → validate_control_request kind r ≡ ok tt
    → (is_terminal r.state ≡ false)
      × (validate_session_transition r.state
            (control_target kind r.state)
            r.round
            r.round
            (is_human_input kind)
          ≡ ok tt)
unfolding validate_control_request
valid-control pause r k = (ground (arith, k), ground (arith, k))
valid-control resume r k = (ground (arith, k), ground (arith, k))
valid-control cancel r k = (ground (arith, k), ground (arith, k))
valid-control human_input r k = (ground (arith, k), human_input-valid r.state r.round)

valid_target :
    (s t : SessionLifecycleState) (n : ℕ) (allow : Bool)
    → validate_session_transition s t n n allow ≡ ok tt
    → validate_session_transition s t n n (same_state s t) ≡ ok tt
unfolding validate_session_transition
valid_target s t n allow v = elim (Bool-cases (same_state s t)) [
  | inl e ↦ ground (arith, e)
  | inr e ↦ ground (arith, e, v)
]

-- A control request that is accepted for a row is turned into a transition from the state of the
-- row, whose command passes its validator and the checks of the store for the same row.
pub request-accepted :
    (payload : SessionControlTransition → String)
    → (c : SessionControlCommand) (r : SessionLifecycle) → validate_control_request c.kind r ≡ ok tt
    → (control_transition c r.state r.round ≡ ok (control_of c r))
      × (check_transition (committed payload (control_of c r)) r ≡ ok tt)
      × (event_matches_transition (committed payload (control_of c r))
          ≡ ok (committed payload (control_of c r)))
unfolding control_transition check_transition committed event_matches_transition
request-accepted payload c r k =
    let (alive, v) = valid-control c.kind r k in
    (
      rw (alive, v) refl,
      rw (same_state_refl r.state) (valid_target r.state _ r.round _ v),
      ground (arith, same_state r.state (control_target c.kind r.state)),
    )
