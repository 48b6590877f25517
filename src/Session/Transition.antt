-- ===== src/Session/Transition.antt =====
-- What the checks of a transition leave of a row.
use agora_opencode.Prelude.{
  not, ltb, Bool-cases, arith, Bool, ℕ, ◌≡◌, refl, ok, inl, inr, true, false,
}
use agora_opencode.Session.States.{
  same_bool, is_none, same_state, is_terminal, projection, SessionTransition,
  validate_session_transition, SessionLifecycle, SessionLifecycleState, draft,
}
use agora_opencode.Session.Store.{updated_row, check_transition}
use agora_opencode.Session.Graph.{same_state-eq, terminal-stuck}

-- A row that the database's view takes, and that has a start once it left DRAFT.
pub record IsSettled (r : SessionLifecycle) : Type 0 where
  pub checked : projection r ≡ ok r
  pub begun : same_state r.state draft ≡ false → is_none r.started_at ≡ false

pub validated-terminal :
    (s t : SessionLifecycleState) (c n : ℕ) (allow : Bool)
    → validate_session_transition s t c n allow ≡ ok tt
    → is_terminal s ≡ true
    → s ≡ t
unfolding validate_session_transition
validated-terminal s t c n allow v e = elim (Bool-cases (same_state s t)) [
  | inl same ↦ same_state-eq s t same
  | inr other ↦ absurd (ground (arith, other, terminal-stuck s t e, v))
]

pub checked-validated :
    (c : SessionTransition) (r : SessionLifecycle)
    → check_transition c r ≡ ok tt
    → validate_session_transition r.state c.target r.round c.round c.allow_same_state ≡ ok tt
unfolding check_transition
checked-validated c r k = ground arith

still_terminal :
    (c : SessionTransition) (r : SessionLifecycle)
    → check_transition c r ≡ ok tt
    → is_terminal c.target ≡ false
    → is_terminal r.state ≡ false
still_terminal c r k e = elim (Bool-cases (is_terminal r.state)) [
  | inr f ↦ f
  | inl t ↦
      let same =
        validated-terminal r.state c.target r.round c.round c.allow_same_state
          (checked-validated c r k) t in
      absurd (ground (arith, same, t, e))
]

-- What the checks of a projection have found, but for what concerns DRAFT.
record Checked (r : SessionLifecycle) : Type 0 where
  attached : same_bool (is_none r.workflow_id) (is_none r.run_id) ≡ true
  initialized : same_state r.state draft ≡ false → is_none r.initialized_at ≡ false
  ended : same_bool (is_terminal r.state) (not (is_none r.ended_at)) ≡ true

projection-inv : (r : SessionLifecycle) → projection r ≡ ok r → Checked r
unfolding projection
projection-inv r p = record {
  attached = ground (arith, p);
  initialized = λ d. ground (arith, p, d);
  ended = ground (arith, p);
}

projection-of :
    (r : SessionLifecycle)
    → same_bool (is_none r.workflow_id) (is_none r.run_id) ≡ true
    → ltb r.updated_at r.created_at ≡ false
    → same_state r.state draft ≡ false
    → is_none r.initialized_at ≡ false
    → is_none r.started_at ≡ false
    → same_bool (is_terminal r.state) (not (is_none r.ended_at)) ≡ true
    → projection r ≡ ok r
unfolding projection
projection-of r a b c d e f = ground (arith, a, b, c, d, e, f)

updated-initialized :
    (c : SessionTransition) (r : SessionLifecycle)
    → IsSettled r
    → is_none (updated_row c r).initialized_at ≡ false
unfolding updated_row
updated-initialized c r s = elim (Bool-cases (same_state r.state draft)) [
  | inl d ↦ rw d refl
  | inr d ↦ rw d ((projection-inv r s.checked).initialized d)
]

updated-started :
    (c : SessionTransition) (r : SessionLifecycle)
    → IsSettled r
    → is_none (updated_row c r).started_at ≡ false
unfolding updated_row
updated-started c r s = elim (Bool-cases (same_state r.state draft)) [
  | inl d ↦ rw d refl
  | inr d ↦ rw (d, s.begun d) (ground (arith, s.begun d))
]

updated-ended :
    (c : SessionTransition) (r : SessionLifecycle)
    → IsSettled r
    → check_transition c r ≡ ok tt
    → same_bool (is_terminal c.target) (not (is_none (updated_row c r).ended_at)) ≡ true
unfolding updated_row
updated-ended c r s k = elim (Bool-cases (is_terminal c.target)) [
  | inl e ↦ rw e refl
  | inr e ↦
      let open_source = still_terminal c r k e in
      rw e (ground (arith, open_source, (projection-inv r s.checked).ended))
]

-- A checked transition that is not into DRAFT keeps a row settled.
pub updated-IsSettled :
    (c : SessionTransition) (r : SessionLifecycle)
    → IsSettled r
    → check_transition c r ≡ ok tt
    → same_state c.target draft ≡ false
    → ltb c.event.recorded_at r.created_at ≡ false
    → IsSettled (updated_row c r)
unfolding updated_row
updated-IsSettled c r s k d b = record {
  checked =
      projection-of (updated_row c r) (projection-inv r s.checked).attached b d
        (updated-initialized c r s) (updated-started c r s) (updated-ended c r s k);
  begun = λ _. updated-started c r s;
}
