-- ===== src/Session/History.antt =====
-- The course of a session over transitions.
use agora_opencode.Prelude.{
  ap, Option, Result, ◌&&◌, ◌∙◌, Bool-cases, ◌==◌, Bool, List, sym, ◌≤◌, arith, ℕ, ◌≡◌, refl, ok,
  err, inl, inr, true, false, some, none, [], ◌∷◌,
}
use agora_opencode.Ledger.Defs.{LedgerEvent, LedgerError, Tables, Hashing}
use agora_opencode.Ledger.Append.{some-inj, both_same, both-eq}
use agora_opencode.Session.Adapters.{replayed-rows}
use agora_opencode.Session.Graph.{same_state_refl}
use agora_opencode.Session.States.{
  LifecycleError, same_state, SessionTransition, is_terminal, validate_session_transition,
  SessionLifecycle, SessionLifecycleState,
}
use agora_opencode.Session.Store.{
  is_replay, guarded, transition, moved, transition_row, is_row, check_transition, set_row,
  updated_row, find_row, Sessions,
}
use agora_opencode.Session.Transition.{validated-terminal, checked-validated}

-- The round does not fall, and a session that has ended keeps its state and its round.
pub record Progress (r r' : SessionLifecycle) : Type 0 where
  pub round_le : r.round ≤ r'.round
  pub ended : is_terminal r.state ≡ true → (r'.state ≡ r.state) × (r'.round ≡ r.round)

Progress-refl : (r : SessionLifecycle) → Progress r r
Progress-refl r = record { round_le = omega arith; ended = λ _. (refl, refl) }

Progress-trans : (a b c : SessionLifecycle) → Progress a b → Progress b c → Progress a c
Progress-trans a b c p q = record {
  round_le = omega (arith, p.round_le, q.round_le);
  ended =
      λ e. let (s, n) = p.ended e in let (s', n') = q.ended (rw (sym s) at e) in (s' ∙ s, n' ∙ n);
}

validated_round :
    (s t : SessionLifecycleState) (c n : ℕ) (allow : Bool)
    → validate_session_transition s t c n allow ≡ ok tt
    → c ≤ n
unfolding validate_session_transition
validated_round s t c n allow v = ground (arith, v)

validated_same :
    (s t : SessionLifecycleState) (c n : ℕ) (allow : Bool)
    → validate_session_transition s t c n allow ≡ ok tt
    → same_state s t ≡ true
    → n ≡ c
unfolding validate_session_transition
validated_same s t c n allow v e = ground (arith, v, e)

updated-Progress :
    (c : SessionTransition) (r : SessionLifecycle)
    → check_transition c r ≡ ok tt
    → Progress r (updated_row c r)
unfolding updated_row
updated-Progress c r k =
    let v = checked-validated c r k in
    record {
      round_le = validated_round r.state c.target r.round c.round c.allow_same_state v;
      ended = λ e.
          let same = validated-terminal r.state c.target r.round c.round c.allow_same_state v e in
          (
            sym same,
            validated_same r.state c.target r.round c.round c.allow_same_state v
                (rw (sym same) (same_state_refl r.state)),
          );
    }

pub find-set_self :
    (x : SessionLifecycle) (rs : List SessionLifecycle) (r : SessionLifecycle)
    → find_row x.workspace_id x.session_id rs ≡ some r
    → find_row x.workspace_id x.session_id (set_row x rs) ≡ some x
unfolding find_row set_row
find-set_self x [] r e = absurd (ground (arith, e))
find-set_self x (y ∷ ys) r e = elim (Bool-cases (is_row x.workspace_id x.session_id y)) [
  | inl h ↦ rw h (rw (both_same x.workspace_id x.session_id) refl)
  | inr h ↦ rw (h, h) (find-set_self x ys r (rw h at e))
]

find-set_other :
    (x : SessionLifecycle) (w s : ℕ) (rs : List SessionLifecycle)
    → (x.workspace_id == w && x.session_id == s) ≡ false
    → find_row w s (set_row x rs) ≡ find_row w s rs
unfolding find_row set_row
find-set_other x w s [] e = refl
find-set_other x w s (y ∷ ys) e = ground (arith, find-set_other x w s ys e)

pub find_row-key :
    (w s : ℕ) (rs : List SessionLifecycle) (r : SessionLifecycle)
    → find_row w s rs ≡ some r
    → (r.workspace_id ≡ w) × (r.session_id ≡ s)
unfolding find_row
find_row-key w s [] r e = absurd (ground (arith, e))
find_row-key w s (y ∷ ys) r e = elim (Bool-cases (is_row w s y)) [
  | inl h ↦ let same : y ≡ r = some-inj (rw h at e) in rw (sym same) (ground (arith, h))
  | inr h ↦ find_row-key w s ys r (rw h at e)
]

pub find_row-own :
    (w s : ℕ) (rs : List SessionLifecycle) (r : SessionLifecycle)
    → find_row w s rs ≡ some r
    → find_row r.workspace_id r.session_id rs ≡ some r
find_row-own w s rs r f =
    let (kw, ks) = find_row-key w s rs r f in
    ap (λ k. find_row k r.session_id rs) kw ∙ ap (λ k. find_row w k rs) ks ∙ f

-- The row of a session as a store has it, if it has moved on from `r`.
pub record Continues (w s : ℕ) (r : SessionLifecycle) (rs : List SessionLifecycle) : Type 0 where
  pub now : SessionLifecycle
  pub there : find_row w s rs ≡ some now
  pub progress : Progress r now

unchanged :
    (w s : ℕ) (r : SessionLifecycle) (rs : List SessionLifecycle)
    → find_row w s rs ≡ some r
    → Continues w s r rs
unchanged w s r rs e = record { now = r; there = e; progress = Progress-refl r }

replaced :
    (x : SessionLifecycle) (w s : ℕ) (rs : List SessionLifecycle) (r old : SessionLifecycle)
    → find_row x.workspace_id x.session_id rs ≡ some old
    → Progress old x
    → find_row w s rs ≡ some r
    → Continues w s r (set_row x rs)
replaced x w s rs r old f p e = elim (Bool-cases (x.workspace_id == w && x.session_id == s)) [
  | inl h ↦
      let (ew, es) = both-eq x.workspace_id x.session_id w s h in
      let same : old ≡ r = some-inj (sym f ∙ rw (ew, es) at e) in
      record { now = x; there = rw (ew, es) (find-set_self x rs old f); progress = rw (sym same) p }
  | inr h ↦ unchanged w s r (set_row x rs) (find-set_other x w s rs h ∙ e)
]

module _ {H : Type 0} ⦃h : Hashing H⦄
    (view : SessionLifecycle → Result LifecycleError SessionLifecycle) (w s : ℕ)
    (r : SessionLifecycle) where
  moved-Continues :
      (c : SessionTransition) (old : SessionLifecycle) (st : Sessions H)
      → (o : Result LedgerError (LedgerEvent H)) (tables : Tables H)
      → find_row old.workspace_id old.session_id st.rows ≡ some old
      → check_transition c old ≡ ok tt
      → find_row w s st.rows ≡ some r
      → Continues w s r (moved view c old st o tables).1.rows
  unfolding moved updated_row
  moved-Continues c old st (ok x) tables f k e =
      replaced (updated_row c old) w s st.rows r old f (updated-Progress c old k) e
  moved-Continues c old st (err x) tables f k e = unchanged w s r st.rows e

  guarded-Continues :
      (c : SessionTransition) (old : SessionLifecycle) (seen : Tables H) (st : Sessions H)
      → (o : Result LifecycleError (Unit {0}))
      → find_row old.workspace_id old.session_id st.rows ≡ some old
      → check_transition c old ≡ o
      → find_row w s st.rows ≡ some r
      → Continues w s r (guarded view c old seen st o).1.rows
  unfolding guarded
  guarded-Continues c old seen st (ok _) f k e = moved-Continues c old st _ _ f k e
  guarded-Continues c old seen st (err x) f k e = unchanged w s r st.rows e

  row-Continues :
      (c : SessionTransition) (seen : Tables H) (st : Sessions H) (o : Option SessionLifecycle)
      → find_row c.event.workspace_id c.event.session_id st.rows ≡ o
      → find_row w s st.rows ≡ some r
      → Continues w s r (transition_row view c seen st o).1.rows
  unfolding transition_row
  row-Continues c seen st none f e = unchanged w s r st.rows e
  row-Continues c seen st (some old) f e = elim (Bool-cases (is_replay c old)) [
    | inl q ↦ rw (q, replayed-rows view old st _ _) (unchanged w s r st.rows e)
    | inr q ↦ rw q (
        guarded-Continues c old seen st (check_transition c old) (find_row-own _ _ st.rows old f)
          refl e)
  ]

  transition-Continues :
      (c : SessionTransition) (seen : Tables H) (st : Sessions H)
      → find_row w s st.rows ≡ some r
      → Continues w s r (transition view c seen st).1.rows
  unfolding transition
  transition-Continues c seen st e = row-Continues c seen st _ refl e

module _ {H : Type 0} ⦃h : Hashing H⦄
    (view : SessionLifecycle → Result LifecycleError SessionLifecycle) where
  -- The states of a store that transitions lead to, of any sessions and with any outcome.
  pub data Run : Sessions H → Sessions H → Type 0 where
    start : {st : Sessions H} → Run st st
    step :
        {st st' : Sessions H} (c : SessionTransition) (seen : Tables H)
        → Run (transition view c seen st).1 st'
        → Run st st'

  -- Over any run of transitions, of whatever sessions, the row of a session stays, its round
  -- does not fall, and once it is terminal its state and its round do not change.
  pub run-Continues :
      (w s : ℕ) (r : SessionLifecycle) (st st' : Sessions H)
      → Run st st'
      → find_row w s st.rows ≡ some r
      → Continues w s r st'.rows
  run-Continues w s r st _ start e = unchanged w s r st.rows e
  run-Continues w s r st st' (step c seen more) e =
      let next = transition-Continues view w s r c seen st e in
      let final = run-Continues w s next.now _ st' more next.there in
      record {
        now = final.now;
        there = final.there;
        progress = Progress-trans r next.now final.now next.progress final.progress;
      }
