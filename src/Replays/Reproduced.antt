-- ===== src/Replays/Reproduced.antt =====
-- What a strict replay checks of one step, of the ledger and of the learning bundles.
use agora_opencode.Prelude.{
  ℕ, ◌+◌, ◌≡◌, refl, ap, ◌∙◌, ◌↔◌, true, false, ◌||◌, not, Option, none, some, String, List, [],
  ◌∷◌, arith, ok, >>=-eq-ok, ◌⊎◌, inl, inr, length, map, All, Bool-cases,
}
use text.Mathlib.TextEquality.{eq_iff}
use agora_opencode.Ledger.Defs.{Hashing, LedgerEvent}
use agora_opencode.Replays.Types.{
  MarlReplayBundle, ReplayExecution, ReplayImplementationIdentity, ReplayMismatch, ReplayStep,
  ReplayStepPolicy, recorded, deterministic, external,
}
use agora_opencode.Replays.Registry.{ReplayImplementation, resolve}
use agora_opencode.Replays.Steps.{
  same_texts, same_hashes, same_identity, strict_mismatch, strict_run, strict_pinned, strict_step,
}
use agora_opencode.Replays.Service.{
  MarlOutcome, marl_verified, compare_events, compare_ledgers, verify_bundles, verify_marl,
}
use agora_opencode.Replays.Modes.{strict_loop, strict_next}

pub same_texts_iff : (a b : Option String) → (same_texts a b ≡ true) ↔ (a ≡ b)
same_texts_iff none none = ground arith
same_texts_iff none (some t) = ground arith
same_texts_iff (some s) none = ground arith
same_texts_iff (some s) (some t) = ground (arith, eq_iff s t)

module _ {H : Type 0} ⦃h : Hashing H⦄ where
  pub same_hashes_iff : (a b : Option H) → (same_hashes a b ≡ true) ↔ (a ≡ b)
  same_hashes_iff none none = ground arith
  same_hashes_iff none (some t) = ground arith
  same_hashes_iff (some s) none = ground arith
  same_hashes_iff (some s) (some t) = ground (arith, h.same_iff s t)

  pub same_identity_iff :
      (a b : ReplayImplementationIdentity H) → (same_identity a b ≡ true) ↔ (a ≡ b)
  unfolding same_identity
  same_identity_iff a b = ground (
    arith,
    eq_iff a.implementation_id b.implementation_id,
    eq_iff a.implementation_version b.implementation_version,
    same_texts_iff a.provider b.provider,
    same_texts_iff a.model b.model,
    same_hashes_iff a.configuration_hash b.configuration_hash,
  )

  -- The run of an implementation that is neither external nor nondeterministic gave what was recorded,
  -- under the identity that the step pins.
  pub record Ran (impls : List (ReplayImplementation H)) (s : ReplayStep H) : Type 0 where
    pub key : ReplayImplementationIdentity H
    pub impl : ReplayImplementation H
    pub execution : ReplayExecution H
    pub pinned : s.implementation ≡ some key
    pub resolved : resolve impls key ≡ some impl
    pub inside : impl.external ≡ false
    pub repeatable : impl.deterministic ≡ true
    pub executed : impl.execute s.input ≡ ok execution
    pub same_key : execution.implementation ≡ key
    pub same_output : execution.output_hash ≡ s.expected_output_hash
    pub same_status : execution.status ≡ s.expected_status

  -- A step is only recorded, or its pinned implementation reproduces it.
  abbrev pub Reproduced : List (ReplayImplementation H) → ReplayStep H → Type 0
  Reproduced impls s = (s.policy ≡ recorded) ⊎ Ran impls s

  mismatch-none :
      (s : ReplayStep H) (key : ReplayImplementationIdentity H) (x : ReplayExecution H)
      → s.implementation ≡ some key
      → (strict_mismatch s x ≡ none)
        ↔ (x.implementation ≡ key)
          × (x.output_hash ≡ s.expected_output_hash)
          × (x.status ≡ s.expected_status)
  unfolding strict_mismatch
  mismatch-none s key x e = ground (
    arith,
    same_identity_iff x.implementation key,
    h.same_iff x.output_hash s.expected_output_hash,
    same_texts_iff x.status s.expected_status,
  )

  module _ (impls : List (ReplayImplementation H)) (s : ReplayStep H) where
    run-Ran :
        (key : ReplayImplementationIdentity H) (k : ℕ) (o : Option (ReplayImplementation H))
        → s.implementation ≡ some key
        → resolve impls key ≡ o
        → strict_run s o ≡ ok (k, none)
        → Ran impls s × (k ≡ 1)
    unfolding strict_run
    run-Ran key k none pinned found e = absurd (ground arith)
    run-Ran key k (some i) pinned found e = elim (Bool-cases (i.external || not i.deterministic)) [
      | inl bad ↦ absurd (ground (arith, rw bad at e))
      | inr fine ↦
          let (x, ran, e') = >>=-eq-ok (i.execute s.input) _ (rw fine at e) in
          let (a, b, c) = (mismatch-none s key x pinned).0 (ground arith) in
          (
            record {
              key = key;
              impl = i;
              execution = x;
              pinned = pinned;
              resolved = found;
              inside = ground arith;
              repeatable = ground arith;
              executed = ran;
              same_key = a;
              same_output = b;
              same_status = c;
            },
            ground arith,
          )
    ]

    pinned-Ran :
        (k : ℕ) (o : Option (ReplayImplementationIdentity H))
        → s.implementation ≡ o
        → strict_pinned impls s o ≡ ok (k, none)
        → Ran impls s × (k ≡ 1)
    pinned-Ran k none pinned e = absurd (cc)
    pinned-Ran k (some key) pinned e = run-Ran key k (resolve impls key) pinned refl e

    step-Reproduced :
        (k : ℕ) (p : ReplayStepPolicy)
        → s.policy ≡ p
        → strict_step impls s p ≡ ok (k, none)
        → Reproduced impls s × (k ≡ 1)
    unfolding strict_step
    step-Reproduced k recorded e r = (inl e, ground arith)
    step-Reproduced k deterministic e r =
        let (ran, one) = pinned-Ran k s.implementation refl r in (inr ran, one)
    step-Reproduced k external e r =
        let (ran, one) = pinned-Ran k s.implementation refl r in (inr ran, one)

    Ran-pinned : (r : Ran impls s) → strict_pinned impls s s.implementation ≡ ok (1, none)
    unfolding strict_run
    Ran-pinned r = ground (
      arith,
      r.pinned,
      r.resolved,
      r.inside,
      r.repeatable,
      r.executed,
      (mismatch-none s r.key r.execution r.pinned).1 (r.same_key, r.same_output, r.same_status),
    )

    Ran-step : (p : ReplayStepPolicy) → Ran impls s → strict_step impls s p ≡ ok (1, none)
    unfolding strict_step
    Ran-step recorded r = refl
    Ran-step deterministic r = Ran-pinned r
    Ran-step external r = Ran-pinned r

    Reproduced-step : Reproduced impls s → strict_step impls s s.policy ≡ ok (1, none)
    unfolding strict_step
    Reproduced-step (inl e) = rw e refl
    Reproduced-step (inr r) = Ran-step s.policy r

  -- The strict loop ends without a mismatch exactly where every step is reproduced, and has then
  -- counted every step.
  pub loop-Reproduced :
      (impls : List (ReplayImplementation H)) (ss : List (ReplayStep H)) (n m : ℕ)
      → strict_loop impls ss n ≡ ok (m, none)
      → All (Reproduced impls) ss × (m ≡ n + length ss)
  unfolding strict_loop
  loop-Reproduced impls [] n m e = (tt, ground arith)
  loop-Reproduced impls (s ∷ ss) n m e =
      let ((k, o), stepped, e') = >>=-eq-ok (strict_step impls s s.policy) _ e in
      after (loop-Reproduced impls ss) k o stepped e'
    where
      after :
          ((n m : ℕ)
            → strict_loop impls ss n ≡ ok (m, none)
            → All (Reproduced impls) ss × (m ≡ n + length ss))
          → (k : ℕ) (o : Option (ReplayMismatch H)) → strict_step impls s s.policy ≡ ok (k, o)
          → strict_next (strict_loop impls ss) n (k, o) ≡ ok (m, none)
          → All (Reproduced impls) (s ∷ ss) × (m ≡ n + length (s ∷ ss))
      after loop k none stepped e' =
          let (here, one) = step-Reproduced impls s k s.policy refl stepped in
          let (rest, count) = loop (n + k) m e' in ((here, rest), omega arith)
      after loop k (some x) stepped e' = absurd (ground arith)

  pub Reproduced-loop :
      (impls : List (ReplayImplementation H)) (ss : List (ReplayStep H)) (n : ℕ)
      → All (Reproduced impls) ss
      → strict_loop impls ss n ≡ ok (n + length ss, none)
  unfolding strict_loop
  Reproduced-loop impls [] n a = ap (λ k. ok (k, none)) (omega arith)
  Reproduced-loop impls (s ∷ ss) n a =
      rw (Reproduced-step impls s a.0)
        (Reproduced-loop impls ss (n + 1) a.1 ∙ ap (λ k. ok (k, none)) (omega arith))

  -- The hashes of two lists of events agree, one by one.
  abbrev pub hashes_of : List (LedgerEvent H) → List H
  hashes_of = map (λ (e : LedgerEvent H). e.event_hash)

  events-same :
      (rs as' : List (LedgerEvent H))
      → compare_events rs as' ≡ none
      → length rs ≡ length as'
      → hashes_of rs ≡ hashes_of as'
  unfolding compare_events
  events-same [] [] e k = refl
  events-same [] (a ∷ as') e k = absurd (omega arith)
  events-same (r ∷ rs) [] e k = absurd (omega arith)
  events-same (r ∷ rs) (a ∷ as') e k =
      ground (arith, h.same_iff r.event_hash a.event_hash, events-same rs as')

  same-events :
      (rs as' : List (LedgerEvent H))
      → hashes_of rs ≡ hashes_of as'
      → (compare_events rs as' ≡ none) × (length rs ≡ length as')
  unfolding compare_events
  same-events [] [] e = (refl, refl)
  same-events [] (a ∷ as') e = absurd (ground arith)
  same-events (r ∷ rs) [] e = absurd (ground arith)
  same-events (r ∷ rs) (a ∷ as') e =
      ground (arith, h.same_iff r.event_hash a.event_hash, same-events rs as')

  pub compare_ledgers_iff :
      (rs as' : List (LedgerEvent H))
      → (compare_ledgers rs as' ≡ none) ↔ (hashes_of rs ≡ hashes_of as')
  unfolding compare_ledgers
  compare_ledgers_iff rs as' = (
    λ e. events-same rs as' (ground arith) (ground arith),
    λ e. let (a, b) = same-events rs as' e in ground arith,
  )

  -- Each bundle is verified by the check that the service has.
  abbrev pub Verifies : Option (MarlReplayBundle → MarlOutcome H) → MarlReplayBundle → Type 0
  Verifies none b = ⊥
  Verifies (some check) b = check b ≡ marl_verified

  bundles-Verifies :
      (check : MarlReplayBundle → MarlOutcome H) (bs : List MarlReplayBundle)
      → (verify_bundles check bs ≡ none) ↔ All (Verifies (some check)) bs
  unfolding verify_bundles
  bundles-Verifies check [] = (λ e. tt, λ a. refl)
  bundles-Verifies check (b ∷ bs) = ground (arith, bundles-Verifies check bs)

  pub verify_marl_iff :
      (o : Option (MarlReplayBundle → MarlOutcome H)) (bs : List MarlReplayBundle)
      → (verify_marl o bs ≡ none) ↔ All (Verifies o) bs
  unfolding verify_marl
  verify_marl_iff none [] = (λ e. tt, λ a. refl)
  verify_marl_iff none (b ∷ bs) = (λ e. absurd (ground arith), λ a. absurd a.0)
  verify_marl_iff (some check) [] = (λ e. tt, λ a. refl)
  verify_marl_iff (some check) (b ∷ bs) = bundles-Verifies check (b ∷ bs)
