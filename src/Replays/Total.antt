-- ===== src/Replays/Total.antt =====
-- A replay answers every request with a result that its validator takes.
use agora_opencode.Prelude.{
  contains, any, ℕ, ◌+◌, ◌≡◌, refl, sym, true, false, ◌||◌, not, Option, none, some, List, [], ◌∷◌,
  ◌++◌, arith, Result, ok, ◌>>=◌, ◌==◌, all, Mem, Bool-cases, inl, inr, String, is_nil,
  if◌then◌else◌,
}
use agora_opencode.Ledger.Defs.{Hashing}
use agora_opencode.Session.States.{is_none}
use agora_opencode.Replays.Types.{
  nondeterministic_implementation, invalid_live_identity, HistoricalReplay, LiveReplayLaunch,
  ReplayDifference, ReplayExecution, ReplayFault, ReplayImplementationIdentity,
  ReplayImplementationSelection, ReplayMismatch, ReplayMode, ReplayRequest, ReplayResult,
  ReplayStep, ReplayStepPolicy, recorded, deterministic, external, strict, tolerant, live, verified,
  matched, different, step_is_coherent, live_identity, result_shape, shape_in, is_recorded,
}
use agora_opencode.Replays.Registry.{same_key, ReplayImplementation, resolve}
use agora_opencode.Replays.Steps.{
  mismatch_at, Compares, unresolved, found, strict_step, strict_run, strict_pinned, strict_mismatch,
  tolerant_step, tolerant_run, tolerant_pinned, differences_from, selected,
}
use agora_opencode.Replays.Service.{
  plain_mismatch, checked, failed_with, failed_result, completed_result,
}
use agora_opencode.Replays.Modes.{
  strict_next, strict_loop, strict_end, tolerant_loop, tolerant_end, launched, started_result,
  historical_ids, new_ids,
}
use agora_opencode.Ledger.Append.{some-inj}

-- The call returns.
abbrev pub Returns : {A : Type 0} → Result ReplayFault A → Type 0
Returns {A} r = (a : A) × (r ≡ ok a)

pub bind-Returns :
    {A B : Type 0} (m : Result ReplayFault A) (f : A → Result ReplayFault B)
    → Returns m
    → ((a : A) → Returns (f a))
    → Returns (m >>= f)
bind-Returns m f (a, e) k = rw e (k a)

-- The same, where what follows may use what the first call returned.
pub bind-Returns-eq :
    {A B : Type 0} (m : Result ReplayFault A) (f : A → Result ReplayFault B)
    → Returns m
    → ((a : A) → m ≡ ok a → Returns (f a))
    → Returns (m >>= f)
bind-Returns-eq m f (a, e) k = rw e (k a e)

module _ {H : Type 0} where
  checked-Returns : (r : ReplayResult H) → result_shape r ≡ true → Returns (checked r)
  unfolding checked
  checked-Returns r e = (r, rw e refl)

  failed_shape :
      (mode : ReplayMode) (q : ReplayRequest H) (m : ReplayMismatch H) (n : ℕ)
      → shape_in mode (failed_result q m n) ≡ true
  unfolding shape_in
  failed_shape strict q m n = refl
  failed_shape tolerant q m n = refl
  failed_shape live q m n = refl

  pub failed_with-Returns :
      (q : ReplayRequest H) (m : ReplayMismatch H) (n : ℕ) → Returns (failed_with q m n)
  unfolding failed_with result_shape
  failed_with-Returns q m n = checked-Returns (failed_result q m n) (failed_shape q.mode q m n)

module _ {H : Type 0} where
  resolve-Mem :
      (impls : List (ReplayImplementation H)) (key : ReplayImplementationIdentity H)
      → (i : ReplayImplementation H) → resolve impls key ≡ some i
      → Mem i impls
  unfolding resolve
  resolve-Mem [] key i e = absurd (ground arith)
  resolve-Mem (j ∷ js) key i e = elim (Bool-cases (same_key j.identity key)) [
    | inl here ↦ inl (some-inj (sym (rw here at e)))
    | inr there ↦ inr (resolve-Mem js key i (rw there at e))
  ]

module _ {H : Type 0} ⦃h : Hashing H⦄ where
  pub pinned-of_coherent :
      (s : ReplayStep H)
      → step_is_coherent s ≡ true
      → is_recorded s.policy ≡ false
      → is_none s.implementation ≡ false
  unfolding step_is_coherent
  pinned-of_coherent s c e = ground arith

  module _ (impls : List (ReplayImplementation H))
      (runs : (i : ReplayImplementation H) (input : String)
        → Mem i impls
        → (x : ReplayExecution H) × (i.execute input ≡ ok x)) where
    strict_run-Returns :
        (s : ReplayStep H) (o : Option (ReplayImplementation H))
        → ((i : ReplayImplementation H) → o ≡ some i → Mem i impls)
        → Returns (strict_run s o)
    unfolding strict_run
    strict_run-Returns s none m = (_, refl)
    strict_run-Returns s (some i) m = elim (Bool-cases (i.external || not i.deterministic)) [
      | inl bad ↦ ((0, some (mismatch_at nondeterministic_implementation s)), rw bad refl)
      | inr fine ↦ rw fine (
          bind-Returns (i.execute s.input) (λ x. ok (1, strict_mismatch s x))
            (runs i s.input (m i refl)) (λ x. (_, refl)))
    ]

    strict_pinned-Returns :
        (s : ReplayStep H) (o : Option (ReplayImplementationIdentity H))
        → is_none o ≡ false
        → Returns (strict_pinned impls s o)
    strict_pinned-Returns s none e = absurd (cc)
    strict_pinned-Returns s (some key) e =
        strict_run-Returns s (resolve impls key) (λ i found'. resolve-Mem impls key i found')

    strict_step-Returns :
        (s : ReplayStep H) (p : ReplayStepPolicy)
        → (is_recorded p ≡ false → is_none s.implementation ≡ false)
        → Returns (strict_step impls s p)
    unfolding strict_step
    strict_step-Returns s recorded k = (_, refl)
    strict_step-Returns s deterministic k = strict_pinned-Returns s s.implementation (k refl)
    strict_step-Returns s external k = strict_pinned-Returns s s.implementation (k refl)

    strict_next-Returns :
        (next : ℕ → Result ReplayFault (ℕ × Option (ReplayMismatch H)))
        → ((n : ℕ) → Returns (next n))
        → (n : ℕ) (out : ℕ × Option (ReplayMismatch H)) → Returns (strict_next next n out)
    strict_next-Returns next r n (k, some m) = (_, refl)
    strict_next-Returns next r n (k, none) = r (n + k)

    pub strict_loop-Returns :
        (ss : List (ReplayStep H)) (n : ℕ)
        → all step_is_coherent ss ≡ true
        → Returns (strict_loop impls ss n)
    unfolding strict_loop
    strict_loop-Returns [] n c = (_, refl)
    strict_loop-Returns (s ∷ ss) n c =
        bind-Returns (strict_step impls s s.policy) _
          (strict_step-Returns s s.policy (pinned-of_coherent s (ground arith)))
          (strict_next-Returns (strict_loop impls ss) (λ k. strict_loop-Returns ss k (ground arith))
            n)

    tolerant_run-Returns :
        (s : ReplayStep H) (key : ReplayImplementationIdentity H)
        → (o : Option (ReplayImplementation H))
        → ((i : ReplayImplementation H) → o ≡ some i → Mem i impls)
        → Returns (tolerant_run s key o)
    unfolding tolerant_run
    tolerant_run-Returns s key none m = (_, refl)
    tolerant_run-Returns s key (some i) m =
        bind-Returns (i.execute s.input) (λ x. ok (found 1 (differences_from s key x)))
          (runs i s.input (m i refl)) (λ x. (_, refl))

    module _ (chosen : List (ReplayImplementationSelection H)) where
      tolerant_pinned-Returns :
          (s : ReplayStep H) (o : Option (ReplayImplementationIdentity H))
          → is_none o ≡ false
          → Returns (tolerant_pinned impls chosen s o)
      tolerant_pinned-Returns s none e = absurd (cc)
      tolerant_pinned-Returns s (some key) e =
          tolerant_run-Returns s key (resolve impls (selected chosen s.step_id key))
            (λ i found'. resolve-Mem impls (selected chosen s.step_id key) i found')

      tolerant_step-Returns :
          (s : ReplayStep H) (p : ReplayStepPolicy)
          → (is_recorded p ≡ false → is_none s.implementation ≡ false)
          → Returns (tolerant_step impls chosen s p)
      unfolding tolerant_step
      tolerant_step-Returns s recorded k = (_, refl)
      tolerant_step-Returns s deterministic k = tolerant_pinned-Returns s s.implementation (k refl)
      tolerant_step-Returns s external k = elim (Bool-cases (not s.tolerant_reexecution_allowed)) [
        | inl skip ↦ (found 0 [], rw skip refl)
        | inr run ↦ rw run (tolerant_pinned-Returns s s.implementation (k refl))
      ]

      pub tolerant_loop-Returns :
          (ss : List (ReplayStep H)) (n : ℕ) (ds : List (ReplayDifference H))
          → all step_is_coherent ss ≡ true
          → Returns (tolerant_loop impls chosen ss n ds)
      unfolding tolerant_loop
      tolerant_loop-Returns [] n ds c = (_, refl)
      tolerant_loop-Returns (s ∷ ss) n ds c =
          bind-Returns (tolerant_step impls chosen s s.policy) _
            (tolerant_step-Returns s s.policy (pinned-of_coherent s (ground arith)))
            (elim [
              | unresolved m ↦ ((n, unresolved m), refl)
              | found k more ↦ tolerant_loop-Returns ss (n + k) (ds ++ more) (ground arith)
            ])

  -- The results that the modes build pass the validator of their mode.
  pub verified_shape :
      (m : ReplayMode) (q : ReplayRequest H) (n : ℕ)
      → m ≡ strict
      → shape_in m (completed_result q verified n []) ≡ true
  unfolding shape_in
  verified_shape strict q n e = refl
  verified_shape tolerant q n e = absurd (cc)
  verified_shape live q n e = absurd (cc)

  compared_shape :
      (m : ReplayMode) (q : ReplayRequest H) (n : ℕ) (ds : List (ReplayDifference H))
      → m ≡ tolerant
      → shape_in m (completed_result q (if is_nil ds then matched else different) n ds) ≡ true
  unfolding shape_in
  compared_shape strict q n ds e = absurd (cc)
  compared_shape tolerant q n [] e = refl
  compared_shape tolerant q n (d ∷ ds) e = refl
  compared_shape live q n ds e = absurd (cc)

  started_shape :
      (m : ReplayMode) (q : ReplayRequest H) (r : HistoricalReplay H) (l : LiveReplayLaunch)
      → m ≡ live
      → live_identity l ≡ true
      → (l.source_session_id == r.source_session_id) ≡ true
      → (q.source_session_id == r.source_session_id) ≡ true
      → shape_in m (started_result q l) ≡ true
  unfolding shape_in live_identity
  started_shape strict q r l e k a b = absurd (cc)
  started_shape tolerant q r l e k a b = absurd (cc)
  started_shape live q r l e k a b = ground arith

  pub strict_end-Returns :
      (q : ReplayRequest H)
      → q.mode ≡ strict
      → (out : ℕ × Option (ReplayMismatch H)) → Returns (strict_end q out)
  unfolding result_shape
  strict_end-Returns q e (n, some m) = failed_with-Returns q m n
  strict_end-Returns q e (n, none) =
      checked-Returns (completed_result q verified n []) (verified_shape q.mode q n e)

  pub tolerant_end-Returns :
      (q : ReplayRequest H)
      → q.mode ≡ tolerant
      → (out : ℕ × (Compares H)) → Returns (tolerant_end q out)
  unfolding result_shape
  tolerant_end-Returns q e (n, unresolved m) = failed_with-Returns q m n
  tolerant_end-Returns q e (n, found _ ds) = checked-Returns _ (compared_shape q.mode q n ds e)

  pub launched-Returns :
      (q : ReplayRequest H) (r : HistoricalReplay H) (l : LiveReplayLaunch)
      → q.mode ≡ live
      → live_identity l ≡ true
      → (q.source_session_id == r.source_session_id) ≡ true
      → Returns (launched q r l)
  unfolding launched result_shape
  launched-Returns q r l e k same = elim (Bool-cases (l.source_session_id == r.source_session_id)) [
    | inr other ↦ rw other (failed_with-Returns q (plain_mismatch invalid_live_identity none) 0)
    | inl linked ↦
        rw linked (elim (Bool-cases (any (λ k. contains k (new_ids l)) (historical_ids r))) [
          | inl reused ↦
              rw reused (failed_with-Returns q (plain_mismatch invalid_live_identity none) 0)
          | inr fresh ↦
              rw fresh
                (checked-Returns (started_result q l) (started_shape q.mode q r l e k linked same))
        ])
  ]
