-- ===== src/Replays/Steps.antt =====
-- One step of a replay: `_strict_mismatch`, `_differences`, and the bodies of the two loops over the
-- steps in backend/app/application/replay.py.
use agora_opencode.Prelude.{
  ℕ, Bool, true, false, ◌&&◌, ◌||◌, not, Option, none, some, String, List, [], ◌∷◌, ◌++◌, Result,
  ok, err, ◌>>=◌, str_eq, ◌==◌, if◌then◌else◌,
}
use agora_opencode.Ledger.Defs.{Hashing}
use agora_opencode.Replays.Registry.{ReplayImplementation, resolve}
use agora_opencode.Replays.Types.{
  ReplayImplementationIdentity, ReplayImplementationSelection, ReplayStep, ReplayExecution,
  ReplayDifference, ReplayDifferenceKind, ReplayMismatch, ReplayFailureReason, ReplayFault,
  Compared, ReplayStepPolicy, recorded, deterministic, external, texts, hashes,
  implementation_differs, provider_differs, model_differs, configuration_differs, output_differs,
  status_differs, timing_sensitive_differs, unknown_implementation, nondeterministic_implementation,
  output_mismatch, no_implementation,
}

abbrev pub same_texts : Option String → Option String → Bool
same_texts none none = true
same_texts (some s) (some t) = str_eq s t
same_texts _ _ = false

-- What a step of the tolerant loop ends in: a mismatch that ends the loop, or its differences.
pub data Compares (H : Type 0) : Type 0 where
  unresolved : ReplayMismatch H → Compares H
  found : ℕ → List (ReplayDifference H) → Compares H

module _ {H : Type 0} ⦃h : Hashing H⦄ where
  abbrev pub same_hashes : Option H → Option H → Bool
  same_hashes none none = true
  same_hashes (some a) (some b) = h.same a b
  same_hashes _ _ = false

  -- `a == b` for two identities
  unfoldable pub same_identity :
      ReplayImplementationIdentity H → ReplayImplementationIdentity H → Bool
  same_identity a b =
      str_eq a.implementation_id b.implementation_id
      && str_eq a.implementation_version b.implementation_version
      && same_texts a.provider b.provider
      && same_texts a.model b.model
      && same_hashes a.configuration_hash b.configuration_hash

  abbrev pub is_pinned :
      ReplayImplementationIdentity H → Option (ReplayImplementationIdentity H) → Bool
  is_pinned a none = false
  is_pinned a (some b) = same_identity a b

  abbrev pub mismatch_at : ReplayFailureReason → ReplayStep H → ReplayMismatch H
  mismatch_at reason s = record {
    reason = reason;
    order = some s.order;
    step_id = some s.step_id;
    expected_hash = none;
    actual_hash = none;
  }

  -- `_strict_mismatch`
  unfoldable pub strict_mismatch : ReplayStep H → ReplayExecution H → Option (ReplayMismatch H)
  strict_mismatch s x =
      if not (is_pinned x.implementation s.implementation)
      then some (mismatch_at unknown_implementation s)
      else (if not (h.same x.output_hash s.expected_output_hash)
          then some (record (mismatch_at output_mismatch s) {
            expected_hash = some s.expected_output_hash;
            actual_hash = some x.output_hash;
          })
          else (if not (same_texts x.status s.expected_status)
              then some (mismatch_at output_mismatch s)
              else none))

  -- What the strict loop does with the implementation that was resolved: how many steps it counts,
  -- and the mismatch that ends it.
  unfoldable pub strict_run :
      ReplayStep H
      → Option (ReplayImplementation H)
      → Result ReplayFault (ℕ × Option (ReplayMismatch H))
  strict_run s none = ok (0, some (mismatch_at unknown_implementation s))
  strict_run s (some i) =
      if i.external || not i.deterministic
      then ok (0, some (mismatch_at nondeterministic_implementation s))
      else (i.execute s.input >>= λ x. ok (1, strict_mismatch s x))

  abbrev pub strict_pinned :
      List (ReplayImplementation H)
      → ReplayStep H
      → Option (ReplayImplementationIdentity H)
      → Result ReplayFault (ℕ × Option (ReplayMismatch H))
  strict_pinned impls s none = err no_implementation
  strict_pinned impls s (some pinned) = strict_run s (resolve impls pinned)

  -- The body of the loop of `_strict`
  unfoldable pub strict_step :
      List (ReplayImplementation H)
      → ReplayStep H
      → ReplayStepPolicy
      → Result ReplayFault (ℕ × Option (ReplayMismatch H))
  strict_step impls s recorded = ok (1, none)
  strict_step impls s deterministic = strict_pinned impls s s.implementation
  strict_step impls s external = strict_pinned impls s s.implementation

  abbrev pub difference_at :
      ReplayStep H → ReplayDifferenceKind → String → Compared H → ReplayDifference H
  difference_at s kind field compared = record {
    order = s.order;
    step_id = s.step_id;
    kind = s.kind;
    difference = kind;
    field = field;
    compared = compared;
  }

  -- One comparison, which adds a difference or nothing.
  abbrev pub unless : Bool → ReplayDifference H → List (ReplayDifference H)
  unless true d = []
  unless false d = d ∷ []

  -- `_differences`, from the identity that the step pins
  unfoldable pub differences_from :
      ReplayStep H → ReplayImplementationIdentity H → ReplayExecution H → List (ReplayDifference H)
  differences_from s e x =
      let a = x.implementation in
      unless (str_eq e.implementation_id a.implementation_id) (
        difference_at s implementation_differs "implementation_id"
          (texts (some e.implementation_id) (some a.implementation_id)))
      ++ (unless (str_eq e.implementation_version a.implementation_version) (
            difference_at s implementation_differs "implementation_version"
              (texts (some e.implementation_version) (some a.implementation_version)))
          ++ (unless (same_texts e.provider a.provider)
                (difference_at s provider_differs "provider" (texts e.provider a.provider))
              ++ (unless (same_texts e.model a.model)
                    (difference_at s model_differs "model" (texts e.model a.model))
                  ++ (unless (same_hashes e.configuration_hash a.configuration_hash) (
                        difference_at s configuration_differs "configuration_hash"
                          (hashes e.configuration_hash a.configuration_hash))
                      ++ (unless (h.same x.output_hash s.expected_output_hash) (
                            difference_at s output_differs "output_hash"
                              (hashes (some s.expected_output_hash) (some x.output_hash)))
                          ++ unless (same_texts x.status s.expected_status) (
                              difference_at s
                                (if s.timing_sensitive
                                  then timing_sensitive_differs
                                  else status_differs)
                                "status" (texts s.expected_status x.status)))))))

  -- `selected.get(step_id, pinned)`; of two selections for a step the later one wins.
  unfoldable pub selected :
      List (ReplayImplementationSelection H)
      → ℕ
      → ReplayImplementationIdentity H
      → ReplayImplementationIdentity H
  selected [] k pinned = pinned
  selected (i ∷ is') k pinned = selected is' k (if i.step_id == k then i.implementation else pinned)

  unfoldable pub tolerant_run :
      ReplayStep H
      → ReplayImplementationIdentity H
      → Option (ReplayImplementation H)
      → Result ReplayFault (Compares H)
  tolerant_run s pinned none = ok (unresolved (mismatch_at unknown_implementation s))
  tolerant_run s pinned (some i) =
      i.execute s.input >>= λ x. ok (found 1 (differences_from s pinned x))

  abbrev pub tolerant_pinned :
      List (ReplayImplementation H)
      → List (ReplayImplementationSelection H)
      → ReplayStep H
      → Option (ReplayImplementationIdentity H)
      → Result ReplayFault (Compares H)
  tolerant_pinned impls chosen s none = err no_implementation
  tolerant_pinned impls chosen s (some pinned) =
      tolerant_run s pinned (resolve impls (selected chosen s.step_id pinned))

  -- The body of the loop of `_tolerant`
  unfoldable pub tolerant_step :
      List (ReplayImplementation H)
      → List (ReplayImplementationSelection H)
      → ReplayStep H
      → ReplayStepPolicy
      → Result ReplayFault (Compares H)
  tolerant_step impls chosen s recorded = ok (found 1 [])
  tolerant_step impls chosen s deterministic = tolerant_pinned impls chosen s s.implementation
  tolerant_step impls chosen s external =
      if not s.tolerant_reexecution_allowed
      then ok (found 0 [])
      else tolerant_pinned impls chosen s s.implementation
