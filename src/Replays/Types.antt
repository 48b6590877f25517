-- ===== src/Replays/Types.antt =====
-- The value objects of backend/app/domain/replay.py with their validators, which answer `true` where
-- the code raises nothing. Inputs and outputs are canonical JSON texts. The fields' own checks (no
-- blank text, the form of a hash, orders above 0) hold of what the service fills them from, and the
-- texts that explain a mismatch are left out.
use agora_opencode.Prelude.{
  are_distinct, ℕ, suc, Bool, true, false, ◌&&◌, ◌||◌, not, Option, none, some, String, List, [],
  ◌∷◌, map, ◌==◌, ltb, all, is_nil,
}
use agora_opencode.Ledger.Defs.{Hashing, LedgerEvent}
use agora_opencode.Session.States.{is_none}

pub data ReplayMode : Type 0 where
  strict tolerant live : ReplayMode

pub data ReplayOutcome : Type 0 where
  verified matched different live_started failed : ReplayOutcome

pub data ReplayStepKind : Type 0 where
  artifact event metric consensus symbolic simulation retrieval llm : ReplayStepKind

pub data ReplayStepPolicy : Type 0 where
  recorded deterministic external : ReplayStepPolicy

pub data ReplayDifferenceKind : Type 0 where
  implementation_differs provider_differs model_differs configuration_differs : ReplayDifferenceKind
  output_differs status_differs timing_sensitive_differs : ReplayDifferenceKind

pub data ReplayFailureReason : Type 0 where
  historical_replay_unavailable manifest_mismatch ledger_integrity : ReplayFailureReason
  ledger_mismatch unknown_implementation nondeterministic_implementation : ReplayFailureReason
  output_mismatch marl_replay_failed live_launch_unavailable : ReplayFailureReason
  invalid_live_identity : ReplayFailureReason

pub record ReplayManifestRef (H : Type 0) : Type 0 where
  pub manifest_id : ℕ
  pub manifest_version : ℕ
  pub manifest_hash : H

pub record ReplayImplementationIdentity (H : Type 0) : Type 0 where
  pub implementation_id : String
  pub implementation_version : String
  pub provider : Option String
  pub model : Option String
  pub configuration_hash : Option H

pub record ReplayStep (H : Type 0) : Type 0 where
  pub step_id : ℕ
  pub order : ℕ
  pub kind : ReplayStepKind
  pub policy : ReplayStepPolicy
  pub implementation : Option (ReplayImplementationIdentity H)
  pub input : String
  pub input_hash : H
  pub expected_output : String
  pub expected_output_hash : H
  pub expected_status : Option String
  pub tolerant_reexecution_allowed : Bool
  pub timing_sensitive : Bool

pub record MarlReplayBundle : Type 0 where
  pub manifest : String
  pub trajectory : String

pub record HistoricalReplay (H : Type 0) : Type 0 where
  pub workspace_id : ℕ
  pub source_session_id : ℕ
  pub manifest : ReplayManifestRef H
  pub ledger_events : List (LedgerEvent H)
  pub steps : List (ReplayStep H)
  pub marl_bundles : List MarlReplayBundle

pub record ReplayImplementationSelection (H : Type 0) : Type 0 where
  pub step_id : ℕ
  pub implementation : ReplayImplementationIdentity H

pub record ReplayRequest (H : Type 0) : Type 0 where
  pub workspace_id : ℕ
  pub source_session_id : ℕ
  pub manifest : ReplayManifestRef H
  pub mode : ReplayMode
  pub implementation_selections : List (ReplayImplementationSelection H)

pub record ReplayExecution (H : Type 0) : Type 0 where
  pub implementation : ReplayImplementationIdentity H
  pub output : String
  pub output_hash : H
  pub status : Option String

-- What a difference sets side by side: texts or hashes, where there are any.
pub data Compared (H : Type 0) : Type 0 where
  texts : Option String → Option String → Compared H
  hashes : Option H → Option H → Compared H

pub record ReplayDifference (H : Type 0) : Type 0 where
  pub order : ℕ
  pub step_id : ℕ
  pub kind : ReplayStepKind
  pub difference : ReplayDifferenceKind
  pub field : String
  pub compared : Compared H

pub record ReplayMismatch (H : Type 0) : Type 0 where
  pub reason : ReplayFailureReason
  pub order : Option ℕ
  pub step_id : Option ℕ
  pub expected_hash : Option H
  pub actual_hash : Option H

pub record LiveReplayLaunch : Type 0 where
  pub mode : ReplayMode
  pub source_session_id : ℕ
  pub session_id : ℕ
  pub manifest_id : ℕ
  pub event_ids : List ℕ
  pub result_ids : List ℕ

pub record ReplayResult (H : Type 0) : Type 0 where
  pub mode : ReplayMode
  pub outcome : ReplayOutcome
  pub workspace_id : ℕ
  pub source_session_id : ℕ
  pub source_manifest : ReplayManifestRef H
  pub integrity_valid : Bool
  pub byte_identical : Bool
  pub checked_steps : ℕ
  pub differences : List (ReplayDifference H)
  pub first_mismatch : Option (ReplayMismatch H)
  pub replay_session_id : Option ℕ
  pub replay_manifest_id : Option ℕ
  pub replay_event_ids : List ℕ
  pub replay_result_ids : List ℕ

-- What a replay raises: the assertion of a missing implementation, a result that its validator
-- refuses, a ledger read out of range, or what an implementation or the launcher raises. The loop
-- over the pages of the ledger takes fuel.
pub data ReplayFault : Type 0 where
  no_implementation invalid_result bad_read raised_outside out_of_fuel : ReplayFault

-- `orders == sorted(orders)`
unfoldable pub are_ascending : List ℕ → Bool
are_ascending [] = true
are_ascending (a ∷ as') = all (λ b. not (ltb b a)) as' && are_ascending as'

-- `== range(n, n + len(…))`
unfoldable pub are_gapless : {H : Type 0} → ℕ → List (LedgerEvent H) → Bool
are_gapless n [] = true
are_gapless n (e ∷ es) = e.ledger_seq == n && are_gapless (suc n) es

abbrev pub is_recorded : ReplayStepPolicy → Bool
is_recorded recorded = true
is_recorded _ = false

abbrev pub is_external : ReplayStepPolicy → Bool
is_external external = true
is_external _ = false

-- `ReplayStep.coherent`
unfoldable pub step_is_coherent : {H : Type 0} ⦃h : Hashing H⦄ → ReplayStep H → Bool
step_is_coherent ⦃h⦄ s =
    h.same s.input_hash (h.hash_payload s.input)
    && h.same s.expected_output_hash (h.hash_payload s.expected_output)
    && (is_recorded s.policy || not (is_none s.implementation))
    && not (is_recorded s.policy && s.tolerant_reexecution_allowed)
    && (not (is_external s.policy) || s.tolerant_reexecution_allowed)

-- `HistoricalReplay.coherent`, of a history whose steps passed their own validator
unfoldable pub history_is_coherent : {H : Type 0} ⦃h : Hashing H⦄ → HistoricalReplay H → Bool
unfolding are_gapless are_ascending step_is_coherent
history_is_coherent {H} r =
    all
      (λ (e : LedgerEvent H).
        e.values.workspace_id == r.workspace_id && e.values.session_id == r.source_session_id)
      r.ledger_events
    && are_gapless 1 r.ledger_events
    && are_ascending (map (λ (s : ReplayStep H). s.order) r.steps)
    && are_distinct (map (λ (s : ReplayStep H). s.order) r.steps)
    && are_distinct (map (λ (s : ReplayStep H). s.step_id) r.steps)
    && all step_is_coherent r.steps

abbrev pub is_strict : ReplayMode → Bool
is_strict strict = true
is_strict _ = false

abbrev pub is_live : ReplayMode → Bool
is_live live = true
is_live _ = false

-- `ReplayRequest.selection_shape`
unfoldable pub selection_shape : {H : Type 0} → ReplayRequest H → Bool
selection_shape {H} r =
    are_distinct
      (map (λ (i : ReplayImplementationSelection H). i.step_id) r.implementation_selections)
    && not (is_strict r.mode && not (is_nil r.implementation_selections))

-- `LiveReplayLaunch.live_identity`
unfoldable pub live_identity : LiveReplayLaunch → Bool
live_identity l =
    is_live l.mode
    && not (l.session_id == l.source_session_id)
    && not (is_nil l.event_ids || is_nil l.result_ids)
    && are_distinct l.event_ids
    && are_distinct l.result_ids

-- `ReplayResult.result_shape`, by the mode and the outcome
unfoldable pub strict_shape : {H : Type 0} → ReplayOutcome → ReplayResult H → Bool
strict_shape verified r =
    r.integrity_valid
    && r.byte_identical
    && is_none r.first_mismatch
    && is_nil r.differences
    && is_none r.replay_session_id
strict_shape ReplayOutcome.failed r =
    not (is_none r.first_mismatch) && is_nil r.differences && is_none r.replay_session_id
strict_shape _ r = false

unfoldable pub tolerant_shape : {H : Type 0} → ReplayOutcome → ReplayResult H → Bool
tolerant_shape matched r =
    is_none r.first_mismatch && is_none r.replay_session_id && is_nil r.differences
tolerant_shape different r =
    is_none r.first_mismatch && is_none r.replay_session_id && not (is_nil r.differences)
tolerant_shape ReplayOutcome.failed r =
    not (is_none r.first_mismatch) && is_none r.replay_session_id
tolerant_shape _ r = false

-- The new session of a live replay is not the source.
abbrev pub is_other : ℕ → Option ℕ → Bool
is_other k none = false
is_other k (some j) = not (j == k)

unfoldable pub live_shape : {H : Type 0} → ReplayOutcome → ReplayResult H → Bool
live_shape ReplayOutcome.failed r = not (is_none r.first_mismatch) && is_none r.replay_session_id
live_shape live_started r =
    is_other r.source_session_id r.replay_session_id
    && not (is_none r.replay_manifest_id)
    && not (is_nil r.replay_event_ids)
    && not (is_nil r.replay_result_ids)
    && not r.byte_identical
    && is_none r.first_mismatch
    && is_nil r.differences
live_shape _ r = false

unfoldable pub shape_in : {H : Type 0} → ReplayMode → ReplayResult H → Bool
unfolding strict_shape tolerant_shape live_shape
shape_in strict r = strict_shape r.outcome r
shape_in tolerant r = tolerant_shape r.outcome r
shape_in live r = live_shape r.outcome r

unfoldable pub result_shape : {H : Type 0} → ReplayResult H → Bool
unfolding shape_in
result_shape r = shape_in r.mode r
