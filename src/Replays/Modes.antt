-- ===== src/Replays/Modes.antt =====
-- The three modes of `SessionReplayService.replay` in backend/app/application/replay.py: `_strict`,
-- `_tolerant` and `_live`.
use agora_opencode.Prelude.{
  ℕ, ◌+◌, true, false, not, Option, none, some, List, [], ◌∷◌, ◌++◌, map, Result, ok, ◌>>=◌, ◌==◌,
  if◌then◌else◌, any, contains, is_nil,
}
use agora_opencode.Ledger.Defs.{Hashing, LedgerEvent}
use agora_opencode.Replays.Types.{
  HistoricalReplay, LiveReplayLaunch, ReplayDifference, ReplayFault, ReplayImplementationSelection,
  ReplayMismatch, ReplayRequest, ReplayResult, ReplayStep, ReplayMode, strict, tolerant, live,
  verified, matched, different, live_started, historical_replay_unavailable,
  live_launch_unavailable, invalid_live_identity,
}
use agora_opencode.Replays.Registry.{ReplayImplementation}
use agora_opencode.Replays.Steps.{Compares, unresolved, found, strict_step, tolerant_step}
use agora_opencode.Replays.Service.{
  ReplayService, plain_mismatch, checked, failed_with, completed_result, check_source,
}

-- The identities of a new session
abbrev pub new_ids : LiveReplayLaunch → List ℕ
new_ids l = l.session_id ∷ l.manifest_id ∷ (l.event_ids ++ l.result_ids)

module _ {H : Type 0} ⦃h : Hashing H⦄ where
  -- What the strict loop does after a step, with the rest of the loop as `next`.
  abbrev pub strict_next :
      (ℕ → Result ReplayFault (ℕ × Option (ReplayMismatch H)))
      → ℕ
      → ℕ × Option (ReplayMismatch H)
      → Result ReplayFault (ℕ × Option (ReplayMismatch H))
  strict_next next n (k, some m) = ok (n + k, some m)
  strict_next next n (k, none) = next (n + k)

  -- The loop of `_strict`: the steps checked, and the mismatch that ended it.
  unfoldable pub strict_loop :
      List (ReplayImplementation H)
      → List (ReplayStep H)
      → ℕ
      → Result ReplayFault (ℕ × Option (ReplayMismatch H))
  strict_loop impls [] n = ok (n, none)
  strict_loop impls (s ∷ ss) n =
      strict_step impls s s.policy >>= strict_next (strict_loop impls ss) n

  abbrev pub strict_end :
      ReplayRequest H → ℕ × Option (ReplayMismatch H) → Result ReplayFault (ReplayResult H)
  strict_end q (n, some m) = failed_with q m n
  strict_end q (n, none) = checked (completed_result q verified n [])

  unfoldable pub strict_replay :
      ReplayService H → ReplayRequest H → HistoricalReplay H → Result ReplayFault (ReplayResult H)
  unfolding failed_with checked
  strict_replay v q r = strict_loop v.implementations r.steps 0 >>= strict_end q

  -- The loop of `_tolerant`, with the differences found before.
  unfoldable pub tolerant_loop :
      List (ReplayImplementation H)
      → List (ReplayImplementationSelection H)
      → List (ReplayStep H)
      → ℕ
      → List (ReplayDifference H)
      → Result ReplayFault (ℕ × (Compares H))
  tolerant_loop impls chosen [] n ds = ok (n, found 0 ds)
  tolerant_loop impls chosen (s ∷ ss) n ds = tolerant_step impls chosen s s.policy >>= elim [
    | unresolved m ↦ ok (n, unresolved m)
    | found k more ↦ tolerant_loop impls chosen ss (n + k) (ds ++ more)
  ]

  abbrev pub tolerant_end : ReplayRequest H → ℕ × (Compares H) → Result ReplayFault (ReplayResult H)
  tolerant_end q (n, unresolved m) = failed_with q m n
  tolerant_end q (n, found _ ds) =
      checked (completed_result q (if is_nil ds then matched else different) n ds)

  unfoldable pub tolerant_replay :
      ReplayService H → ReplayRequest H → HistoricalReplay H → Result ReplayFault (ReplayResult H)
  unfolding failed_with checked
  tolerant_replay v q r =
      tolerant_loop v.implementations q.implementation_selections r.steps 0 [] >>= tolerant_end q

  -- The identities that a history holds.
  abbrev pub historical_ids : HistoricalReplay H → List ℕ
  historical_ids r =
      map (λ (e : LedgerEvent H). e.values.id) r.ledger_events
      ++ (map (λ (s : ReplayStep H). s.step_id) r.steps
          ++ (r.manifest.manifest_id ∷ r.source_session_id ∷ []))

  abbrev pub started_result : ReplayRequest H → LiveReplayLaunch → ReplayResult H
  started_result q l = record {
    mode = q.mode;
    outcome = live_started;
    workspace_id = q.workspace_id;
    source_session_id = q.source_session_id;
    source_manifest = q.manifest;
    integrity_valid = true;
    byte_identical = false;
    checked_steps = 0;
    differences = [];
    first_mismatch = none;
    replay_session_id = some l.session_id;
    replay_manifest_id = some l.manifest_id;
    replay_event_ids = l.event_ids;
    replay_result_ids = l.result_ids;
  }

  unfoldable pub launched :
      ReplayRequest H → HistoricalReplay H → LiveReplayLaunch → Result ReplayFault (ReplayResult H)
  unfolding failed_with checked
  launched q r l =
      if not (l.source_session_id == r.source_session_id)
      then failed_with q (plain_mismatch invalid_live_identity none) 0
      else (if any (λ k. contains k (new_ids l)) (historical_ids r)
          then failed_with q (plain_mismatch invalid_live_identity none) 0
          else checked (started_result q l))

  abbrev pub live_with :
      ReplayRequest H
      → HistoricalReplay H
      → Option (
          ReplayRequest H
          → HistoricalReplay H
          → List (ReplayImplementationSelection H)
          → Result ReplayFault LiveReplayLaunch)
      → Result ReplayFault (ReplayResult H)
  live_with q r none = failed_with q (plain_mismatch live_launch_unavailable none) 0
  live_with q r (some launch) = launch q r q.implementation_selections >>= launched q r

  unfoldable pub live_replay :
      ReplayService H → ReplayRequest H → HistoricalReplay H → Result ReplayFault (ReplayResult H)
  unfolding failed_with
  live_replay v q r = live_with q r v.launch

  abbrev pub by_mode :
      ReplayMode
      → ReplayService H
      → ReplayRequest H
      → HistoricalReplay H
      → Result ReplayFault (ReplayResult H)
  by_mode strict v q r = strict_replay v q r
  by_mode tolerant v q r = tolerant_replay v q r
  by_mode live v q r = live_replay v q r

  unfoldable pub replay_checked :
      ReplayService H
      → ReplayRequest H
      → HistoricalReplay H
      → Option (ReplayMismatch H)
      → Result ReplayFault (ReplayResult H)
  unfolding failed_with strict_replay tolerant_replay live_replay
  replay_checked v q r (some m) = failed_with q m 0
  replay_checked v q r none = by_mode q.mode v q r

  unfoldable pub replay_loaded :
      ℕ
      → ReplayService H
      → ReplayRequest H
      → Option (HistoricalReplay H)
      → Result ReplayFault (ReplayResult H)
  unfolding failed_with
  replay_loaded fuel v q none = failed_with q (plain_mismatch historical_replay_unavailable none) 0
  replay_loaded fuel v q (some r) = check_source fuel v q r >>= replay_checked v q r

  -- `replay`
  unfoldable pub replay :
      ℕ → ReplayService H → ReplayRequest H → Result ReplayFault (ReplayResult H)
  replay fuel v q = replay_loaded fuel v q (v.load q.workspace_id q.source_session_id q.manifest)
