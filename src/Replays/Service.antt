-- ===== src/Replays/Service.antt =====
-- `SessionReplayService` of backend/app/application/replay.py. The source of recorded histories, the
-- launcher of live sessions and the check of a learning bundle are given as functions; the ledger is
-- that of Ledger/Defs, with tables that stay as they are during the replay.
use agora_opencode.Prelude.{
  ℕ, zero, suc, ◌+◌, Bool, true, false, ◌&&◌, not, Option, none, some, List, [], ◌∷◌, ◌++◌, Result,
  ok, err, ◌>>=◌, ◌==◌, ltb, leb, if◌then◌else◌, any, all, length, is_nil,
}
use agora_opencode.Ledger.Defs.{Hashing, LedgerEvent, Tables, Reason, read, verify}
use agora_opencode.Replays.Types.{
  HistoricalReplay, LiveReplayLaunch, MarlReplayBundle, ReplayDifference, ReplayFault,
  ReplayFailureReason, ReplayImplementationSelection, ReplayManifestRef, ReplayMismatch,
  ReplayRequest, ReplayResult, ReplayStep, result_shape, invalid_result, bad_read, out_of_fuel,
  manifest_mismatch, ledger_integrity, ledger_mismatch, unknown_implementation, marl_replay_failed,
  ReplayOutcome,
}
use agora_opencode.Replays.Registry.{ReplayImplementation}

-- How the check of a learning bundle ends, with its first failure where it reports one.
pub record MarlFailure (H : Type 0) : Type 0 where
  pub decision_index : Option ℕ
  pub expected_hash : Option H
  pub actual_hash : Option H

pub data MarlOutcome (H : Type 0) : Type 0 where
  marl_verified : MarlOutcome H
  marl_failed : Option (MarlFailure H) → MarlOutcome H

-- What the constructor of the service takes, and the state of the ledger.
pub record ReplayService (H : Type 0) : Type 0 where
  pub load : ℕ → ℕ → ReplayManifestRef H → Option (HistoricalReplay H)
  pub tables : Tables H
  pub implementations : List (ReplayImplementation H)
  pub launch : Option (
      ReplayRequest H
      → HistoricalReplay H
      → List (ReplayImplementationSelection H)
      → Result ReplayFault LiveReplayLaunch)
  pub verify_bundle : Option (MarlReplayBundle → MarlOutcome H)

abbrev pub keeps_integrity : ReplayFailureReason → Bool
keeps_integrity ledger_integrity = false
keeps_integrity ledger_mismatch = false
keeps_integrity _ = true

abbrev pub min_of : ℕ → ℕ → ℕ
min_of a b = if leb a b then a else b

abbrev pub ledger_read_limit : ℕ
ledger_read_limit = 1000

module _ {H : Type 0} where
  abbrev pub plain_mismatch : ReplayFailureReason → Option ℕ → ReplayMismatch H
  plain_mismatch reason order = record {
    reason = reason;
    order = order;
    step_id = none;
    expected_hash = none;
    actual_hash = none;
  }

  -- The construction of a result runs its validator.
  unfoldable pub checked : ReplayResult H → Result ReplayFault (ReplayResult H)
  checked r = if result_shape r then ok r else err invalid_result

  abbrev pub failed_result : ReplayRequest H → ReplayMismatch H → ℕ → ReplayResult H
  failed_result q m n = record {
    mode = q.mode;
    outcome = ReplayOutcome.failed;
    workspace_id = q.workspace_id;
    source_session_id = q.source_session_id;
    source_manifest = q.manifest;
    integrity_valid = keeps_integrity m.reason;
    byte_identical = false;
    checked_steps = n;
    differences = [];
    first_mismatch = some m;
    replay_session_id = none;
    replay_manifest_id = none;
    replay_event_ids = [];
    replay_result_ids = [];
  }

  -- `_failed`
  unfoldable pub failed_with :
      ReplayRequest H → ReplayMismatch H → ℕ → Result ReplayFault (ReplayResult H)
  unfolding checked
  failed_with q m n = checked (failed_result q m n)

  abbrev pub completed_result :
      ReplayRequest H → ReplayOutcome → ℕ → List (ReplayDifference H) → ReplayResult H
  completed_result q outcome n ds = record {
    mode = q.mode;
    outcome = outcome;
    workspace_id = q.workspace_id;
    source_session_id = q.source_session_id;
    source_manifest = q.manifest;
    integrity_valid = true;
    byte_identical = is_nil ds;
    checked_steps = n;
    differences = ds;
    first_mismatch = none;
    replay_session_id = none;
    replay_manifest_id = none;
    replay_event_ids = [];
    replay_result_ids = [];
  }

  -- The loop of `_verify_ledger` over the pages, from `next_seq`. The next page starts behind the last
  -- event of a full one.
  abbrev pub next_of : ℕ → List (LedgerEvent H) → ℕ
  next_of k [] = k
  next_of k (e ∷ es) = next_of (e.ledger_seq + 1) es

  unfoldable pub read_pages :
      ℕ → ℕ → ℕ → ℕ → ℕ → Tables H → Result ReplayFault (List (LedgerEvent H))
  read_pages zero w s limit next_seq t = err out_of_fuel
  read_pages (suc fuel) w s limit next_seq t = elim (read w s next_seq limit t) [
    | err _ ↦ err bad_read
    | ok batch ↦ elim (ltb (length batch) limit) [
      | true ↦ ok batch
      | false ↦ read_pages fuel w s limit (next_of next_seq batch) t >>= λ rest. ok (batch ++ rest)
    ]
  ]

module _ {H : Type 0} ⦃h : Hashing H⦄ where
  unfoldable pub same_manifest : ReplayManifestRef H → ReplayManifestRef H → Bool
  same_manifest a b =
      a.manifest_id == b.manifest_id
      && a.manifest_version == b.manifest_version
      && h.same a.manifest_hash b.manifest_hash

  -- `_validate_source`
  unfoldable pub validate_source : ReplayRequest H → HistoricalReplay H → Option (ReplayMismatch H)
  unfolding same_manifest
  validate_source q r =
      if not (
        q.workspace_id == r.workspace_id
        && q.source_session_id == r.source_session_id
        && same_manifest q.manifest r.manifest)
      then some (plain_mismatch manifest_mismatch none)
      else (if not (
            all
              (λ (i : ReplayImplementationSelection H).
                any (λ (s : ReplayStep H). s.step_id == i.step_id) r.steps)
              q.implementation_selections)
          then some (plain_mismatch manifest_mismatch none)
          else none)

  -- The loop over the pairs of recorded and actual events.
  unfoldable pub compare_events :
      List (LedgerEvent H) → List (LedgerEvent H) → Option (ReplayMismatch H)
  compare_events [] _ = none
  compare_events (r ∷ rs) [] = none
  compare_events (r ∷ rs) (a ∷ as') =
      if not (h.same r.event_hash a.event_hash)
      then some (record {
        reason = ledger_mismatch;
        order = some r.ledger_seq;
        step_id = none;
        expected_hash = some r.event_hash;
        actual_hash = some a.event_hash;
      })
      else compare_events rs as'

  unfoldable pub compare_ledgers :
      List (LedgerEvent H) → List (LedgerEvent H) → Option (ReplayMismatch H)
  unfolding compare_events
  compare_ledgers rs as' = elim (compare_events rs as') [
    | some m ↦ some m
    | none ↦
        (if not (length rs == length as')
          then some (plain_mismatch ledger_mismatch (some (min_of (length rs) (length as') + 1)))
          else none)
  ]

  unfoldable pub verify_ledger_from :
      ℕ
      → HistoricalReplay H
      → Tables H
      → Option (Option ℕ × Reason)
      → Result ReplayFault (Option (ReplayMismatch H))
  verify_ledger_from fuel r t (some (order, _)) = ok (some (plain_mismatch ledger_integrity order))
  verify_ledger_from fuel r t none =
      read_pages fuel r.workspace_id r.source_session_id ledger_read_limit 1 t >>= λ actual.
      ok (compare_ledgers r.ledger_events actual)

  -- `_verify_ledger`
  unfoldable pub verify_ledger :
      ℕ → HistoricalReplay H → Tables H → Result ReplayFault (Option (ReplayMismatch H))
  unfolding verify_ledger_from
  verify_ledger fuel r t = verify_ledger_from fuel r t (verify r.workspace_id r.source_session_id t)

  abbrev pub marl_mismatch : Option (MarlFailure H) → ReplayMismatch H
  marl_mismatch none = plain_mismatch marl_replay_failed none
  marl_mismatch (some f) = record {
    reason = marl_replay_failed;
    order = elim f.decision_index [ none ↦ none | some k ↦ some (k + 1) ];
    step_id = none;
    expected_hash = f.expected_hash;
    actual_hash = f.actual_hash;
  }

  -- The loop of `_verify_marl`
  unfoldable pub verify_bundles :
      (MarlReplayBundle → MarlOutcome H) → List MarlReplayBundle → Option (ReplayMismatch H)
  verify_bundles check [] = none
  verify_bundles check (b ∷ bs) =
      let rest = verify_bundles check bs in
      elim (check b) [ marl_verified ↦ rest | marl_failed f ↦ some (marl_mismatch f) ]

  unfoldable pub verify_marl :
      Option (MarlReplayBundle → MarlOutcome H) → List MarlReplayBundle → Option (ReplayMismatch H)
  verify_marl registry [] = none
  verify_marl none (b ∷ bs) = some (plain_mismatch unknown_implementation none)
  verify_marl (some check) (b ∷ bs) = verify_bundles check (b ∷ bs)

  -- The three checks of `replay`, up to the first that fails.
  abbrev pub then_marl :
      ReplayService H → HistoricalReplay H → Option (ReplayMismatch H) → Option (ReplayMismatch H)
  then_marl v r (some m) = some m
  then_marl v r none = verify_marl v.verify_bundle r.marl_bundles

  abbrev pub then_ledger :
      ℕ
      → ReplayService H
      → HistoricalReplay H
      → Option (ReplayMismatch H)
      → Result ReplayFault (Option (ReplayMismatch H))
  then_ledger fuel v r (some m) = ok (some m)
  then_ledger fuel v r none = verify_ledger fuel r v.tables >>= λ m. ok (then_marl v r m)

  unfoldable pub check_source :
      ℕ
      → ReplayService H
      → ReplayRequest H
      → HistoricalReplay H
      → Result ReplayFault (Option (ReplayMismatch H))
  check_source fuel v q r = then_ledger fuel v r (validate_source q r)
