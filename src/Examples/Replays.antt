-- ===== src/Examples/Replays.antt =====
-- A session with one event, replayed strictly and tolerantly.
use agora_opencode.Prelude.{
  ◌&&◌, ◌==◌, subst, sort_desc, ℕ, ◌<◌, ◌≡◌, refl, true, false, some, none, [], ◌∷◌, arith, ok,
  String, length, Result, ◌↔◌, Bool-cases, inl, inr,
}
use agora_opencode.Ledger.Append.{some-inj}
use agora_opencode.Ledger.Defs.{
  read, check_event, verify_loop, verify_events, persisted, move_head, write_event, write_new,
  under_lock, append_locked, event_by_id, first_look, find_head, verify_head, append, verify,
  session_events,
}
use agora_opencode.Replays.Types.{
  result_shape, selection_shape, HistoricalReplay, ReplayExecution, ReplayFault,
  ReplayImplementationIdentity, ReplayManifestRef, ReplayRequest, ReplayResult, ReplayStep, strict,
  verified, matched, artifact, metric, recorded, deterministic, history_is_coherent,
}
use agora_opencode.Replays.Steps.{strict_step, strict_run, strict_mismatch, same_identity}
use agora_opencode.Replays.Registry.{resolve}
use agora_opencode.Replays.Service.{
  same_manifest, checked, verify_marl, compare_events, compare_ledgers, verify_ledger_from,
  verify_ledger, validate_source, check_source, ReplayService, completed_result, read_pages,
}
use agora_opencode.Replays.Modes.{strict_loop, strict_replay, replay_checked, replay_loaded, replay}
use agora_opencode.Replays.Pages.{read_pages-session_events}
use agora_opencode.Replays.Strict.{IsFaithful, strict-verified}
use agora_opencode.Replays.Tolerant.{tolerantly, strict-tolerant}
use agora_opencode.Examples.Digest.{Digest, digest_hashing, of_payload}
use agora_opencode.Examples.Ledgers.{one_event, first_event}

abbrev scorer : ReplayImplementationIdentity Digest
scorer = record {
  implementation_id = "scorer";
  implementation_version = "1";
  provider = none;
  model = none;
  configuration_hash = none;
}

abbrev score : String → Result ReplayFault (ReplayExecution Digest)
score text = ok (record {
  implementation = scorer;
  output = "{}";
  output_hash = of_payload "{}";
  status = none;
})

abbrev manifest : ReplayManifestRef Digest
manifest = record { manifest_id = 60; manifest_version = 1; manifest_hash = of_payload "m" }

abbrev kept : ReplayStep Digest
kept = record {
  step_id = 61;
  order = 1;
  kind = artifact;
  policy = recorded;
  implementation = none;
  input = "[]";
  input_hash = of_payload "[]";
  expected_output = "[]";
  expected_output_hash = of_payload "[]";
  expected_status = none;
  tolerant_reexecution_allowed = false;
  timing_sensitive = false;
}

abbrev scored : ReplayStep Digest
scored = record kept {
  step_id = 62;
  order = 2;
  kind = metric;
  policy = deterministic;
  implementation = some scorer;
  expected_output = "{}";
  expected_output_hash = of_payload "{}";
}

abbrev history : HistoricalReplay Digest
history = record {
  workspace_id = 1;
  source_session_id = 4;
  manifest = manifest;
  ledger_events = first_event ∷ [];
  steps = kept ∷ scored ∷ [];
  marl_bundles = [];
}

abbrev service_of : ReplayService Digest
service_of = record {
  load = λ w s m. some history;
  tables = one_event;
  implementations =
      record { identity = scorer; execute = score; deterministic = true; external = false } ∷ [];
  launch = none;
  verify_bundle = none;
}

abbrev request : ReplayRequest Digest
request = record {
  workspace_id = 1;
  source_session_id = 4;
  manifest = manifest;
  mode = strict;
  implementation_selections = [];
}

history_coherent : history_is_coherent history ≡ true
unfolding history_is_coherent append find_head first_look event_by_id append_locked under_lock
    write_new write_event persisted
history_coherent = refl

coherent :
    (r : HistoricalReplay Digest)
    → service_of.load 1 4 manifest ≡ some r
    → history_is_coherent r ≡ true
coherent r e = subst (λ x. history_is_coherent x ≡ true) (some-inj e) history_coherent

few_events : (w s : ℕ) → length (session_events w s one_event) < 3
unfolding session_events sort_desc append find_head first_look event_by_id append_locked under_lock
    write_new write_event move_head persisted
few_events w s = elim (Bool-cases (1 == w && 4 == s)) [
  | inl same ↦ rw same (omega arith)
  | inr other ↦ rw other (omega arith)
]

ledger_verifies : verify 1 4 one_event ≡ none
unfolding verify verify_head append find_head first_look event_by_id append_locked under_lock
    write_new write_event move_head persisted verify_events verify_loop session_events sort_desc
    check_event
ledger_verifies = refl

read_pages-session_events_example :
    read_pages 3 1 4 1 1 one_event ≡ ok (session_events 1 4 one_event)
read_pages-session_events_example =
    read_pages-session_events 3 1 4 1 one_event ledger_verifies (omega arith) (few_events 1 4)

strict-verified_example :
    ((out : ReplayResult Digest) × (replay 3 service_of request ≡ ok out)
      × (out.outcome ≡ verified))
    ↔ (r : HistoricalReplay Digest) × (service_of.load 1 4 manifest ≡ some r)
      × IsFaithful service_of request r
unfolding selection_shape
strict-verified_example = strict-verified 3 service_of request refl few_events refl

strictly : replay 3 service_of request ≡ ok (completed_result request verified 2 [])
unfolding replay replay_loaded replay_checked check_source validate_source verify_ledger
    verify_ledger_from verify verify_head append find_head first_look event_by_id append_locked
    under_lock write_new write_event move_head persisted verify_events verify_loop session_events
    sort_desc check_event read read_pages compare_ledgers compare_events verify_marl strict_replay
    strict_loop strict_step strict_run strict_mismatch same_identity resolve checked result_shape
    same_manifest
strictly = refl

strict-tolerant_example :
    replay 3 service_of (tolerantly request)
    ≡ ok (completed_result (tolerantly request) matched 2 [])
strict-tolerant_example =
    strict-tolerant 3 service_of request refl few_events coherent
      (completed_result request verified 2 []) strictly refl
