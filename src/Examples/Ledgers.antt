-- ===== src/Examples/Ledgers.antt =====
-- Two sessions' worth of the ledger, under a hash without collisions.
use agora_opencode.Prelude.{sort_desc, arith, String, Result, ℕ, ◌≡◌, refl, ok, err, none, [], ◌∷◌}
use agora_opencode.Ledger.Defs.{
  append_locked, verify_head, verify, verify_events, write_new, move_head, check_event, under_lock,
  write_event, verify_loop, same_values, first_look, persisted, LedgerEvent, LedgerError, find_head,
  event_by_id, session_events, LedgerAppend, Tables, agent, append, open_session, different_values,
}
use agora_opencode.Ledger.Append.{IsValid, append-IsValid, open_session-IsValid}
use agora_opencode.Ledger.Retry.{Sees, UniqueIds, append-retry, append-conflict, append-UniqueIds}
use agora_opencode.Ledger.Tamper.{verify-fixes_events}
use agora_opencode.Examples.Digest.{origin, Digest, digest_hashing, digest-CollisionFree}

abbrev no_tables : Tables Digest
no_tables = record { events = []; heads = [] }

no_tables-IsValid : IsValid no_tables
unfolding find_head
no_tables-IsValid = record { verified = λ w s hd e. absurd (ground (arith, e)) }

abbrev pub opened : Tables Digest
opened = record {
  events = [];
  heads = record { workspace_id = 1; session_id = 4; next_seq = 1; head_hash = origin } ∷ [];
}

pub opened-IsValid : IsValid opened
unfolding open_session session_events sort_desc
opened-IsValid = open_session-IsValid 1 4 no_tables refl no_tables-IsValid

abbrev pub event_of : ℕ → String → LedgerAppend
event_of id payload = record {
  id = id;
  workspace_id = 1;
  session_id = 4;
  event_type = "CLAIM";
  payload_schema_version = 1;
  causation_id = none;
  correlation_id = 9;
  actor_class = agent;
  actor_id = 3;
  round = 0;
  payload = payload;
  recorded_at = 50;
}

abbrev first : LedgerAppend
first = event_of 7 "{}"

append-IsValid_example : IsValid (append first opened opened).1
append-IsValid_example = append-IsValid first opened opened opened-IsValid

Sees-refl : (k : ℕ) (t : Tables Digest) → Sees k t t
unfolding Sees
Sees-refl k t e f = f

abbrev pub one_event : Tables Digest
one_event = (append first opened opened).1

abbrev pub first_event : LedgerEvent Digest
first_event =
    persisted first (record { workspace_id = 1; session_id = 4; next_seq = 1; head_hash = origin })

append-retry_example :
    ◌≡◌ {A = Result LedgerError (LedgerEvent Digest) × Tables Digest}
      (append first one_event one_event)
      (ok first_event, one_event)
unfolding append find_head first_look event_by_id append_locked under_lock write_new persisted
    write_event
append-retry_example =
    append-retry first opened one_event opened one_event _ first_event (Sees-refl 7 opened) refl
      refl (Sees-refl 7 one_event)

append-conflict_example :
    ◌≡◌ {A = Result LedgerError (LedgerEvent Digest) × Tables Digest}
      (append (event_of 7 "[]") one_event one_event)
      (err different_values, one_event)
unfolding append find_head first_look event_by_id append_locked under_lock write_new write_event
    move_head persisted same_values
append-conflict_example =
    append-conflict (event_of 7 "[]") one_event one_event _ _ (Sees-refl 7 one_event) refl refl refl

opened-UniqueIds : UniqueIds opened
unfolding UniqueIds
opened-UniqueIds e m = elim m [ ]

append-UniqueIds_example : UniqueIds (append first opened opened).1
append-UniqueIds_example = append-UniqueIds first opened opened opened-UniqueIds

verify-fixes_events_example : session_events 1 4 one_event ≡ session_events 1 4 one_event
unfolding append verify verify_head find_head first_look event_by_id append_locked under_lock
    write_new write_event move_head verify_events verify_loop session_events sort_desc persisted
    check_event
verify-fixes_events_example =
    verify-fixes_events digest-CollisionFree 1 4 one_event one_event refl refl refl
