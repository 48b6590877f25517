-- ===== src/Ledger/Defs.antt =====
-- Events, hashes, the two tables and the operations of the reasoning ledger. Identifiers and times
-- are numbers. The hash is `content_hash`, SHA-256 of a canonical JSON text: a parameter.
use agora_opencode.Prelude.{
  ℕ, zero, suc, ◌+◌, ◌≡◌, ◌↔◌, Bool, true, false, ◌&&◌, not, Option, none, some, String, List, [],
  ◌∷◌, ◌++◌, Result, ok, err, ◌==◌, str_eq, ltb, leb, filter, length, if◌then◌else◌, sort_desc,
}

pub data ActorClass : Type 0 where
  human agent service policy : ActorClass

abbrev pub same_class : ActorClass → ActorClass → Bool
same_class human human = true
same_class agent agent = true
same_class service service = true
same_class policy policy = true
same_class _ _ = false

pub record LedgerAppend : Type 0 where
  pub id : ℕ
  pub workspace_id : ℕ
  pub session_id : ℕ
  pub event_type : String
  pub payload_schema_version : ℕ
  pub causation_id : Option ℕ
  pub correlation_id : ℕ
  pub actor_class : ActorClass
  pub actor_id : ℕ
  pub round : ℕ
  -- the payload's canonical JSON
  pub payload : String
  pub recorded_at : ℕ

pub record LedgerEvent (H : Type 0) : Type 0 where
  pub values : LedgerAppend
  pub ledger_seq : ℕ
  pub payload_hash : H
  pub prev_hash : H
  pub event_hash : H

-- What `ledger_event_hash` hashes: the values but for the payload, whose hash stands for it.
pub record Preimage (H : Type 0) : Type 0 where
  pub id : ℕ
  pub workspace_id : ℕ
  pub session_id : ℕ
  pub event_type : String
  pub payload_schema_version : ℕ
  pub causation_id : Option ℕ
  pub correlation_id : ℕ
  pub actor_class : ActorClass
  pub actor_id : ℕ
  pub round : ℕ
  pub recorded_at : ℕ
  pub ledger_seq : ℕ
  pub payload_hash : H
  pub prev_hash : H

-- The hash function, and the comparison of hashes.
pub record Hashing (H : Type 0) : Type 0 where
  pub genesis : H
  pub same : H → H → Bool
  pub same_iff : (a b : H) → (same a b ≡ true) ↔ (a ≡ b)
  pub hash_payload : String → H
  pub hash_event : Preimage H → H

-- Why a verification fails.
pub data Reason : Type 0 where
  wrong_sequence payload_mismatch previous_mismatch event_mismatch : Reason
  next_mismatch head_mismatch head_missing : Reason

-- A row of `session_ledger_heads`; its key is the session.
pub record Head (H : Type 0) : Type 0 where
  pub workspace_id : ℕ
  pub session_id : ℕ
  pub next_seq : ℕ
  pub head_hash : H

-- The two tables, the event written last in front.
pub record Tables (H : Type 0) : Type 0 where
  pub events : List (LedgerEvent H)
  pub heads : List (Head H)

pub data LedgerError : Type 0 where
  different_values no_head bad_range : LedgerError

abbrev pub same_option : Option ℕ → Option ℕ → Bool
same_option none none = true
same_option (some a) (some b) = a == b
same_option _ _ = false

-- `_append_preimage(a) == _append_preimage(b)`: all but the time of recording
unfoldable pub same_values : LedgerAppend → LedgerAppend → Bool
same_values a b =
    a.id == b.id
    && a.workspace_id == b.workspace_id
    && a.session_id == b.session_id
    && str_eq a.event_type b.event_type
    && a.payload_schema_version == b.payload_schema_version
    && same_option a.causation_id b.causation_id
    && a.correlation_id == b.correlation_id
    && same_class a.actor_class b.actor_class
    && a.actor_id == b.actor_id
    && a.round == b.round
    && str_eq a.payload b.payload

module _ {H : Type 0} where
  abbrev pub preimage : LedgerEvent H → Preimage H
  preimage e = record {
    id = e.values.id;
    workspace_id = e.values.workspace_id;
    session_id = e.values.session_id;
    event_type = e.values.event_type;
    payload_schema_version = e.values.payload_schema_version;
    causation_id = e.values.causation_id;
    correlation_id = e.values.correlation_id;
    actor_class = e.values.actor_class;
    actor_id = e.values.actor_id;
    round = e.values.round;
    recorded_at = e.values.recorded_at;
    ledger_seq = e.ledger_seq;
    payload_hash = e.payload_hash;
    prev_hash = e.prev_hash;
  }

  -- `session.get(ReasoningEventRow, event_id)`
  unfoldable pub event_by_id : ℕ → List (LedgerEvent H) → Option (LedgerEvent H)
  event_by_id k [] = none
  event_by_id k (e ∷ es) = if e.values.id == k then some e else event_by_id k es

  abbrev pub in_session : ℕ → ℕ → LedgerEvent H → Bool
  in_session w s e = e.values.workspace_id == w && e.values.session_id == s

  -- The rows of a session, by ascending sequence number.
  unfoldable pub session_events : ℕ → ℕ → Tables H → List (LedgerEvent H)
  session_events w s t =
      sort_desc (λ a b. ltb b a) (λ (e : LedgerEvent H). e.ledger_seq)
        (filter (in_session w s) t.events)

  abbrev pub is_head : ℕ → ℕ → Head H → Bool
  is_head w s h = h.workspace_id == w && h.session_id == s

  unfoldable pub find_head : ℕ → ℕ → List (Head H) → Option (Head H)
  find_head w s [] = none
  find_head w s (h ∷ hs) = if is_head w s h then some h else find_head w s hs

  -- The row of the session gets a new number and hash.
  unfoldable pub move_head : ℕ → ℕ → ℕ → H → List (Head H) → List (Head H)
  move_head w s n x [] = []
  move_head w s n x (h ∷ hs) =
      if is_head w s h
      then record h { next_seq = n; head_hash = x } ∷ hs
      else h ∷ move_head w s n x hs

  -- `get_by_id`
  unfoldable pub get_by_id : ℕ → ℕ → ℕ → Tables H → Option (LedgerEvent H)
  unfolding event_by_id
  get_by_id w s k t = elim (event_by_id k t.events) [
    | none ↦ none
    | some e ↦ (if in_session w s e then some e else none)
  ]

  -- `_idempotent_result`
  unfoldable pub idempotent_result :
      LedgerAppend → LedgerEvent H → Result LedgerError (LedgerEvent H)
  unfolding same_values
  idempotent_result a e = if same_values a e.values then ok e else err different_values

  abbrev pub take : ℕ → List (LedgerEvent H) → List (LedgerEvent H)
  take zero xs = []
  take (suc n) [] = []
  take (suc n) (x ∷ xs) = x ∷ take n xs

  -- `read(…, from_seq=, limit=)`
  unfoldable pub read : ℕ → ℕ → ℕ → ℕ → Tables H → Result LedgerError (List (LedgerEvent H))
  unfolding session_events
  read w s from_seq limit t =
      if from_seq == 0
      then err bad_range
      else (if limit == 0
          then err bad_range
          else ok (take limit (filter (λ e. leb from_seq e.ledger_seq) (session_events w s t))))

module _ {H : Type 0} ⦃h : Hashing H⦄ where
  unfoldable pub ledger_event_hash : LedgerEvent H → H
  ledger_event_hash e = h.hash_event (preimage e)

  -- The event that an append writes, behind the head.
  unfoldable pub persisted : LedgerAppend → Head H → LedgerEvent H
  unfolding ledger_event_hash
  persisted a head =
      let e : LedgerEvent H = record {
        values = a;
        ledger_seq = head.next_seq;
        payload_hash = h.hash_payload a.payload;
        prev_hash = head.head_hash;
        event_hash = h.genesis;
      } in
      record e { event_hash = ledger_event_hash e }

  -- The write itself: the event's row, and the head moved behind it.
  unfoldable pub write_event : LedgerAppend → Head H → Tables H → LedgerEvent H × Tables H
  write_event a head t =
      let e = persisted a head in
      (
        e,
        record {
          events = e ∷ t.events;
          heads = move_head a.workspace_id a.session_id (e.ledger_seq + 1) e.event_hash t.heads;
        },
      )

  -- The end of `append`, from what the second lookup found.
  unfoldable pub write_new :
      LedgerAppend
      → Head H
      → Tables H
      → Option (LedgerEvent H)
      → Result LedgerError (LedgerEvent H) × Tables H
  write_new a head t (some e) = (idempotent_result a e, t)
  write_new a head t none = let (e, t') = write_event a head t in (ok e, t')

  -- The part of `append` under the lock, from the head that was read: the event is looked up again,
  -- since another transaction may have written it before the lock was granted.
  unfoldable pub under_lock :
      LedgerAppend → Tables H → Option (Head H) → Result LedgerError (LedgerEvent H) × Tables H
  under_lock a t none = (err no_head, t)
  under_lock a t (some head) = write_new a head t (event_by_id a.id t.events)

  unfoldable pub append_locked :
      LedgerAppend → Tables H → Result LedgerError (LedgerEvent H) × Tables H
  append_locked a t = under_lock a t (find_head a.workspace_id a.session_id t.heads)

  unfoldable pub first_look :
      LedgerAppend
      → Tables H
      → Option (LedgerEvent H)
      → Result LedgerError (LedgerEvent H) × Tables H
  first_look a t (some e) = (idempotent_result a e, t)
  first_look a t none = append_locked a t

  -- `append`: `seen` are the tables at the first look, `t` those at the time of the lock.
  unfoldable pub append :
      LedgerAppend → Tables H → Tables H → Result LedgerError (LedgerEvent H) × Tables H
  append a seen t = first_look a t (event_by_id a.id seen.events)

  -- The checks of one round of `_verify_events`.
  unfoldable pub check_event : ℕ → H → LedgerEvent H → Option Reason
  unfolding ledger_event_hash
  check_event expected previous e =
      if not (e.ledger_seq == expected)
      then some wrong_sequence
      else (if not (h.same e.payload_hash (h.hash_payload e.values.payload))
          then some payload_mismatch
          else (if not (h.same e.prev_hash previous)
              then some previous_mismatch
              else (if not (h.same e.event_hash (ledger_event_hash e))
                  then some event_mismatch
                  else none)))

  -- The loop of `_verify_events`: the first failure, or the hash that the events end in.
  unfoldable pub verify_loop : ℕ → H → List (LedgerEvent H) → Result (Option ℕ × Reason) H
  verify_loop expected previous [] = ok previous
  verify_loop expected previous (e ∷ es) =
      let rest = verify_loop (expected + 1) e.event_hash es in
      elim (check_event expected previous e) [ some r ↦ err (some e.ledger_seq, r) | none ↦ rest ]

  -- `_verify_events`, `none` where nothing is wrong
  unfoldable pub verify_events : List (LedgerEvent H) → ℕ → H → Option (Option ℕ × Reason)
  verify_events es next_seq head_hash = elim (verify_loop 1 h.genesis es) [
    | err f ↦ some f
    | ok last ↦
        (if not (next_seq == length es + 1)
          then some (none, next_mismatch)
          else (if not (h.same head_hash last) then some (none, head_mismatch) else none))
  ]

  -- `verify`, down to the failure that it reports, from the session's events and its head
  unfoldable pub verify_head : List (LedgerEvent H) → Option (Head H) → Option (Option ℕ × Reason)
  verify_head es none = some (none, head_missing)
  verify_head es (some head) = verify_events es head.next_seq head.head_hash

  unfoldable pub verify : ℕ → ℕ → Tables H → Option (Option ℕ × Reason)
  verify w s t = verify_head (session_events w s t) (find_head w s t.heads)

  -- The trigger on a new session: a head at the start of the chain.
  unfoldable pub open_session : ℕ → ℕ → Tables H → Tables H
  open_session w s t = record t {
    heads =
        t.heads
        ++ (record { workspace_id = w; session_id = s; next_seq = 1; head_hash = h.genesis } ∷ []);
  }
