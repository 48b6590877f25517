-- ===== src/Ledger/Tamper.antt =====
-- Which events a head's hash fixes.
use agora_opencode.Ledger.Chain.{loop-inv, verify_events-inv, loop-nil, check_event-inv}
use agora_opencode.Prelude.{
  ◌+◌, ap, ◌∷◌, arith, ◌∙◌, [], some, none, sym, ok, Option, length, List, String, ℕ, ◌≡◌, refl,
}
use agora_opencode.Ledger.Defs.{
  session_events, verify_loop, Head, find_head, check_event, Tables, ledger_event_hash, verify_head,
  verify, Preimage, preimage, Hashing, LedgerEvent,
}

-- Different payloads, and different values of an event, have different hashes.
pub record CollisionFree (H : Type 0) ⦃h : Hashing H⦄ : Type 0 where
  pub payload_inj : (a b : String) → h.hash_payload a ≡ h.hash_payload b → a ≡ b
  pub event_inj : (a b : Preimage H) → h.hash_event a ≡ h.hash_event b → a ≡ b

module _ {H : Type 0} where
  rebuild : Preimage H → String → H → LedgerEvent H
  rebuild p payload event_hash = record {
    values = record {
      id = p.id;
      workspace_id = p.workspace_id;
      session_id = p.session_id;
      event_type = p.event_type;
      payload_schema_version = p.payload_schema_version;
      causation_id = p.causation_id;
      correlation_id = p.correlation_id;
      actor_class = p.actor_class;
      actor_id = p.actor_id;
      round = p.round;
      payload = payload;
      recorded_at = p.recorded_at;
    };
    ledger_seq = p.ledger_seq;
    payload_hash = p.payload_hash;
    prev_hash = p.prev_hash;
    event_hash = event_hash;
  }

  event-from_preimage :
      (a b : LedgerEvent H)
      → preimage a ≡ preimage b
      → a.values.payload ≡ b.values.payload
      → a.event_hash ≡ b.event_hash
      → a ≡ b
  unfolding rebuild
  event-from_preimage a b p q r = parts (preimage a) (preimage b) _ _ _ _ p q r
    where
      parts :
          (x y : Preimage H) (c d : String) (g k : H)
          → x ≡ y
          → c ≡ d
          → g ≡ k
          → rebuild x c g ≡ rebuild y d k
      parts x y c d g k e f i = cc

module _ {H : Type 0} ⦃h : Hashing H⦄ where
  same_event :
      (cf : CollisionFree H) (n : ℕ) (p q : H) (x y : LedgerEvent H)
      → check_event n p x ≡ none
      → check_event n q y ≡ none
      → x.event_hash ≡ y.event_hash
      → (x ≡ y) × (p ≡ q)
  unfolding ledger_event_hash
  same_event cf n p q x y c d e =
      let (sx, hx, px, ex) = check_event-inv n p x c in
      let (sy, hy, py, ey) = check_event-inv n q y d in
      let pre : preimage x ≡ preimage y =
        cf.event_inj (preimage x) (preimage y) (sym ex ∙ e ∙ ey) in
      let text : x.values.payload ≡ y.values.payload =
        cf.payload_inj _ _ (sym hx ∙ ap (λ (z : Preimage H). z.payload_hash) pre ∙ hy) in
      (event-from_preimage x y pre text e, sym px ∙ ap (λ (z : Preimage H). z.prev_hash) pre ∙ py)

  same_events :
      (cf : CollisionFree H) (n : ℕ) (p p' q : H) (xs ys : List (LedgerEvent H))
      → length xs ≡ length ys
      → verify_loop n p xs ≡ ok q
      → verify_loop n p' ys ≡ ok q
      → (xs ≡ ys) × (p ≡ p')
  same_events cf n p p' q [] [] l k k' = (refl, loop-nil n p q k ∙ sym (loop-nil n p' q k'))
  same_events cf n p p' q [] (y ∷ ys) l k k' = absurd (ground arith)
  same_events cf n p p' q (x ∷ xs) [] l k k' = absurd (ground arith)
  same_events cf n p p' q (x ∷ xs) (y ∷ ys) l k k' =
      let (c, r) = loop-inv n p q x xs k in
      let (c', r') = loop-inv n p' q y ys k' in
      let (same_rest, e) =
        same_events cf (n + 1) x.event_hash y.event_hash q xs ys (ground arith) r r' in
      let (same_first, same_start) = same_event cf n p p' x y c c' e in (cc, same_start)

  heads_fix :
      (cf : CollisionFree H) (xs ys : List (LedgerEvent H)) (o : Option (Head H))
      → verify_head xs o ≡ none
      → verify_head ys o ≡ none
      → xs ≡ ys
  unfolding verify_head
  heads_fix cf xs ys none k k' = absurd (ground (arith, k))
  heads_fix cf xs ys (some hd) k k' =
      let (r, l) = verify_events-inv xs hd.next_seq hd.head_hash k in
      let (r', l') = verify_events-inv ys hd.next_seq hd.head_hash k' in
      (same_events cf 1 h.genesis h.genesis hd.head_hash xs ys (omega arith) r r').0

  -- Where hashes do not collide, two states of the tables that verify for a session and have the
  -- same head for it hold the same events of that session.
  pub verify-fixes_events :
      (cf : CollisionFree H) (w s : ℕ) (t t' : Tables H)
      → find_head w s t.heads ≡ find_head w s t'.heads
      → verify w s t ≡ none
      → verify w s t' ≡ none
      → session_events w s t ≡ session_events w s t'
  unfolding verify
  verify-fixes_events cf w s t t' e v v' =
      heads_fix cf (session_events w s t) (session_events w s t') (find_head w s t.heads) v
        (rw (sym e) at v')
