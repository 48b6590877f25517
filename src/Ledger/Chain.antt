-- ===== src/Ledger/Chain.antt =====
-- The chain of hashes: what the verification of a session's events says of them.
use agora_opencode.Prelude.{
  length-append, lt→ltb, ℕ, suc, ◌+◌, ◌≡◌, refl, ap, sym, ◌∙◌, ◌≤◌, true, none, List, [], ◌∷◌, ◌++◌,
  arith, ok, length, All, ltb, Result-cases, inl, inr, ok-injective,
}
use agora_opencode.Ledger.Defs.{
  Hashing, LedgerEvent, check_event, verify_loop, verify_events, ledger_event_hash,
}

module _ {H : Type 0} ⦃h : Hashing H⦄ where
  -- What a round of the loop has found where the loop goes through.
  pub loop-inv :
      (n : ℕ) (p q : H) (e : LedgerEvent H) (es : List (LedgerEvent H))
      → verify_loop n p (e ∷ es) ≡ ok q
      → (check_event n p e ≡ none) × (verify_loop (n + 1) e.event_hash es ≡ ok q)
  unfolding verify_loop
  loop-inv n p q e es k = ground arith

  -- What the checks say of an event that passes them.
  pub check_event-inv :
      (n : ℕ) (p : H) (e : LedgerEvent H)
      → check_event n p e ≡ none
      → (e.ledger_seq ≡ n)
        × (e.payload_hash ≡ h.hash_payload e.values.payload)
        × (e.prev_hash ≡ p)
        × (e.event_hash ≡ ledger_event_hash e)
  unfolding check_event
  check_event-inv n p e k = (
    ground arith,
    (h.same_iff _ _).0 (ground arith),
    (h.same_iff _ _).0 (ground arith),
    (h.same_iff _ _).0 (ground arith),
  )

  loop-step :
      (n : ℕ) (p q : H) (e : LedgerEvent H) (es : List (LedgerEvent H))
      → check_event n p e ≡ none
      → verify_loop (n + 1) e.event_hash es ≡ ok q
      → verify_loop n p (e ∷ es) ≡ ok q
  unfolding verify_loop
  loop-step n p q e es fine k = ground arith

  pub loop-nil : (n : ℕ) (p q : H) → verify_loop n p [] ≡ ok q → p ≡ q
  unfolding verify_loop
  loop-nil n p q k = ok-injective k

  loop-done : (n : ℕ) (p : H) → verify_loop n p [] ≡ ok p
  unfolding verify_loop
  loop-done n p = refl

  -- An event that fits behind the last one extends the chain.
  loop-append :
      (n : ℕ) (p q : H) (es : List (LedgerEvent H)) (e : LedgerEvent H)
      → verify_loop n p es ≡ ok q
      → check_event (n + length es) q e ≡ none
      → verify_loop n p (es ++ (e ∷ [])) ≡ ok e.event_hash
  loop-append n p q [] e k c =
      let same = loop-nil n p q k in
      let at_n : n + 0 ≡ n = omega arith in
      loop-step n p e.event_hash e [] (rw same (rw at_n at c)) (loop-done (n + 1) e.event_hash)
  loop-append n p q (x ∷ xs) e k c =
      let (fine, k') = loop-inv n p q x xs k in
      let shift : n + suc (length xs) ≡ n + 1 + length xs = omega arith in
      loop-step n p e.event_hash x (xs ++ (e ∷ [])) fine
        (loop-append (n + 1) x.event_hash q xs e k' (rw shift at c))

  -- The sequence numbers stay below the next one.
  loop-below :
      (n : ℕ) (p q : H) (es : List (LedgerEvent H)) (top : ℕ)
      → verify_loop n p es ≡ ok q
      → n + length es ≤ top
      → All (λ e. ltb e.ledger_seq top ≡ true) es
  loop-below n p q [] top k b = tt
  loop-below n p q (x ∷ xs) top k b =
      let (fine, k') = loop-inv n p q x xs k in
      (
        lt→ltb x.ledger_seq top (omega (arith, (check_event-inv n p x fine).0)),
        loop-below (n + 1) x.event_hash q xs top k' (omega arith),
      )

  -- What a verification that finds nothing has established.
  pub verify_events-inv :
      (es : List (LedgerEvent H)) (next_seq : ℕ) (head_hash : H)
      → verify_events es next_seq head_hash ≡ none
      → (verify_loop 1 h.genesis es ≡ ok head_hash) × (next_seq ≡ length es + 1)
  unfolding verify_events
  verify_events-inv es next_seq head_hash k = elim (Result-cases (verify_loop 1 h.genesis es)) [
    | inl (f, bad) ↦ absurd (ground arith)
    | inr (last, fine) ↦ (fine ∙ ap ok (sym (last_head last fine)), ground arith)
  ]
    where
      last_head : (last : H) → verify_loop 1 h.genesis es ≡ ok last → head_hash ≡ last
      last_head last fine = (h.same_iff head_hash last).0 (ground arith)

  pub verify_events-of :
      (es : List (LedgerEvent H)) (next_seq : ℕ) (head_hash : H)
      → verify_loop 1 h.genesis es ≡ ok head_hash
      → next_seq ≡ length es + 1
      → verify_events es next_seq head_hash ≡ none
  unfolding verify_events
  verify_events-of es next_seq head_hash k e =
      ground (arith, (h.same_iff head_hash head_hash).1 refl)

  -- A verified chain with one event more, numbered and linked behind it, is verified.
  pub verify_events-append :
      (es : List (LedgerEvent H)) (next_seq : ℕ) (head_hash : H) (e : LedgerEvent H)
      → verify_events es next_seq head_hash ≡ none
      → check_event next_seq head_hash e ≡ none
      → verify_events (es ++ (e ∷ [])) (next_seq + 1) e.event_hash ≡ none
  verify_events-append es next_seq head_hash e k c =
      let (run, size) = verify_events-inv es next_seq head_hash k in
      let fit : next_seq ≡ 1 + length es = omega arith in
      verify_events-of (es ++ (e ∷ [])) (next_seq + 1) e.event_hash
        (loop-append 1 h.genesis head_hash es e run (rw fit at c))
        (omega (arith, length-append es (e ∷ [])))

  -- In a verified chain every sequence number is below the head's next one.
  pub verify_events-below :
      (es : List (LedgerEvent H)) (next_seq : ℕ) (head_hash : H)
      → verify_events es next_seq head_hash ≡ none
      → All (λ e. ltb e.ledger_seq next_seq ≡ true) es
  verify_events-below es next_seq head_hash k =
      let (run, size) = verify_events-inv es next_seq head_hash k in
      loop-below 1 h.genesis head_hash es next_seq run (omega arith)
