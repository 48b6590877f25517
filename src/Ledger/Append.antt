-- ===== src/Ledger/Append.antt =====
-- Appends keep every session's chain verified, are idempotent, and never change what is written.
use agora_opencode.Prelude.{
  ℕ, ◌+◌, ◌≡◌, refl, sym, ◌∙◌, ◌⊎◌, inl, inr, true, false, ◌&&◌, Option, none, some, List, [], ◌∷◌,
  ◌++◌, arith, All, ltb, ◌==◌, Bool-cases, sort_desc-last, filter, subst,
}
use text.Mathlib.TextEquality.{eq_iff}
use agora_opencode.Ledger.Defs.{
  verify_loop, first_look, write_new, under_lock, Hashing, LedgerAppend, LedgerEvent, Tables, Head,
  check_event, verify_events, session_events, find_head, move_head, in_session, is_head,
  ledger_event_hash, persisted, write_event, append_locked, append, same_values, open_session,
  ActorClass, same_class, same_option, human, agent, service, policy,
}
use agora_opencode.Ledger.Chain.{verify_events-append, verify_events-below, verify_events-of}

pub both_same : (w s : ℕ) → (w == w && s == s) ≡ true
both_same w s = ground arith

pub both-eq : (w s v r : ℕ) → (w == v && s == r) ≡ true → (v ≡ w) × (r ≡ s)
both-eq w s v r e = ground arith

pub some-inj {ℓ} : {A : Type ℓ} {a b : A} → some a ≡ some b → a ≡ b
some-inj e = cc

pub same_option_refl : (o : Option ℕ) → same_option o o ≡ true
same_option_refl none = refl
same_option_refl (some a) = ground arith

pub same_class_refl : (c : ActorClass) → same_class c c ≡ true
same_class_refl human = refl
same_class_refl agent = refl
same_class_refl service = refl
same_class_refl policy = refl

pub same_values_refl : (a : LedgerAppend) → same_values a a ≡ true
unfolding same_values
same_values_refl a = ground (
  arith,
  (eq_iff a.event_type a.event_type).1 refl,
  (eq_iff a.payload a.payload).1 refl,
  same_option_refl a.causation_id,
  same_class_refl a.actor_class,
)

module _ {H : Type 0} where
  find-move_self :
      (w s n : ℕ) (x : H) (hs : List (Head H)) (hd : Head H)
      → find_head w s hs ≡ some hd
      → find_head w s (move_head w s n x hs) ≡ some (record hd { next_seq = n; head_hash = x })
  unfolding find_head move_head
  find-move_self w s n x [] hd e = absurd (ground arith)
  find-move_self w s n x (g ∷ hs) hd e = ground (arith, find-move_self w s n x hs hd)

  find-move_other :
      (w s v r n : ℕ) (x : H) (hs : List (Head H))
      → (w == v && s == r) ≡ false
      → find_head v r (move_head w s n x hs) ≡ find_head v r hs
  unfolding find_head move_head
  find-move_other w s v r n x [] e = refl
  find-move_other w s v r n x (g ∷ hs) e = ground (arith, find-move_other w s v r n x hs e)

module _ {H : Type 0} ⦃h : Hashing H⦄ where
  -- Every session with a head verifies.
  pub record IsValid (t : Tables H) : Type 0 where
    pub verified :
        (w s : ℕ) (hd : Head H)
        → find_head w s t.heads ≡ some hd
        → verify_events (session_events w s t) hd.next_seq hd.head_hash ≡ none

  persisted_fits :
      (a : LedgerAppend) (hd : Head H)
      → check_event hd.next_seq hd.head_hash (persisted a hd) ≡ none
  unfolding check_event persisted ledger_event_hash
  persisted_fits a hd = ground (
    arith,
    (h.same_iff (h.hash_payload a.payload) (h.hash_payload a.payload)).1 refl,
    (h.same_iff hd.head_hash hd.head_hash).1 refl,
    (h.same_iff (persisted a hd).event_hash (persisted a hd).event_hash).1 refl,
  )

  session_events_self :
      (a : LedgerAppend) (hd : Head H) (t : Tables H)
      → All
          (λ e. ltb e.ledger_seq hd.next_seq ≡ true)
          (session_events a.workspace_id a.session_id t)
      → session_events a.workspace_id a.session_id (write_event a hd t).1
        ≡ session_events a.workspace_id a.session_id t ++ (persisted a hd ∷ [])
  unfolding session_events write_event persisted
  session_events_self a hd t b = rw (both_same a.workspace_id a.session_id) (
      sort_desc-last (λ x y. ltb y x) (λ (e : LedgerEvent H). e.ledger_seq) (persisted a hd)
        (filter (in_session a.workspace_id a.session_id) t.events) b)

  session_events_other :
      (a : LedgerAppend) (hd : Head H) (t : Tables H) (w s : ℕ)
      → (a.workspace_id == w && a.session_id == s) ≡ false
      → session_events w s (write_event a hd t).1 ≡ session_events w s t
  unfolding session_events write_event persisted
  session_events_other a hd t w s e = rw e refl

  pub heads_self :
      (a : LedgerAppend) (hd : Head H) (t : Tables H)
      → find_head a.workspace_id a.session_id t.heads ≡ some hd
      → find_head a.workspace_id a.session_id (write_event a hd t).1.heads
        ≡ some (record hd { next_seq = hd.next_seq + 1; head_hash = (persisted a hd).event_hash })
  unfolding write_event persisted
  heads_self a hd t e = find-move_self a.workspace_id a.session_id _ _ t.heads hd e

  heads_other :
      (a : LedgerAppend) (hd : Head H) (t : Tables H) (w s : ℕ)
      → (a.workspace_id == w && a.session_id == s) ≡ false
      → find_head w s (write_event a hd t).1.heads ≡ find_head w s t.heads
  unfolding write_event
  heads_other a hd t w s e = find-move_other a.workspace_id a.session_id w s _ _ t.heads e

  written_chain :
      (a : LedgerAppend) (hd : Head H) (t : Tables H)
      → IsValid t
      → find_head a.workspace_id a.session_id t.heads ≡ some hd
      → verify_events
          (session_events a.workspace_id a.session_id (write_event a hd t).1)
          (hd.next_seq + 1)
          (persisted a hd).event_hash
        ≡ none
  written_chain a hd t v e =
      let old = v.verified a.workspace_id a.session_id hd e in
      let events = session_events a.workspace_id a.session_id t in
      rw (session_events_self a hd t (verify_events-below events hd.next_seq hd.head_hash old)) (
        verify_events-append events hd.next_seq hd.head_hash (persisted a hd) old
          (persisted_fits a hd))

  write-IsValid :
      (a : LedgerAppend) (hd : Head H) (t : Tables H)
      → IsValid t
      → find_head a.workspace_id a.session_id t.heads ≡ some hd
      → IsValid (write_event a hd t).1
  write-IsValid a hd t v e = record { verified = all_sessions }
    where
      same_session :
          (hd' : Head H)
          → find_head a.workspace_id a.session_id (write_event a hd t).1.heads ≡ some hd'
          → verify_events
              (session_events a.workspace_id a.session_id (write_event a hd t).1)
              hd'.next_seq
              hd'.head_hash
            ≡ none
      same_session hd' e' =
          subst
            (λ (g : Head H).
              verify_events (session_events a.workspace_id a.session_id (write_event a hd t).1)
                g.next_seq g.head_hash
              ≡ none)
            (some-inj (sym (heads_self a hd t e) ∙ e')) (written_chain a hd t v e)

      all_sessions :
          (w s : ℕ) (hd' : Head H)
          → find_head w s (write_event a hd t).1.heads ≡ some hd'
          → verify_events (session_events w s (write_event a hd t).1) hd'.next_seq hd'.head_hash
            ≡ none
      all_sessions w s hd' e' = elim (Bool-cases (a.workspace_id == w && a.session_id == s)) [
        | inl same ↦
            let (ew, es) = both-eq a.workspace_id a.session_id w s same in
            rw (ew, es) (same_session hd' (rw (ew, es) at e'))
        | inr other ↦
            rw (session_events_other a hd t w s other)
              (v.verified w s hd' (sym (heads_other a hd t w s other) ∙ e'))
      ]

  write_new-IsValid :
      (a : LedgerAppend) (hd : Head H) (t : Tables H) (o : Option (LedgerEvent H))
      → IsValid t
      → find_head a.workspace_id a.session_id t.heads ≡ some hd
      → IsValid (write_new a hd t o).1
  unfolding write_new
  write_new-IsValid a hd t none v e = write-IsValid a hd t v e
  write_new-IsValid a hd t (some x) v e = v

  under_lock-IsValid :
      (a : LedgerAppend) (t : Tables H) (o : Option (Head H))
      → IsValid t
      → find_head a.workspace_id a.session_id t.heads ≡ o
      → IsValid (under_lock a t o).1
  unfolding under_lock
  under_lock-IsValid a t none v e = v
  under_lock-IsValid a t (some hd) v e = write_new-IsValid a hd t _ v e

  first_look-IsValid :
      (a : LedgerAppend) (t : Tables H) (o : Option (LedgerEvent H))
      → IsValid t
      → IsValid (first_look a t o).1
  unfolding first_look append_locked
  first_look-IsValid a t none v = under_lock-IsValid a t _ v refl
  first_look-IsValid a t (some x) v = v

  -- Where every session with a head verifies, an append keeps it so, whatever the tables were
  -- when it first looked.
  pub append-IsValid :
      (a : LedgerAppend) (seen t : Tables H) → IsValid t → IsValid (append a seen t).1
  unfolding append
  append-IsValid a seen t v = first_look-IsValid a t _ v

  find-snoc :
      (w s : ℕ) (hs : List (Head H)) (g hd : Head H)
      → find_head w s (hs ++ (g ∷ [])) ≡ some hd
      → (find_head w s hs ≡ some hd) ⊎ (is_head w s g ≡ true) × (g ≡ hd)
  unfolding find_head
  find-snoc w s [] g hd e = elim (Bool-cases (is_head w s g)) [
    | inl k ↦ inr (k, some-inj (rw k at e))
    | inr k ↦ absurd (ground (arith, rw k at e))
  ]
  find-snoc w s (x ∷ xs) g hd e = elim (Bool-cases (is_head w s x)) [
    | inl k ↦ inl (rw k (rw k at e))
    | inr k ↦ rw k (find-snoc w s xs g hd (rw k at e))
  ]

  new_chain :
      (w s : ℕ) (t : Tables H) (hd : Head H)
      → session_events w s t ≡ []
      → record { workspace_id = w; session_id = s; next_seq = 1; head_hash = h.genesis } ≡ hd
      → verify_events (session_events w s t) hd.next_seq hd.head_hash ≡ none
  unfolding verify_loop
  new_chain w s t hd n e = rw n (
      subst (λ (g : Head H). verify_events [] g.next_seq g.head_hash ≡ none) e
        (verify_events-of [] 1 h.genesis refl refl))

  opened :
      (w s v r : ℕ) (t : Tables H) (hd : Head H)
      → session_events w s t ≡ []
      → (w == v && s == r) ≡ true
      → record { workspace_id = w; session_id = s; next_seq = 1; head_hash = h.genesis } ≡ hd
      → verify_events (session_events v r t) hd.next_seq hd.head_hash ≡ none
  opened w s v r t hd n k e =
      let (ev, er) = both-eq w s v r k in rw (ev, er) (new_chain w s t hd n e)

  -- Where every session with a head verifies, opening a session without events keeps it so.
  pub open_session-IsValid :
      (w s : ℕ) (t : Tables H)
      → session_events w s t ≡ []
      → IsValid t
      → IsValid (open_session w s t)
  unfolding open_session session_events
  open_session-IsValid w s t n v = record {
    verified = λ v' r hd e. elim (find-snoc v' r t.heads _ hd e) [
      | inl old ↦ v.verified v' r hd old
      | inr (k, new) ↦ opened w s v' r t hd n k new
    ];
  }
