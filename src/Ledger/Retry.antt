-- ===== src/Ledger/Retry.antt =====
-- Repeated and conflicting appends, and the rows that an append leaves alone.
use agora_opencode.Prelude.{
  ==_iff, arith, Result, ◌==◌, inl, inr, ◌+◌, ==_refl, sym, ◌∙◌, ap, err, Bool-cases, false, true,
  ok-injective, ok, none, some, Option, Mem, ℕ, ◌≡◌, refl,
}
use agora_opencode.Ledger.Defs.{
  LedgerError, different_values, same_values, find_head, event_by_id, Head, persisted,
  idempotent_result, first_look, write_event, append, under_lock, write_new, append_locked,
  LedgerEvent, Tables, Hashing, LedgerAppend,
}
use agora_opencode.Ledger.Append.{some-inj, same_values_refl, heads_self}

module _ {H : Type 0} ⦃h : Hashing H⦄ where
  -- What a reader saw of the event of an id is still there.
  unfoldable pub Sees : ℕ → Tables H → Tables H → Type 0
  Sees k seen t =
      (e : LedgerEvent H) → event_by_id k seen.events ≡ some e → event_by_id k t.events ≡ some e

  -- Every row is the one that its id finds.
  unfoldable pub UniqueIds : Tables H → Type 0
  UniqueIds t = (e : LedgerEvent H) → Mem e t.events → event_by_id e.values.id t.events ≡ some e

  locked-found :
      (a : LedgerAppend) (t : Tables H) (hd : Head H) (x : LedgerEvent H)
      → find_head a.workspace_id a.session_id t.heads ≡ some hd
      → event_by_id a.id t.events ≡ some x
      → append_locked a t ≡ (idempotent_result a x, t)
  unfolding append_locked under_lock write_new
  locked-found a t hd x e k = rw (e, k) refl

  append-found :
      (a : LedgerAppend) (seen t : Tables H) (hd : Head H) (x : LedgerEvent H)
      → Sees a.id seen t
      → find_head a.workspace_id a.session_id t.heads ≡ some hd
      → event_by_id a.id t.events ≡ some x
      → append a seen t ≡ (idempotent_result a x, t)
  unfolding append first_look Sees
  append-found a seen t hd x sees e k = go (event_by_id a.id seen.events) refl
    where
      go :
          (o : Option (LedgerEvent H))
          → event_by_id a.id seen.events ≡ o
          → first_look a t o ≡ (idempotent_result a x, t)
      go none f = locked-found a t hd x e k
      go (some y) f = rw (some-inj (sym (sees y f) ∙ k)) refl

  -- What an append that succeeds leaves behind.
  pub record Written (a : LedgerAppend) (e : LedgerEvent H) (t : Tables H) : Type 0 where
    pub found : event_by_id a.id t.events ≡ some e
    pub same : same_values a e.values ≡ true
    pub head : Head H
    pub head_there : find_head a.workspace_id a.session_id t.heads ≡ some head

  replayed-Written :
      (a : LedgerAppend) (x e : LedgerEvent H) (t t' : Tables H) (hd : Head H)
      → event_by_id a.id t.events ≡ some x
      → find_head a.workspace_id a.session_id t.heads ≡ some hd
      → ◌≡◌ {A = Result LedgerError (LedgerEvent H) × Tables H}
          (idempotent_result a x, t)
          (ok e, t')
      → Written a e t'
  unfolding idempotent_result
  replayed-Written a x e t t' hd f k r = elim (Bool-cases (same_values a x.values)) [
    | inl s ↦
        let same_e : x ≡ e = ok-injective (rw s at (ap (λ q. q.0) r)) in
        let same_t : t ≡ t' = ap (λ q. q.1) r in
        rw (sym same_e, sym same_t) (record { found = f; same = s; head = hd; head_there = k })
    | inr s ↦ absurd (ground (arith, s, ap (λ q. q.0) r))
  ]

  write_new-Written :
      (a : LedgerAppend) (hd : Head H) (t t' : Tables H) (e : LedgerEvent H)
      → (o : Option (LedgerEvent H)) → event_by_id a.id t.events ≡ o
      → find_head a.workspace_id a.session_id t.heads ≡ some hd
      → write_new a hd t o ≡ (ok e, t')
      → Written a e t'
  unfolding write_new write_event persisted event_by_id
  write_new-Written a hd t t' e (some x) f k r = replayed-Written a x e t t' hd f k r
  write_new-Written a hd t t' e none f k r =
      let same_e : persisted a hd ≡ e = ok-injective (ap (λ q. q.0) r) in
      let same_t : (write_event a hd t).1 ≡ t' = ap (λ q. q.1) r in
      rw (sym same_e, sym same_t)
        (record {
          found = rw (==_refl a.id) refl;
          same = same_values_refl a;
          head = record hd { next_seq = hd.next_seq + 1; head_hash = (persisted a hd).event_hash };
          head_there = heads_self a hd t k;
        })

  append-Written :
      (a : LedgerAppend) (seen t t' : Tables H) (hd : Head H) (e : LedgerEvent H)
      → Sees a.id seen t
      → find_head a.workspace_id a.session_id t.heads ≡ some hd
      → append a seen t ≡ (ok e, t')
      → Written a e t'
  unfolding append first_look append_locked under_lock Sees
  append-Written a seen t t' hd e sees k r = go (event_by_id a.id seen.events) refl r
    where
      go :
          (o : Option (LedgerEvent H))
          → event_by_id a.id seen.events ≡ o
          → first_look a t o ≡ (ok e, t')
          → Written a e t'
      go none f q = write_new-Written a hd t t' e _ refl k (rw k at q)
      go (some x) f q = replayed-Written a x e t t' hd (sees x f) k q

  -- In a session with a ledger head, an append that succeeded, by a first look that was still
  -- current, can be repeated on the tables that it left, with a look that is current there: it
  -- returns the same event and changes nothing.
  pub append-retry :
      (a : LedgerAppend) (seen seen' t t' : Tables H) (hd : Head H) (e : LedgerEvent H)
      → Sees a.id seen t
      → find_head a.workspace_id a.session_id t.heads ≡ some hd
      → append a seen t ≡ (ok e, t')
      → Sees a.id seen' t'
      → append a seen' t' ≡ (ok e, t')
  unfolding idempotent_result
  append-retry a seen seen' t t' hd e sees k r sees' =
      let w = append-Written a seen t t' hd e sees k r in
      append-found a seen' t' w.head e sees' w.head_there w.found ∙ same_result w.same
    where
      same_result :
          same_values a e.values ≡ true
          → ◌≡◌ {A = Result LedgerError (LedgerEvent H) × Tables H}
              (idempotent_result a e, t')
              (ok e, t')
      same_result s = rw s refl

  -- In a session with a ledger head, an append under the id of an event that is there, with
  -- other values and by a first look that is still current, ends in an error and changes
  -- nothing.
  pub append-conflict :
      (a : LedgerAppend) (seen t : Tables H) (hd : Head H) (x : LedgerEvent H)
      → Sees a.id seen t
      → find_head a.workspace_id a.session_id t.heads ≡ some hd
      → event_by_id a.id t.events ≡ some x
      → same_values a x.values ≡ false
      → append a seen t ≡ (err different_values, t)
  unfolding idempotent_result
  append-conflict a seen t hd x sees k f other = append-found a seen t hd x sees k f ∙ refused
    where
      refused :
          ◌≡◌ {A = Result LedgerError (LedgerEvent H) × Tables H}
            (idempotent_result a x, t)
            (err different_values, t)
      refused = rw other refl

  unique-cons :
      (a : LedgerAppend) (hd : Head H) (t : Tables H)
      → UniqueIds t
      → event_by_id a.id t.events ≡ none
      → UniqueIds (write_event a hd t).1
  unfolding write_event persisted event_by_id UniqueIds
  unique-cons a hd t u f x (inl e) = rw e (rw (==_refl a.id) refl)
  unique-cons a hd t u f x (inr m) = elim (Bool-cases (a.id == x.values.id)) [
    | inl e ↦
        let same : a.id ≡ x.values.id = (==_iff a.id x.values.id).0 e in
        absurd (ground (arith, u x m, same, f))
    | inr e ↦ rw e (u x m)
  ]

  write_new-UniqueIds :
      (a : LedgerAppend) (hd : Head H) (t : Tables H) (o : Option (LedgerEvent H))
      → event_by_id a.id t.events ≡ o
      → UniqueIds t
      → UniqueIds (write_new a hd t o).1
  unfolding write_new
  write_new-UniqueIds a hd t none f u = unique-cons a hd t u f
  write_new-UniqueIds a hd t (some x) f u = u

  under_lock-UniqueIds :
      (a : LedgerAppend) (t : Tables H) (o : Option (Head H))
      → UniqueIds t
      → UniqueIds (under_lock a t o).1
  unfolding under_lock
  under_lock-UniqueIds a t none u = u
  under_lock-UniqueIds a t (some hd) u = write_new-UniqueIds a hd t _ refl u

  first_look-UniqueIds :
      (a : LedgerAppend) (t : Tables H) (o : Option (LedgerEvent H))
      → UniqueIds t
      → UniqueIds (first_look a t o).1
  unfolding first_look append_locked
  first_look-UniqueIds a t none u = under_lock-UniqueIds a t _ u
  first_look-UniqueIds a t (some x) u = u

  -- Where every row is the one that its id finds, an append keeps it so, whatever the tables
  -- were when it first looked.
  pub append-UniqueIds :
      (a : LedgerAppend) (seen t : Tables H) → UniqueIds t → UniqueIds (append a seen t).1
  unfolding append
  append-UniqueIds a seen t u = first_look-UniqueIds a t _ u

  -- An append that fails writes nothing.
  pub append-err :
      (a : LedgerAppend) (seen t : Tables H) (x : LedgerError)
      → (append a seen t).0 ≡ err x
      → (append a seen t).1 ≡ t
  unfolding append first_look append_locked under_lock write_new
  append-err a seen t x = first (event_by_id a.id seen.events)
    where
      new :
          (hd : Head H) (o : Option (LedgerEvent H))
          → (write_new a hd t o).0 ≡ err x
          → (write_new a hd t o).1 ≡ t
      new hd none e = absurd (ground (arith, e))
      new hd (some y) e = refl

      locked : (o : Option (Head H)) → (under_lock a t o).0 ≡ err x → (under_lock a t o).1 ≡ t
      locked none e = refl
      locked (some hd) e = new hd (event_by_id a.id t.events) e

      first : (o : Option (LedgerEvent H)) → (first_look a t o).0 ≡ err x → (first_look a t o).1 ≡ t
      first none e = locked (find_head a.workspace_id a.session_id t.heads) e
      first (some y) e = refl
