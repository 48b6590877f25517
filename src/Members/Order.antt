-- ===== src/Members/Order.antt =====
-- The intervention that is written last is replayed last.
use agora_opencode.Prelude.{
  >>=-eq-ok, ok-injective, err, ◌>>=◌, Result, ok, ℕ, ◌≡◌, refl, ap, true, false, Option, none,
  some, List, [], ◌∷◌, ◌++◌, arith, Mem, All, All-of_mem, mem-All, Bool-cases, inl, inr, ◌==◌, ltb,
  leb, sort_desc, sort_desc-last, sort_desc-mem, mem-sort_desc, filter-mem, ◌⊎◌,
}
use agora_opencode.Ledger.Defs.{LedgerEvent, Tables, event_by_id, in_session, session_events}
use agora_opencode.Members.Types.{MembershipError, AgentDefinition, MembershipIntervention}
use agora_opencode.Members.Store.{
  intervene_by, intervene, find_definition, replay_members, Placed, placed, placed_by, placed_key,
  comes_after, is_effective, find_intervention,
}

module _ {H : Type 0} where
  mem-event_by_id :
      (k : ℕ) (es : List (LedgerEvent H)) (e : LedgerEvent H) → event_by_id k es ≡ some e → Mem e es
  unfolding event_by_id
  mem-event_by_id k [] e f = absurd (ground arith)
  mem-event_by_id k (x ∷ xs) e f = ground (arith, mem-event_by_id k xs e)

  -- The event that a placed row was joined with.
  record Joined (w s round : ℕ) (es : List (LedgerEvent H)) (p : Placed) : Type 0 where
    soon : leb p.intervention.effective_round round ≡ true
    event : LedgerEvent H
    there : Mem event es
    inside : in_session w s event ≡ true
    numbered : event.ledger_seq ≡ p.ledger_seq

  placed_by-Joined :
      (w s round : ℕ) (es : List (LedgerEvent H)) (i : MembershipIntervention)
      → (o : Option (LedgerEvent H)) → event_by_id i.event_id es ≡ o
      → (rest : List Placed) (p : Placed) → Mem p (placed_by w s i o rest)
      → leb i.effective_round round ≡ true
      → Joined w s round es p ⊎ Mem p rest
  placed_by-Joined w s round es i none f rest p m soon = inr m
  placed_by-Joined w s round es i (some e) f rest p m soon = elim (Bool-cases (in_session w s e)) [
    | inr out ↦ inr (rw out at m)
    | inl own ↦
        let found : (p ≡ record { intervention = i; ledger_seq = e.ledger_seq }) ⊎ Mem p rest =
          rw own at m in
        elim found [
          | inr m' ↦ inr m'
          | inl same ↦ inl (record {
            soon = rw same soon;
            event = e;
            there = mem-event_by_id i.event_id es e f;
            inside = own;
            numbered = ground (arith, same);
          })
        ]
  ]

  mem-placed :
      (w s round : ℕ) (es : List (LedgerEvent H)) (is' : List MembershipIntervention) (p : Placed)
      → Mem p (placed w s round es is')
      → Joined w s round es p
  unfolding placed
  mem-placed w s round es [] p m = elim m [ ]
  mem-placed w s round es (i ∷ is') p m = elim (Bool-cases (is_effective w s round i)) [
    | inr out ↦ mem-placed w s round es is' p (rw out at m)
    | inl own ↦
        elim (placed_by-Joined w s round es i (event_by_id i.event_id es) refl
          (placed w s round es is') p (rw own at m) (ground arith)) [
            | inl j ↦ j
            | inr m' ↦ mem-placed w s round es is' p m'
          ]
  ]

  -- Events of other ids change no row.
  pub placed-other :
      (w s round : ℕ) (e : LedgerEvent H) (es : List (LedgerEvent H))
      → (is' : List MembershipIntervention) → find_intervention e.values.id is' ≡ none
      → placed w s round (e ∷ es) is' ≡ placed w s round es is'
  unfolding placed find_intervention event_by_id
  placed-other w s round e es [] f = refl
  placed-other w s round e es (i ∷ is') f = elim (Bool-cases (i.event_id == e.values.id)) [
    | inl same ↦ absurd (ground (arith, rw same at f))
    | inr other ↦
        let back : (e.values.id == i.event_id) ≡ false = ground arith in
        rw (back, placed-other w s round e es is' (rw other at f)) refl
  ]

  -- A row of the latest round, with a sequence number above all of the session's, comes last.
  pub placed-last :
      (w s round top : ℕ) (t : Tables H) (is' : List MembershipIntervention)
      → (q : MembershipIntervention) → q.effective_round ≡ round
      → All (λ (e : LedgerEvent H). ltb e.ledger_seq top ≡ true) (session_events w s t)
      → sort_desc comes_after placed_key
          (record { intervention = q; ledger_seq = top } ∷ placed w s round t.events is')
        ≡ sort_desc comes_after placed_key (placed w s round t.events is')
          ++ (record { intervention = q; ledger_seq = top } ∷ [])
  unfolding session_events
  placed-last w s round top t is' q now below =
      sort_desc-last comes_after placed_key (record { intervention = q; ledger_seq = top })
        (placed w s round t.events is')
        (All-of_mem _ _ λ p m. comes_behind p (
          mem-placed w s round t.events is' p
            (mem-sort_desc comes_after placed_key p (placed w s round t.events is') m)))
    where
      comes_behind :
          (p : Placed)
          → Joined w s round t.events p
          → comes_after (q.effective_round, top) (placed_key p) ≡ true
      comes_behind p j =
          let lower = mem-All _ j.event _ below (
            sort_desc-mem (λ a b. ltb b a) (λ (e : LedgerEvent H). e.ledger_seq) j.event _
              (filter-mem (in_session w s) j.event t.events j.there j.inside)) in
          ground (arith, j.soon, j.numbered, lower, now)

  -- The rows after an event of the session and its intervention were written.
  pub placed-written :
      (w s round : ℕ) (e : LedgerEvent H) (es : List (LedgerEvent H))
      → (q : MembershipIntervention) (is' : List MembershipIntervention) → e.values.id ≡ q.event_id
      → in_session w s e ≡ true
      → is_effective w s round q ≡ true
      → find_intervention q.event_id is' ≡ none
      → placed w s round (e ∷ es) (q ∷ is')
        ≡ record { intervention = q; ledger_seq = e.ledger_seq } ∷ placed w s round es is'
  unfolding placed event_by_id
  placed-written w s round e es q is' same own soon fresh =
      let found : (e.values.id == q.event_id) ≡ true = ground arith in
      rw (soon, found, own)
        (ap (λ ps. record { intervention = q; ledger_seq = e.ledger_seq } ∷ ps)
          (placed-other w s round e es is' (rw same fresh)))

-- What was replayed before is replayed before the last intervention.
pub replay_members-snoc :
    (w : ℕ) (ds : List AgentDefinition) (ps : List Placed) (p : Placed)
    → (start members : List AgentDefinition) → replay_members w ds ps start ≡ ok members
    → (d : AgentDefinition) → find_definition w p.intervention.agent_definition_id ds ≡ some d
    → replay_members w ds (ps ++ (p ∷ [])) start
      ≡ intervene p.intervention.kind p.intervention.replaced_agent_definition_id d members
unfolding replay_members
replay_members-snoc w ds [] p start members e d f =
    rw (f, ok-injective e) (last (intervene p.intervention.kind _ d members))
  where
    last : (r : Result MembershipError (List AgentDefinition)) → (r >>= replay_members w ds []) ≡ r
    last (ok x) = refl
    last (err x) = refl
replay_members-snoc w ds (x ∷ xs) p start members e d f =
    let (mid, first, rest) =
      >>=-eq-ok
        (intervene_by x.intervention start
          (find_definition w x.intervention.agent_definition_id ds))
        (replay_members w ds xs) e in
    rw first (replay_members-snoc w ds xs p mid members rest d f)
