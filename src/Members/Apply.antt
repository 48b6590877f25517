-- ===== src/Members/Apply.antt =====
-- What applying an approved intervention does.
use agora_opencode.Prelude.{
  ==_iff, le→leb, ℕ, ◌<◌, ◌≡◌, refl, ap, ◌∙◌, true, false, Option, none, some, String, [], ◌∷◌,
  ◌++◌, arith, Result, ok, leb, sort_desc,
}
use agora_opencode.Ledger.Append.{IsValid, both_same}
use agora_opencode.Ledger.Chain.{verify_events-below}
use agora_opencode.Ledger.Defs.{
  Hashing, Head, LedgerAppend, LedgerEvent, Tables, append, append_locked, event_by_id, find_head,
  first_look, persisted, session_events, under_lock, write_event, write_new,
}
use agora_opencode.Ledger.Retry.{Sees}
use agora_opencode.Session.States.{LifecycleError, SessionLifecycle}
use agora_opencode.Members.Types.{AgentDefinition, MembershipIntervention}
use agora_opencode.Members.Store.{
  MemberTables, add_intervention, comes_after, effective_members, find_intervention,
  initial_members, is_effective, membership, placed, placed_key, set_referenced,
}
use agora_opencode.Members.Coordinator.{
  Approved, apply, apply_after, approve, intervention_event, write_intervention,
}
use agora_opencode.Members.Approve.{membership-inv, approve-Checked, snapshot-of_valid}
use agora_opencode.Members.Order.{placed-last, placed-written, placed-other, replay_members-snoc}
use agora_opencode.Members.Change.{changed, members-IsStored, find_definition-keys}
use agora_opencode.Members.Valid.{change-valid, of_members}

module _ {H : Type 0} ⦃h : Hashing H⦄ where
  -- An append under a new id writes behind the head.
  append-new :
      (a : LedgerAppend) (seen t : Tables H) (hd : Head H)
      → Sees a.id seen t
      → event_by_id a.id t.events ≡ none
      → find_head a.workspace_id a.session_id t.heads ≡ some hd
      → append a seen t ≡ (ok (persisted a hd), (write_event a hd t).1)
  unfolding append append_locked under_lock write_new write_event first_look persisted Sees
  append-new a seen t hd sees fresh head = go (event_by_id a.id seen.events) refl
    where
      go :
          (o : Option (LedgerEvent H))
          → event_by_id a.id seen.events ≡ o
          → first_look a t o ≡ (ok (persisted a hd), (write_event a hd t).1)
      go none f = rw (head, fresh) refl
      go (some e) f = absurd (ground (arith, sees e f, fresh))

module _ {H : Type 0} ⦃h : Hashing H⦄
    (view : SessionLifecycle → Result LifecycleError SessionLifecycle)
    (payload : MembershipIntervention → AgentDefinition → String) where
  -- The tables after an approved intervention: its event behind the head, its row, and the time at
  -- which its definition was first referenced.
  abbrev pub written : MembershipIntervention → Approved → Head H → MemberTables H → MemberTables H
  written q a hd t = record t {
    sessions = record t.sessions {
      tables =
          (write_event (intervention_event payload q a.row a.definition) hd t.sessions.tables).1;
    };
    interventions = q ∷ t.interventions;
    referenced = set_referenced q.agent_definition_id q.recorded_at t.referenced;
  }

  module _ (q : MembershipIntervention) (seen : Tables H) (t : MemberTables H) (a : Approved)
      (hd : Head H) (fresh : find_intervention q.event_id t.interventions ≡ none)
      (approved : approve view q t ≡ ok a)
      (head : find_head q.workspace_id q.session_id t.sessions.tables.heads ≡ some hd) where
    apply-written :
        Sees q.event_id seen t.sessions.tables
        → event_by_id q.event_id t.sessions.tables.events ≡ none
        → apply view payload q seen t ≡ (
          membership q.workspace_id q.session_id q.effective_round (written q a hd t),
          written q a hd t,
        )
    unfolding apply apply_after write_intervention add_intervention
    apply-written sees new_event =
        let event = intervention_event payload q a.row a.definition in
        rw (fresh, approved, append-new event seen t.sessions.tables hd sees new_event head, fresh)
          refl

    -- The rounds before the intervention keep their members.
    earlier :
        (k : ℕ)
        → k < q.effective_round
        → membership q.workspace_id q.session_id k (written q a hd t)
          ≡ membership q.workspace_id q.session_id k t
    unfolding membership effective_members placed write_event persisted
    earlier k before =
        let late : leb q.effective_round k ≡ false = ground arith in
        rw (late, both_same q.workspace_id q.session_id)
          (rw
            (placed-other q.workspace_id q.session_id k
              (persisted (intervention_event payload q a.row a.definition) hd)
              t.sessions.tables.events t.interventions fresh)
            refl)

    rows_after :
        IsValid t.sessions.tables
        → sort_desc comes_after placed_key (
            placed q.workspace_id q.session_id q.effective_round
              (written q a hd t).sessions.tables.events
              (q ∷ t.interventions))
          ≡ sort_desc comes_after placed_key (
              placed q.workspace_id q.session_id q.effective_round t.sessions.tables.events
                t.interventions)
            ++ (record { intervention = q; ledger_seq = hd.next_seq } ∷ [])
    unfolding write_event persisted
    rows_after v =
        let w = q.workspace_id in
        let s = q.session_id in
        let event = persisted (intervention_event payload q a.row a.definition) hd in
        let events = session_events w s t.sessions.tables in
        let below = verify_events-below events hd.next_seq hd.head_hash (v.verified w s hd head) in
        let soon : is_effective w s q.effective_round q ≡ true =
          ground (arith, both_same w s, le→leb q.effective_round q.effective_round (omega arith)) in
        ap (sort_desc comes_after placed_key) (
          placed-written w s q.effective_round event t.sessions.tables.events q t.interventions refl
            (both_same w s) soon fresh)
        ∙ placed-last w s q.effective_round hd.next_seq t.sessions.tables t.interventions q refl
            below

    members_after :
        IsValid t.sessions.tables
        → membership q.workspace_id q.session_id q.effective_round (written q a hd t)
          ≡ ok (
              of_members q.workspace_id q.session_id q.effective_round
                (changed q.kind q.replaced_agent_definition_id a.definition a.current.definitions))
    unfolding membership effective_members
    members_after v =
        let w = q.workspace_id in
        let s = q.session_id in
        let c = approve-Checked view q t a approved in
        let m = membership-inv w s q.effective_round t a.current c.before in
        let stored =
          members-IsStored w t.definitions s _ t.session_agents a.current.definitions m.replayed in
        let (own, _) =
          find_definition-keys w q.agent_definition_id t.definitions a.definition c.defined in
        let (done, valid) =
          change-valid w s q.effective_round t.definitions q.kind q.replaced_agent_definition_id
            a.definition a.current.definitions m.valid stored ((==_iff _ _).1 own) c.allowed in
        let replayed =
          replay_members-snoc w t.definitions
            (sort_desc comes_after placed_key
              (placed w s q.effective_round t.sessions.tables.events t.interventions))
            (record { intervention = q; ledger_seq = hd.next_seq })
            (initial_members w s t.definitions t.session_agents) a.current.definitions m.replayed
            a.definition c.defined in
        rw (m.positive, rows_after v, replayed ∙ done)
          (snapshot-of_valid w s q.effective_round _ valid)

    -- Where every session with a ledger head verifies, an intervention under an id that neither
    -- the ledger nor the interventions have, in a session with a head, that passes the checks is
    -- applied without an exception: the answer is the membership before, with the new definition
    -- in the place of the replaced one or behind all others, and the membership of every earlier
    -- round stays.
    pub apply-changes :
        IsValid t.sessions.tables
        → Sees q.event_id seen t.sessions.tables
        → event_by_id q.event_id t.sessions.tables.events ≡ none
        → (apply view payload q seen t ≡ (
          ok (
              of_members q.workspace_id q.session_id q.effective_round
                (changed q.kind q.replaced_agent_definition_id a.definition a.current.definitions)),
          written q a hd t,
        ))
          × ((k : ℕ)
              → k < q.effective_round
              → membership q.workspace_id q.session_id k (written q a hd t)
                ≡ membership q.workspace_id q.session_id k t)
    apply-changes v sees new_event =
        (apply-written sees new_event ∙ ap (λ m. (m, written q a hd t)) (members_after v), earlier)
