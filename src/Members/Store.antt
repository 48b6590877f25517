-- ===== src/Members/Store.antt =====
-- The membership of a session at a round: `SqlAlchemyCoordinatorPolicyStore` of
-- backend/app/db/coordinator_policy.py over its tables, beside the lifecycles and the ledger.
use agora_opencode.Prelude.{
  ℕ, Bool, ◌&&◌, ◌||◌, Option, none, some, List, [], ◌∷◌, ◌++◌, Result, ok, err, ◌>>=◌, ◌==◌, ltb,
  leb, if◌then◌else◌, filter, sort_desc, lookup,
}
use agora_opencode.Ledger.Defs.{LedgerEvent, event_by_id, in_session}
use agora_opencode.Session.Store.{Sessions}
use agora_opencode.Members.Types.{
  AgentDefinition, MembershipError, MembershipIntervention, MembershipInterventionKind,
  MembershipSnapshot, replace, inject, broken_history, unknown_definition, bad_round,
  invalid_snapshot, snapshot_is_valid, same_intervention, reused_event,
}

-- A row of `session_agents`
pub record SessionAgent : Type 0 where
  pub workspace_id : ℕ
  pub session_id : ℕ
  pub agent_def_id : ℕ
  pub bound_at : ℕ

-- The tables. `referenced` has the times of `referenced_at`, by the id of the definition.
pub record MemberTables (H : Type 0) : Type 0 where
  pub sessions : Sessions H
  pub definitions : List AgentDefinition
  pub session_agents : List SessionAgent
  pub interventions : List MembershipIntervention
  pub referenced : List (ℕ × ℕ)

-- `get_definition`
unfoldable pub find_definition : ℕ → ℕ → List AgentDefinition → Option AgentDefinition
find_definition w k [] = none
find_definition w k (d ∷ ds) =
    if d.workspace_id == w && d.id == k then some d else find_definition w k ds

-- `get_intervention`, by the primary key
unfoldable pub find_intervention : ℕ → List MembershipIntervention → Option MembershipIntervention
find_intervention k [] = none
find_intervention k (i ∷ is') = if i.event_id == k then some i else find_intervention k is'

-- `ORDER BY a, b` of pairs, as the test that a row comes behind another
abbrev pub comes_after : ℕ × ℕ → ℕ × ℕ → Bool
comes_after (a, b) (c, d) = ltb c a || c == a && ltb d b

abbrev pub agent_key : SessionAgent → ℕ × ℕ
agent_key a = (a.bound_at, a.agent_def_id)

-- The inner join with the definitions
abbrev pub join_with : Option AgentDefinition → List AgentDefinition → List AgentDefinition
join_with none ds = ds
join_with (some d) ds = d ∷ ds

unfoldable pub join_definitions :
    ℕ → List AgentDefinition → List SessionAgent → List AgentDefinition
join_definitions w ds [] = []
join_definitions w ds (a ∷ as') =
    join_with (find_definition w a.agent_def_id ds) (join_definitions w ds as')

-- The members that the session was started with.
unfoldable pub initial_members :
    ℕ → ℕ → List AgentDefinition → List SessionAgent → List AgentDefinition
unfolding join_definitions
initial_members w s ds as' = join_definitions w ds (
    sort_desc comes_after agent_key
      (filter (λ (a : SessionAgent). a.workspace_id == w && a.session_id == s) as'))

abbrev pub is_effective : ℕ → ℕ → ℕ → MembershipIntervention → Bool
is_effective w s round i = i.workspace_id == w && i.session_id == s && leb i.effective_round round

-- `COALESCE(referenced_at, at)`
abbrev pub set_referenced : ℕ → ℕ → List (ℕ × ℕ) → List (ℕ × ℕ)
set_referenced k at rs = elim (lookup k rs) [ none ↦ (k, at) ∷ rs | some _ ↦ rs ]

-- An intervention with the sequence number of its event.
pub record Placed : Type 0 where
  pub intervention : MembershipIntervention
  pub ledger_seq : ℕ

abbrev pub placed_key : Placed → ℕ × ℕ
placed_key p = (p.intervention.effective_round, p.ledger_seq)

module _ {H : Type 0} where
  abbrev pub placed_by :
      ℕ → ℕ → MembershipIntervention → Option (LedgerEvent H) → List Placed → List Placed
  placed_by w s i none rest = rest
  placed_by w s i (some e) rest =
      if in_session w s e
      then record { intervention = i; ledger_seq = e.ledger_seq } ∷ rest
      else rest

  -- The interventions of the session up to the round, joined with their events.
  unfoldable pub placed :
      ℕ → ℕ → ℕ → List (LedgerEvent H) → List MembershipIntervention → List Placed
  placed w s round es [] = []
  placed w s round es (i ∷ is') =
      let rest = placed w s round es is' in
      if is_effective w s round i then placed_by w s i (event_by_id i.event_id es) rest else rest

-- `ordered[index] = definition` at the first member with that id
unfoldable pub replace_first :
    Option ℕ → AgentDefinition → List AgentDefinition → Option (List AgentDefinition)
replace_first none d ds = none
replace_first (some k) d [] = none
replace_first (some k) d (x ∷ xs) =
    let rest = replace_first (some k) d xs in
    if x.id == k then some (d ∷ xs) else elim rest [ none ↦ none | some ys ↦ some (x ∷ ys) ]

abbrev pub or_broken : Option (List AgentDefinition) → Result MembershipError (List AgentDefinition)
or_broken none = err broken_history
or_broken (some ds) = ok ds

-- One round of the loop over the interventions, from the definition that it names.
unfoldable pub intervene :
    MembershipInterventionKind
    → Option ℕ
    → AgentDefinition
    → List AgentDefinition
    → Result MembershipError (List AgentDefinition)
unfolding replace_first
intervene replace replaced d members = or_broken (replace_first replaced d members)
intervene inject replaced d members = ok (members ++ (d ∷ []))

abbrev pub intervene_by :
    MembershipIntervention
    → List AgentDefinition
    → Option AgentDefinition
    → Result MembershipError (List AgentDefinition)
intervene_by i members none = err unknown_definition
intervene_by i members (some d) = intervene i.kind i.replaced_agent_definition_id d members

unfoldable pub replay_members :
    ℕ
    → List AgentDefinition
    → List Placed
    → List AgentDefinition
    → Result MembershipError (List AgentDefinition)
unfolding intervene
replay_members w ds [] members = ok members
replay_members w ds (p ∷ ps) members =
    intervene_by p.intervention members (find_definition w p.intervention.agent_definition_id ds)
    >>= replay_members w ds ps

-- The construction of a snapshot runs its validator.
unfoldable pub snapshot :
    ℕ → ℕ → ℕ → List AgentDefinition → Result MembershipError MembershipSnapshot
snapshot w s round members =
    let m : MembershipSnapshot = record {
      workspace_id = w;
      session_id = s;
      round = round;
      definitions = members;
    } in
    if snapshot_is_valid m then ok m else err invalid_snapshot

module _ {H : Type 0} where
  unfoldable pub effective_members :
      ℕ → ℕ → ℕ → MemberTables H → Result MembershipError (List AgentDefinition)
  effective_members w s round t =
      replay_members w t.definitions
        (sort_desc comes_after placed_key
          (placed w s round t.sessions.tables.events t.interventions))
        (initial_members w s t.definitions t.session_agents)

  -- `membership`
  unfoldable pub membership : ℕ → ℕ → ℕ → MemberTables H → Result MembershipError MembershipSnapshot
  unfolding effective_members
  membership w s round t =
      if round == 0 then err bad_round else (effective_members w s round t >>= snapshot w s round)

  abbrev pub add_after :
      MembershipIntervention
      → MemberTables H
      → Option MembershipIntervention
      → Result MembershipError (MemberTables H)
  add_after i t (some old) = if same_intervention old i then ok t else err reused_event
  add_after i t none = ok (record t {
    interventions = i ∷ t.interventions;
    referenced = set_referenced i.agent_definition_id i.recorded_at t.referenced;
  })

  -- `add_intervention`
  unfoldable pub add_intervention :
      MembershipIntervention → MemberTables H → Result MembershipError (MemberTables H)
  add_intervention i t = add_after i t (find_intervention i.event_id t.interventions)
