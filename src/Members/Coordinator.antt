-- ===== src/Members/Coordinator.antt =====
-- `SessionMembershipCoordinator.apply` of backend/app/application/coordinator_policy.py, under the lock
-- on the membership of the session. The canonical JSON of an event's payload is a parameter.
use agora_opencode.Prelude.{
  ℕ, ◌+◌, ◌&&◌, ◌||◌, not, Option, none, some, String, List, Result, ok, err, ◌>>=◌, ◌>>◌, raise_if,
  ◌==◌, if◌then◌else◌, filter, lookup, dict_of, contains,
}
use agora_opencode.Ledger.Defs.{
  Hashing, LedgerAppend, LedgerError, LedgerEvent, Tables, append, human,
}
use agora_opencode.Session.States.{LifecycleError, SessionLifecycle, is_terminal}
use agora_opencode.Session.Store.{get}
use agora_opencode.Members.Types.{
  AgentDefinition, MembershipError, MembershipIntervention, MembershipInterventionKind,
  MembershipSnapshot, replace, inject, is_replace, is_active, same_intervention, logical_ids,
  lifecycle, ledger, reused_event, missing_or_terminal, wrong_round, replace_after_start,
  inject_before_start, inactive_definition, not_effective, several_versions, no_replaced,
}
use agora_opencode.Members.Store.{
  MemberTables, find_definition, find_intervention, membership, add_intervention,
}

-- The round in which an intervention becomes effective.
abbrev pub expected_round : SessionLifecycle → ℕ
expected_round r = if r.round == 0 then 1 else r.round + 1

-- The checks of the request against the lifecycle.
unfoldable pub check_lifecycle :
    MembershipIntervention → Option SessionLifecycle → Result MembershipError SessionLifecycle
check_lifecycle q none = err missing_or_terminal
check_lifecycle q (some r) =
    if is_terminal r.state
    then err missing_or_terminal
    else (if not (q.effective_round == expected_round r)
        then err wrong_round
        else (if is_replace q.kind && not (r.round == 0)
            then err replace_after_start
            else (if not (is_replace q.kind) && r.round == 0
                then err inject_before_start
                else ok r)))

-- The new definition must be an active one of the workspace.
unfoldable pub check_definition :
    MembershipIntervention → Option AgentDefinition → Result MembershipError AgentDefinition
check_definition q none = err inactive_definition
check_definition q (some d) =
    if not (d.workspace_id == q.workspace_id) || not (is_active d.status)
    then err inactive_definition
    else ok d

abbrev pub by_id : List AgentDefinition → List (ℕ × AgentDefinition)
by_id ds = dict_of (λ (d : AgentDefinition). d.id) ds

-- The logical agents that stay beside the replaced one.
abbrev pub final_logical_ids : AgentDefinition → List AgentDefinition → List ℕ
final_logical_ids replaced ds =
    logical_ids (filter (λ (x : AgentDefinition). not (x.id == replaced.id)) ds)

abbrev pub check_replaced :
    AgentDefinition
    → List AgentDefinition
    → Option AgentDefinition
    → Result MembershipError (Unit {0})
check_replaced d ds none = err not_effective
check_replaced d ds (some replaced) =
    raise_if (contains d.logical_id (final_logical_ids replaced ds)) several_versions

-- At most one version of a logical agent may be effective afterwards.
unfoldable pub check_change :
    MembershipInterventionKind
    → Option ℕ
    → AgentDefinition
    → List AgentDefinition
    → Result MembershipError (Unit {0})
check_change replace none d ds = err no_replaced
check_change replace (some k) d ds = check_replaced d ds (lookup k (by_id ds))
check_change inject replaced d ds =
    raise_if (contains d.logical_id (logical_ids ds)) several_versions

-- The event of an intervention
abbrev pub intervention_event :
    (MembershipIntervention → AgentDefinition → String)
    → MembershipIntervention
    → SessionLifecycle
    → AgentDefinition
    → LedgerAppend
intervention_event payload q r d = record {
  id = q.event_id;
  workspace_id = q.workspace_id;
  session_id = q.session_id;
  event_type = if is_replace q.kind then "SESSION_AGENT_REPLACED" else "SESSION_AGENT_INJECTED";
  payload_schema_version = 1;
  causation_id = none;
  correlation_id = q.correlation_id;
  actor_class = human;
  actor_id = q.actor_id;
  round = r.round;
  payload = payload q d;
  recorded_at = q.recorded_at;
}

abbrev pub lifecycle_of :
    Result LifecycleError (Option SessionLifecycle)
    → Result MembershipError (Option SessionLifecycle)
lifecycle_of (err x) = err (lifecycle x)
lifecycle_of (ok o) = ok o

-- What the checks have read: the lifecycle, the new definition and the members before.
pub record Approved : Type 0 where
  pub row : SessionLifecycle
  pub definition : AgentDefinition
  pub current : MembershipSnapshot

module _ {H : Type 0} ⦃h : Hashing H⦄
    (view : SessionLifecycle → Result LifecycleError SessionLifecycle) where
  -- All that `apply` checks of a new intervention before it writes.
  unfoldable pub approve : MembershipIntervention → MemberTables H → Result MembershipError Approved
  approve q t = lifecycle_of (get view q.workspace_id q.session_id t.sessions) >>= λ found.
      check_lifecycle q found >>= λ r.
      check_definition q (find_definition q.workspace_id q.agent_definition_id t.definitions)
      >>= λ d. membership q.workspace_id q.session_id q.effective_round t >>= λ current.
          check_change q.kind q.replaced_agent_definition_id d current.definitions
          >> ok (record { row = r; definition = d; current = current })

module _ {H : Type 0} where
  abbrev pub with_tables : Tables H → MemberTables H → MemberTables H
  with_tables tables t = record t { sessions = record t.sessions { tables = tables } }

  abbrev pub after_added :
      MembershipIntervention
      → MemberTables H
      → Result MembershipError (MemberTables H)
      → Result MembershipError MembershipSnapshot × MemberTables H
  after_added q t (err x) = (err x, t)
  after_added q t (ok t') = (membership q.workspace_id q.session_id q.effective_round t', t')

  abbrev pub after_append :
      MembershipIntervention
      → MemberTables H
      → Result LedgerError (LedgerEvent H) × Tables H
      → Result MembershipError MembershipSnapshot × MemberTables H
  after_append q t (err x, tables) = (err (ledger x), with_tables tables t)
  after_append q t (ok e, tables) =
      after_added q (with_tables tables t) (add_intervention q (with_tables tables t))

module _ {H : Type 0} ⦃h : Hashing H⦄
    (view : SessionLifecycle → Result LifecycleError SessionLifecycle)
    (payload : MembershipIntervention → AgentDefinition → String) where
  -- The event is appended, the intervention stored, and the new membership read.
  unfoldable pub write_intervention :
      MembershipIntervention
      → Tables H
      → MemberTables H
      → Result MembershipError Approved
      → Result MembershipError MembershipSnapshot × MemberTables H
  write_intervention q seen t (err x) = (err x, t)
  write_intervention q seen t (ok a) =
      after_append q t
        (append (intervention_event payload q a.row a.definition) seen t.sessions.tables)

  unfoldable pub apply_after :
      MembershipIntervention
      → Tables H
      → MemberTables H
      → Option MembershipIntervention
      → Result MembershipError MembershipSnapshot × MemberTables H
  apply_after q seen t (some prior) =
      if not (same_intervention prior q)
      then (err reused_event, t)
      else (membership q.workspace_id q.session_id q.effective_round t, t)
  apply_after q seen t none = write_intervention q seen t (approve view q t)

  -- `apply`; `seen` is the ledger as the append first sees it.
  unfoldable pub apply :
      MembershipIntervention
      → Tables H
      → MemberTables H
      → Result MembershipError MembershipSnapshot × MemberTables H
  apply q seen t = apply_after q seen t (find_intervention q.event_id t.interventions)
