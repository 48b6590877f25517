-- ===== src/Members/Types.antt =====
-- The value objects of backend/app/domain/coordinator_policy.py about membership, and what the
-- coordinator reads of an agent definition (backend/app/domain/agent_registry.py).
use agora_opencode.Prelude.{
  are_distinct, ℕ, Bool, true, false, ◌&&◌, not, Option, some, String, List, map, ◌==◌, str_eq, all,
  is_nil, is_blank,
}
use agora_opencode.Ledger.Defs.{LedgerError, same_option}
use agora_opencode.Session.States.{LifecycleError, is_none, same_bool}

pub data AgentStatus : Type 0 where
  draft active deprecated withdrawn : AgentStatus

abbrev pub is_active : AgentStatus → Bool
is_active active = true
is_active _ = false

-- The columns that membership depends on; `referenced_at` is a table of its own (Members/Store).
pub record AgentDefinition : Type 0 where
  pub id : ℕ
  pub workspace_id : ℕ
  pub logical_id : ℕ
  pub version : ℕ
  pub status : AgentStatus

pub data MembershipInterventionKind : Type 0 where
  replace inject : MembershipInterventionKind

abbrev pub is_replace : MembershipInterventionKind → Bool
is_replace replace = true
is_replace inject = false

pub record MembershipIntervention : Type 0 where
  pub event_id : ℕ
  pub workspace_id : ℕ
  pub session_id : ℕ
  pub kind : MembershipInterventionKind
  pub replaced_agent_definition_id : Option ℕ
  pub agent_definition_id : ℕ
  pub effective_round : ℕ
  pub actor_id : ℕ
  pub correlation_id : ℕ
  pub reason : String
  pub recorded_at : ℕ

-- The validators of an intervention.
unfoldable pub intervention_is_valid : MembershipIntervention → Bool
intervention_is_valid i =
    not (i.effective_round == 0)
    && not (is_blank i.reason)
    && same_bool (is_replace i.kind) (not (is_none i.replaced_agent_definition_id))
    && not (same_option i.replaced_agent_definition_id (some i.agent_definition_id))

-- `persisted == expected`
unfoldable pub same_intervention : MembershipIntervention → MembershipIntervention → Bool
same_intervention a b =
    a.event_id == b.event_id
    && a.workspace_id == b.workspace_id
    && a.session_id == b.session_id
    && same_bool (is_replace a.kind) (is_replace b.kind)
    && same_option a.replaced_agent_definition_id b.replaced_agent_definition_id
    && a.agent_definition_id == b.agent_definition_id
    && a.effective_round == b.effective_round
    && a.actor_id == b.actor_id
    && a.correlation_id == b.correlation_id
    && str_eq a.reason b.reason
    && a.recorded_at == b.recorded_at

pub record MembershipSnapshot : Type 0 where
  pub workspace_id : ℕ
  pub session_id : ℕ
  pub round : ℕ
  pub definitions : List AgentDefinition

pub data MembershipError : Type 0 where
  reused_event missing_or_terminal wrong_round replace_after_start : MembershipError
  inject_before_start inactive_definition not_effective several_versions : MembershipError
  broken_history unknown_definition bad_round invalid_snapshot no_replaced : MembershipError
  lifecycle : LifecycleError → MembershipError
  ledger : LedgerError → MembershipError

abbrev pub logical_ids : List AgentDefinition → List ℕ
logical_ids = map (λ (d : AgentDefinition). d.logical_id)

-- `MembershipSnapshot.one_version_per_logical_agent`
unfoldable pub snapshot_is_valid : MembershipSnapshot → Bool
snapshot_is_valid m =
    not (is_nil m.definitions)
    && all (λ (d : AgentDefinition). d.workspace_id == m.workspace_id) m.definitions
    && are_distinct (logical_ids m.definitions)
