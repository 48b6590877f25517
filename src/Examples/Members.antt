-- ===== src/Examples/Members.antt =====
-- A session whose only agent is replaced before it starts.
use agora_opencode.Prelude.{sort_desc, ℕ, ◌<◌, ◌≡◌, refl, some, [], ◌∷◌, ok, String}
use agora_opencode.Ledger.Defs.{Head, find_head, event_by_id}
use agora_opencode.Ledger.Retry.{Sees}
use agora_opencode.Session.States.{projection, is_terminal, in_states, same_state}
use agora_opencode.Session.Store.{find_row, get, new_draft}
use agora_opencode.Members.Types.{
  snapshot_is_valid, AgentDefinition, MembershipIntervention, active, replace,
}
use agora_opencode.Members.Store.{
  initial_members, placed, find_definition, replay_members, snapshot, MemberTables,
  find_intervention, membership,
}
use agora_opencode.Members.Coordinator.{
  check_definition, check_lifecycle, check_change, Approved, apply, approve,
}
use agora_opencode.Members.Apply.{apply-changes, written}
use agora_opencode.Members.Retry.{apply-retry}
use agora_opencode.Members.Valid.{of_members}
use agora_opencode.Examples.Digest.{Digest, digest_hashing, origin}
use agora_opencode.Examples.Ledgers.{opened, opened-IsValid}

abbrev old_agent : AgentDefinition
old_agent = record { id = 7; workspace_id = 1; logical_id = 70; version = 1; status = active }

abbrev new_agent : AgentDefinition
new_agent = record { id = 8; workspace_id = 1; logical_id = 70; version = 2; status = active }

abbrev tables : MemberTables Digest
tables = record {
  sessions = record { rows = new_draft 1 4 10 ∷ []; tables = opened };
  definitions = old_agent ∷ new_agent ∷ [];
  session_agents = record { workspace_id = 1; session_id = 4; agent_def_id = 7; bound_at = 5 } ∷ [];
  interventions = [];
  referenced = [];
}

abbrev swap : MembershipIntervention
swap = record {
  event_id = 90;
  workspace_id = 1;
  session_id = 4;
  kind = replace;
  replaced_agent_definition_id = some 7;
  agent_definition_id = 8;
  effective_round = 1;
  actor_id = 2;
  correlation_id = 9;
  reason = "newer";
  recorded_at = 20;
}

abbrev encode : MembershipIntervention → AgentDefinition → String
encode q d = "{}"

abbrev approval : Approved
approval = record {
  row = new_draft 1 4 10;
  definition = new_agent;
  current = of_members 1 4 1 (old_agent ∷ []);
}

abbrev start : Head Digest
start = record { workspace_id = 1; session_id = 4; next_seq = 1; head_hash = origin }

approve-swap : approve projection swap tables ≡ ok approval
unfolding approve get find_row projection is_terminal in_states same_state check_lifecycle
    check_definition find_definition membership replay_members sort_desc placed snapshot
    snapshot_is_valid initial_members check_change
approve-swap = refl

Sees-opened : Sees 90 opened opened
unfolding Sees
Sees-opened e f = f

apply-changes_example :
    (apply projection encode swap opened tables ≡ (
      ok (of_members 1 4 1 (new_agent ∷ [])),
      written projection encode swap approval start tables,
    ))
    × ((k : ℕ)
        → k < 1
        → membership 1 4 k (written projection encode swap approval start tables)
          ≡ membership 1 4 k tables)
unfolding find_intervention find_head event_by_id
apply-changes_example =
    apply-changes projection encode swap opened tables approval start refl approve-swap refl
      opened-IsValid Sees-opened refl

applied :
    apply projection encode swap opened tables
    ≡ (ok (of_members 1 4 1 (new_agent ∷ [])), written projection encode swap approval start tables)
unfolding find_intervention find_head event_by_id
applied =
    (apply-changes projection encode swap opened tables approval start refl approve-swap refl
      opened-IsValid Sees-opened refl).0

apply-retry_example :
    apply projection encode swap opened (written projection encode swap approval start tables)
    ≡ (ok (of_members 1 4 1 (new_agent ∷ [])), written projection encode swap approval start tables)
apply-retry_example =
    apply-retry projection encode swap opened opened tables
      (written projection encode swap approval start tables) (of_members 1 4 1 (new_agent ∷ []))
      applied
