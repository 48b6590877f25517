-- ===== src/Critiques/Responses.antt =====
-- The responses to a critique: the validators of backend/app/domain/critique.py, and the result that
-- `_result` of backend/app/application/critique_response.py makes of a response. The identities that are
-- derived from the response by uuid5 are a parameter.
use agora_opencode.Prelude.{
  ℕ, ◌+◌, Bool, true, false, ◌&&◌, ◌||◌, not, Option, none, some, String, List, [], ◌∷◌, ◌==◌, ltb,
  if◌then◌else◌, all, are_distinct, is_blank, is_nil,
}
use agora_opencode.Session.States.{is_none, same_bool}
use agora_opencode.Critiques.Types.{
  ArtifactKind, Confidence, Content, EvidenceDisposition, Resolution, resolved, unresolved,
  disputed,
}

pub data CritiqueResponseDisposition : Type 0 where
  accept partially_accept reject_with_justification revise : CritiqueResponseDisposition
  request_evidence request_simulation abstain_response : CritiqueResponseDisposition

pub data CritiqueResponseResultStatus : Type 0 where
  result_resolved result_unresolved result_disputed result_revised : CritiqueResponseResultStatus
  evidence_requested simulation_deferred abstained : CritiqueResponseResultStatus

pub record ArtifactRevisionProposal : Type 0 where
  pub kind : ArtifactKind
  pub payload : Content
  pub evidence_disposition : Option EvidenceDisposition
  pub confidence : Option Confidence

pub record CritiqueResponseProposal : Type 0 where
  pub response_id : ℕ
  pub workspace_id : ℕ
  pub session_id : ℕ
  pub responding_definition_id : ℕ
  pub responding_definition_version : ℕ
  pub turn_id : ℕ
  pub correlation_id : ℕ
  pub causation_id : ℕ
  pub round : ℕ
  pub critique_id : ℕ
  pub critique_version : ℕ
  pub target_artifact_id : ℕ
  pub target_artifact_version : ℕ
  pub disposition : CritiqueResponseDisposition
  pub rationale : String
  pub remaining_issue : Option String
  pub warrant_artifact_ids : List ℕ
  pub proposed_revision : Option ArtifactRevisionProposal
  pub evidence_query : Option String
  pub simulation_request_ref : Option String

-- The fields that a disposition may ask for.
pub data ResponseField : Type 0 where
  issue_field warrant_field revision_field query_field simulation_field : ResponseField

abbrev pub response_fields : List ResponseField
response_fields = issue_field ∷ warrant_field ∷ revision_field ∷ query_field ∷ simulation_field ∷ []

abbrev pub field_index : ResponseField → ℕ
field_index issue_field = 0
field_index warrant_field = 1
field_index revision_field = 2
field_index query_field = 3
field_index simulation_field = 4

-- `supplied`
abbrev pub is_supplied : CritiqueResponseProposal → ResponseField → Bool
is_supplied p issue_field = not (is_none p.remaining_issue)
is_supplied p warrant_field = not (is_nil p.warrant_artifact_ids)
is_supplied p revision_field = not (is_none p.proposed_revision)
is_supplied p query_field = not (is_none p.evidence_query)
is_supplied p simulation_field = not (is_none p.simulation_request_ref)

-- `required_by_disposition`
abbrev pub required_field : CritiqueResponseDisposition → Option ResponseField
required_field accept = none
required_field partially_accept = some issue_field
required_field reject_with_justification = some warrant_field
required_field revise = some revision_field
required_field request_evidence = some query_field
required_field request_simulation = some simulation_field
required_field abstain_response = none

abbrev pub has_required : CritiqueResponseProposal → Option ResponseField → Bool
has_required p none = true
has_required p (some f) = is_supplied p f

abbrev pub is_required : Option ResponseField → ResponseField → Bool
is_required none f = false
is_required (some g) f = field_index f == field_index g

-- `text_not_blank`
abbrev pub text_not_blank : Option String → Bool
text_not_blank none = true
text_not_blank (some s) = not (is_blank s)

-- The validators of a response, with the bounds of its fields
unfoldable pub response_shape : CritiqueResponseProposal → Bool
response_shape p =
    not (p.responding_definition_version == 0)
    && not (p.round == 0)
    && not (p.critique_version == 0)
    && not (p.target_artifact_version == 0)
    && not (is_blank p.rationale)
    && all text_not_blank (p.remaining_issue ∷ p.evidence_query ∷ p.simulation_request_ref ∷ [])
    && are_distinct p.warrant_artifact_ids
    && has_required p (required_field p.disposition)
    && all (λ f. not (is_supplied p f) || is_required (required_field p.disposition) f)
        response_fields

-- `_RESOLUTION_BY_DISPOSITION`
abbrev pub resolution_by_disposition : CritiqueResponseDisposition → Resolution
resolution_by_disposition accept = resolved
resolution_by_disposition partially_accept = unresolved
resolution_by_disposition reject_with_justification = disputed
resolution_by_disposition revise = resolved
resolution_by_disposition request_evidence = unresolved
resolution_by_disposition request_simulation = unresolved
resolution_by_disposition abstain_response = unresolved

-- `_STATUS_BY_DISPOSITION`
abbrev pub status_by_disposition : CritiqueResponseDisposition → CritiqueResponseResultStatus
status_by_disposition accept = result_resolved
status_by_disposition partially_accept = result_unresolved
status_by_disposition reject_with_justification = result_disputed
status_by_disposition revise = result_revised
status_by_disposition request_evidence = evidence_requested
status_by_disposition request_simulation = simulation_deferred
status_by_disposition abstain_response = abstained

pub record CritiqueResponseResult : Type 0 where
  pub response_id : ℕ
  pub workspace_id : ℕ
  pub session_id : ℕ
  pub status : CritiqueResponseResultStatus
  pub disposition : CritiqueResponseDisposition
  pub resolution : Resolution
  pub critique_revision_id : ℕ
  pub critique_revision_version : ℕ
  pub target_revision_id : Option ℕ
  pub target_revision_version : Option ℕ
  pub response_event_id : ℕ
  pub committed_at : ℕ

abbrev pub is_revise : CritiqueResponseDisposition → Bool
is_revise revise = true
is_revise _ = false

-- The pairs of a status and a resolution that `CritiqueResponseResult.result_shape` expects
abbrev pub expects : CritiqueResponseDisposition → CritiqueResponseResultStatus → Resolution → Bool
expects accept result_resolved resolved = true
expects partially_accept result_unresolved unresolved = true
expects reject_with_justification result_disputed disputed = true
expects revise result_revised resolved = true
expects request_evidence evidence_requested unresolved = true
expects request_simulation simulation_deferred unresolved = true
expects abstain_response abstained unresolved = true
expects _ _ _ = false

abbrev pub is_above_one : Option ℕ → Bool
is_above_one none = true
is_above_one (some n) = ltb 1 n

-- `CritiqueResponseResult.result_shape`, with the bounds of its fields
unfoldable pub response_result_shape : CritiqueResponseResult → Bool
response_result_shape r =
    ltb 1 r.critique_revision_version
    && is_above_one r.target_revision_version
    && same_bool (is_revise r.disposition) (not (is_none r.target_revision_id))
    && same_bool (is_revise r.disposition) (not (is_none r.target_revision_version))
    && expects r.disposition r.status r.resolution

-- `_result`; `commit_id` is `response_commit_id` of the response and a role.
unfoldable pub response_result :
    (ℕ → String → ℕ) → ℕ → CritiqueResponseProposal → CritiqueResponseResult
response_result commit_id committed_at p = record {
  response_id = p.response_id;
  workspace_id = p.workspace_id;
  session_id = p.session_id;
  status = status_by_disposition p.disposition;
  disposition = p.disposition;
  resolution = resolution_by_disposition p.disposition;
  critique_revision_id = commit_id p.response_id "critique-revision";
  critique_revision_version = p.critique_version + 1;
  target_revision_id =
      if is_revise p.disposition then some (commit_id p.response_id "target-revision") else none;
  target_revision_version =
      if is_revise p.disposition then some (p.target_artifact_version + 1) else none;
  response_event_id = commit_id p.response_id "response-event";
  committed_at = committed_at;
}
