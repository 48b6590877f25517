-- ===== src/Critiques/Types.antt =====
-- What a critic proposes: the contents of backend/app/domain/reasoning.py and the bundle of
-- backend/app/domain/agent_activity.py, as far as critiques read them.
use agora_opencode.Prelude.{ℕ, Bool, ◌&&◌, Option, String, List, ◌==◌, str_eq}

pub data Severity : Type 0 where
  low medium high blocking : Severity

pub data Resolution : Type 0 where
  open_resolution resolved unresolved disputed : Resolution

pub data CritiqueType : Type 0 where
  evidence_gap logical_fallacy hallucinated_source measurement_error model_misuse : CritiqueType
  constraint_ignored conflict_of_interest alternative_omitted : CritiqueType
  uncertainty_understated causal_overclaim : CritiqueType

pub record CritiquePayload : Type 0 where
  pub target_id : ℕ
  pub critique_type : CritiqueType
  pub severity : Severity
  pub argument : String
  pub resolution : Resolution

-- The place of a value in its enumeration
abbrev pub severity_index : Severity → ℕ
severity_index low = 0
severity_index medium = 1
severity_index high = 2
severity_index blocking = 3

abbrev pub resolution_index : Resolution → ℕ
resolution_index open_resolution = 0
resolution_index resolved = 1
resolution_index unresolved = 2
resolution_index disputed = 3

abbrev pub critique_type_index : CritiqueType → ℕ
critique_type_index evidence_gap = 0
critique_type_index logical_fallacy = 1
critique_type_index hallucinated_source = 2
critique_type_index measurement_error = 3
critique_type_index model_misuse = 4
critique_type_index constraint_ignored = 5
critique_type_index conflict_of_interest = 6
critique_type_index alternative_omitted = 7
critique_type_index uncertainty_understated = 8
critique_type_index causal_overclaim = 9

-- Equal JSON texts of two payloads
unfoldable pub same_payload : CritiquePayload → CritiquePayload → Bool
same_payload a b =
    a.target_id == b.target_id
    && critique_type_index a.critique_type == critique_type_index b.critique_type
    && severity_index a.severity == severity_index b.severity
    && str_eq a.argument b.argument
    && resolution_index a.resolution == resolution_index b.resolution

pub data ArtifactKind : Type 0 where
  claim fact assumption inference proposition evidence uncertainty : ArtifactKind
  risk impact objective constraint alternative position critique : ArtifactKind

pub data EvidenceDisposition : Type 0 where
  cited no_evidence : EvidenceDisposition

pub record Confidence : Type 0 where
  pub kind : String
  pub value : String
  pub meaning : String
  pub basis_artifact_ids : List ℕ

-- A payload as `validate_artifact_payload` reads it: that of a critique, or the JSON of another kind.
pub data Content : Type 0 where
  critique_content : CritiquePayload → Content
  other_content : String → Content

pub record ArtifactProposal : Type 0 where
  pub kind : ArtifactKind
  pub payload : Content
  pub evidence_disposition : Option EvidenceDisposition
  pub confidence : Option Confidence

pub record ProposalBundle : Type 0 where
  pub turn_id : ℕ
  pub artifacts : List ArtifactProposal
  pub evidence_requests : List String
  pub simulation_request_refs : List String
