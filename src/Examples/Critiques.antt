-- ===== src/Examples/Critiques.antt =====
-- A bundle of two critiques, and a response that revises its target.
use agora_opencode.Prelude.{
  ◌+◌, ◌≡◌, ◌↔◌, refl, true, ◌&&◌, none, some, [], ◌∷◌, map, ok, all, is_nil, List, is_blank,
}
use agora_opencode.Session.States.{is_none}
use agora_opencode.Critiques.Types.{
  CritiquePayload, ProposalBundle, evidence_gap, causal_overclaim, high, low, open_resolution,
  claim, other_content,
}
use agora_opencode.Critiques.Bundles.{CritiqueAssignment, validate_critic_bundle}
use agora_opencode.Critiques.Responses.{
  CritiqueResponseProposal, response_result, response_result_shape, response_shape, revise,
}
use agora_opencode.Critiques.Accepted.{are_different, bundle-accepted, is_assigned, propose}
use agora_opencode.Critiques.Answered.{response-result-fits}

abbrev critiques : List CritiquePayload
critiques =
    record {
      target_id = 20;
      critique_type = evidence_gap;
      severity = high;
      argument = "no source";
      resolution = open_resolution;
    }
    ∷ record {
      target_id = 21;
      critique_type = causal_overclaim;
      severity = low;
      argument = "correlated";
      resolution = open_resolution;
    }
    ∷ []

abbrev assignment : CritiqueAssignment
assignment = record {
  workspace_id = 1;
  session_id = 4;
  critic_definition_id = 3;
  critic_definition_version = 1;
  turn_id = 8;
  correlation_id = 9;
  causation_id = 10;
  round = 1;
  target_artifact_ids = 20 ∷ 21 ∷ [];
}

abbrev bundle : ProposalBundle
bundle = record {
  turn_id = 8;
  artifacts = map propose critiques;
  evidence_requests = [];
  simulation_request_refs = [];
}

bundle-accepted_example :
    (validate_critic_bundle bundle assignment ≡ ok tt)
    ↔ (bundle.turn_id ≡ assignment.turn_id)
      × (is_nil bundle.evidence_requests && is_nil bundle.simulation_request_refs ≡ true)
      × (cs : List CritiquePayload) × (map propose critiques ≡ map propose cs)
      × (all (is_assigned (20 ∷ 21 ∷ [])) cs && are_different cs ≡ true)
bundle-accepted_example = bundle-accepted bundle assignment

abbrev response : CritiqueResponseProposal
response = record {
  response_id = 60;
  workspace_id = 1;
  session_id = 4;
  responding_definition_id = 3;
  responding_definition_version = 1;
  turn_id = 8;
  correlation_id = 9;
  causation_id = 10;
  round = 2;
  critique_id = 30;
  critique_version = 1;
  target_artifact_id = 20;
  target_artifact_version = 2;
  disposition = revise;
  rationale = "a source is added";
  remaining_issue = none;
  warrant_artifact_ids = [];
  proposed_revision = some (record {
    kind = claim;
    payload = other_content "{}";
    evidence_disposition = none;
    confidence = none;
  });
  evidence_query = none;
  simulation_request_ref = none;
}

response-result-fits_example :
    (response_result_shape (response_result (λ k role. k + 100) 90 response) ≡ true)
    × (is_none (response_result (λ k role. k + 100) 90 response).target_revision_id
        ≡ is_none response.proposed_revision)
unfolding response_shape is_blank
response-result-fits_example = response-result-fits (λ k role. k + 100) 90 response refl
