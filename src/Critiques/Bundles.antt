-- ===== src/Critiques/Bundles.antt =====
-- `validate_critic_bundle` of backend/app/domain/critique.py and `CritiqueProposalCommitter.commit` of
-- backend/app/application/critique_commit.py. The committer of proposals is given.
use agora_opencode.Prelude.{
  ℕ, Bool, true, false, ◌&&◌, ◌||◌, not, String, List, [], ◌∷◌, Result, ok, err, ◌>>=◌, ◌>>◌, ◌==◌,
  str_eq, any, contains, are_distinct, is_nil, if◌then◌else◌,
}
use agora_opencode.Session.States.{is_none}
use agora_opencode.Critiques.Types.{
  ArtifactKind, ArtifactProposal, Content, CritiquePayload, ProposalBundle, Resolution, critique,
  critique_content, other_content, open_resolution, same_payload,
}

pub record CritiqueAssignment : Type 0 where
  pub workspace_id : ℕ
  pub session_id : ℕ
  pub critic_definition_id : ℕ
  pub critic_definition_version : ℕ
  pub turn_id : ℕ
  pub correlation_id : ℕ
  pub causation_id : ℕ
  pub round : ℕ
  pub target_artifact_ids : List ℕ

-- `CritiqueAssignment.assignment_shape`, with the bounds of its fields
unfoldable pub assignment_shape : CritiqueAssignment → Bool
assignment_shape a =
    not (a.critic_definition_version == 0)
    && not (a.round == 0)
    && not (is_nil a.target_artifact_ids)
    && are_distinct a.target_artifact_ids

-- The reasons of a refusal, in the order of the checks.
pub data CritiqueFault : Type 0 where
  wrong_phase wrong_role sealed_context wrong_assignment : CritiqueFault
  wrong_turn carries_requests not_a_critique has_position_fields bad_payload : CritiqueFault
  not_open not_assigned duplicate_attack : CritiqueFault

abbrev pub is_critique : ArtifactKind → Bool
is_critique critique = true
is_critique _ = false

abbrev pub is_open : Resolution → Bool
is_open open_resolution = true
is_open _ = false

-- The checks of a payload against the assignment and the payloads seen before.
unfoldable pub check_payload :
    List ℕ → List CritiquePayload → Content → Result CritiqueFault CritiquePayload
check_payload assigned seen (other_content text) = err bad_payload
check_payload assigned seen (critique_content c) =
    if not (is_open c.resolution)
    then err not_open
    else (if not (contains c.target_id assigned)
        then err not_assigned
        else (if any (same_payload c) seen then err duplicate_attack else ok c))

unfoldable pub check_proposal :
    List ℕ → List CritiquePayload → ArtifactProposal → Result CritiqueFault CritiquePayload
unfolding check_payload
check_proposal assigned seen p =
    if not (is_critique p.kind)
    then err not_a_critique
    else (if not (is_none p.evidence_disposition) || not (is_none p.confidence)
        then err has_position_fields
        else check_payload assigned seen p.payload)

-- The loop over the proposals; `seen` holds the payloads before, the last in front.
unfoldable pub check_proposals :
    List ℕ → List CritiquePayload → List ArtifactProposal → Result CritiqueFault (Unit {0})
unfolding check_proposal
check_proposals assigned seen [] = ok tt
check_proposals assigned seen (p ∷ ps) =
    check_proposal assigned seen p >>= λ c. check_proposals assigned (c ∷ seen) ps

unfoldable pub validate_critic_bundle :
    ProposalBundle → CritiqueAssignment → Result CritiqueFault (Unit {0})
unfolding check_proposals
validate_critic_bundle b a =
    if not (b.turn_id == a.turn_id)
    then err wrong_turn
    else (if not (is_nil b.evidence_requests) || not (is_nil b.simulation_request_refs)
        then err carries_requests
        else check_proposals a.target_artifact_ids [] b.artifacts)

-- What the committer reads of the `ReasoningContext` of a turn.
pub record CriticContext : Type 0 where
  pub is_critique_phase : Bool
  pub role_kind : String
  pub is_sealed : Bool
  pub workspace_id : ℕ
  pub session_id : ℕ
  pub agent_definition_id : ℕ
  pub agent_definition_version : ℕ
  pub turn_id : ℕ
  pub correlation_id : ℕ
  pub causation_id : ℕ
  pub round : ℕ
  pub visible_artifact_ids : List ℕ

-- Equality of two tuples of ids
unfoldable pub same_ids : List ℕ → List ℕ → Bool
same_ids [] [] = true
same_ids (a ∷ as') (b ∷ bs) = a == b && same_ids as' bs
same_ids _ _ = false

-- `pins == expected`
unfoldable pub pins_match : CriticContext → CritiqueAssignment → Bool
unfolding same_ids
pins_match x a =
    x.workspace_id == a.workspace_id
    && x.session_id == a.session_id
    && x.agent_definition_id == a.critic_definition_id
    && x.agent_definition_version == a.critic_definition_version
    && x.turn_id == a.turn_id
    && x.correlation_id == a.correlation_id
    && x.causation_id == a.causation_id
    && x.round == a.round
    && same_ids x.visible_artifact_ids a.target_artifact_ids

-- The checks of `commit` before the bundle's
unfoldable pub authorize_critic :
    CriticContext → CritiqueAssignment → Result CritiqueFault (Unit {0})
unfolding pins_match
authorize_critic x a =
    if not x.is_critique_phase
    then err wrong_phase
    else (if not (str_eq x.role_kind "critic" || str_eq x.role_kind "domain_expert")
        then err wrong_role
        else (if x.is_sealed
            then err sealed_context
            else (if not (pins_match x a) then err wrong_assignment else ok tt)))

-- `commit`; `proposals` is the committer that it hands the bundle to.
unfoldable pub commit_critique :
    {R : Type 0}
    → (CriticContext → ProposalBundle → CritiqueAssignment → R)
    → CriticContext
    → ProposalBundle
    → CritiqueAssignment
    → Result CritiqueFault R
unfolding authorize_critic validate_critic_bundle
commit_critique proposals x b a =
    authorize_critic x a >> (validate_critic_bundle b a >> ok (proposals x b a))
