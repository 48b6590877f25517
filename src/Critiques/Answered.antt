-- ===== src/Critiques/Answered.antt =====
-- That the result of a response fits its validator and its proposal.
use agora_opencode.Prelude.{
  ℕ, ◌+◌, ◌≡◌, refl, Bool, true, false, ◌&&◌, ◌||◌, not, String, arith, all, ltb, Bool-cases, inl,
  inr, sym,
}
use agora_opencode.Session.States.{is_none}
use agora_opencode.Critiques.Responses.{
  CritiqueResponseDisposition, CritiqueResponseProposal, CritiqueResponseResult, accept,
  partially_accept, reject_with_justification, revise, request_evidence, request_simulation,
  abstain_response, expects, has_required, is_above_one, is_required, is_revise, is_supplied,
  required_field, resolution_by_disposition, response_fields, response_result,
  response_result_shape, response_shape, status_by_disposition,
}

-- A revision is proposed exactly where the disposition asks for it.
revision-fits :
    (p : CritiqueResponseProposal) (d : CritiqueResponseDisposition)
    → (has_required p (required_field d)
        && all (λ f. not (is_supplied p f) || is_required (required_field d) f) response_fields)
      ≡ true
    → is_none p.proposed_revision ≡ not (is_revise d)
revision-fits p accept e = ground (arith, e)
revision-fits p partially_accept e = ground (arith, e)
revision-fits p reject_with_justification e = ground (arith, e)
revision-fits p revise e = ground (arith, e)
revision-fits p request_evidence e = ground (arith, e)
revision-fits p request_simulation e = ground (arith, e)
revision-fits p abstain_response e = ground (arith, e)

tables-agree :
    (d : CritiqueResponseDisposition)
    → expects d (status_by_disposition d) (resolution_by_disposition d) ≡ true
tables-agree accept = refl
tables-agree partially_accept = refl
tables-agree reject_with_justification = refl
tables-agree revise = refl
tables-agree request_evidence = refl
tables-agree request_simulation = refl
tables-agree abstain_response = refl

fields-fit :
    (p : CritiqueResponseProposal)
    → response_shape p ≡ true
    → (has_required p (required_field p.disposition)
        && all
            (λ f. not (is_supplied p f) || is_required (required_field p.disposition) f)
            response_fields)
      ≡ true
unfolding response_shape
fields-fit p e = ground (arith, e)

versions-fit :
    (p : CritiqueResponseProposal)
    → response_shape p ≡ true
    → (ltb 1 (p.critique_version + 1) ≡ true) × (ltb 1 (p.target_artifact_version + 1) ≡ true)
unfolding response_shape
versions-fit p e = (ground (arith, e), ground (arith, e))

shape-of :
    (r : CritiqueResponseResult) (b : Bool)
    → is_revise r.disposition ≡ b
    → ltb 1 r.critique_revision_version ≡ true
    → is_above_one r.target_revision_version ≡ true
    → is_none r.target_revision_id ≡ not b
    → is_none r.target_revision_version ≡ not b
    → expects r.disposition r.status r.resolution ≡ true
    → response_result_shape r ≡ true
unfolding response_result_shape
shape-of r true c v t i n e = ground (arith, c, v, t, i, n, e)
shape-of r false c v t i n e = ground (arith, c, v, t, i, n, e)

-- The result of a response that passed its validator passes its own, and it names a revision of
-- the target exactly where the response proposes one.
pub response-result-fits :
    (commit_id : ℕ → String → ℕ) (committed_at : ℕ) (p : CritiqueResponseProposal)
    → response_shape p ≡ true
    → (response_result_shape (response_result commit_id committed_at p) ≡ true)
      × (is_none (response_result commit_id committed_at p).target_revision_id
          ≡ is_none p.proposed_revision)
unfolding response_result
response-result-fits commit_id committed_at p e =
    let (higher, higher_target) = versions-fit p e in
    let fit = revision-fits p p.disposition (fields-fit p e) in
    elim (Bool-cases (is_revise p.disposition)) [
      | inl r ↦ (
        shape-of (response_result commit_id committed_at p) true r higher (rw r higher_target)
            (rw r refl) (rw r refl) (tables-agree p.disposition),
        rw r (sym (rw r at fit)),
      )
      | inr r ↦ (
        shape-of (response_result commit_id committed_at p) false r higher (rw r refl) (rw r refl)
            (rw r refl) (tables-agree p.disposition),
        rw r (sym (rw r at fit)),
      )
    ]
