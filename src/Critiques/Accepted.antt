-- ===== src/Critiques/Accepted.antt =====
-- Which bundles of a critic are accepted.
use agora_opencode.Prelude.{
  >>=-eq-ok, ℕ, ◌≡◌, ◌↔◌, refl, sym, ap, ◌∙◌, Bool, true, ◌&&◌, not, Option, none, some, List, [],
  ◌∷◌, map, Result, ok, arith, Bool-cases, inl, inr, any, all, contains, is_nil, subst,
}
use agora_opencode.Session.States.{is_none}
use agora_opencode.Critiques.Types.{
  ArtifactKind, ArtifactProposal, Content, CritiquePayload, ProposalBundle, critique,
  critique_content, other_content, same_payload, claim, fact, assumption, inference, proposition,
  evidence, uncertainty, risk, impact, objective, constraint, alternative, position,
}
use agora_opencode.Critiques.Bundles.{
  CritiqueAssignment, CritiqueFault, is_open, is_critique, check_payload, check_proposal,
  check_proposals, validate_critic_bundle,
}

-- The plain proposal of a critique
abbrev pub propose : CritiquePayload → ArtifactProposal
propose c = record {
  kind = critique;
  payload = critique_content c;
  evidence_disposition = none;
  confidence = none;
}

-- No payload has the same content as one before it.
abbrev pub are_different : List CritiquePayload → Bool
are_different [] = true
are_different (c ∷ cs) = all (λ x. not (same_payload x c)) cs && are_different cs

-- An open critique of an assigned target
abbrev pub is_assigned : List ℕ → CritiquePayload → Bool
is_assigned assigned c = is_open c.resolution && contains c.target_id assigned

abbrev is_fresh : List CritiquePayload → CritiquePayload → Bool
is_fresh seen c = not (any (same_payload c) seen)

abbrev are_allowed : List ℕ → List CritiquePayload → List CritiquePayload → Bool
are_allowed assigned seen cs =
    all (is_assigned assigned) cs && all (is_fresh seen) cs && are_different cs

fresh-split :
    (seen : List CritiquePayload) (c : CritiquePayload) (cs : List CritiquePayload)
    → all (is_fresh (c ∷ seen)) cs
      ≡ (all (λ x. not (same_payload x c)) cs && all (is_fresh seen) cs)
fresh-split seen c [] = refl
fresh-split seen c (x ∷ xs) = ground (arith, fresh-split seen c xs)

allowed-step :
    (assigned : List ℕ) (seen : List CritiquePayload) (c : CritiquePayload)
    → (cs : List CritiquePayload)
    → are_allowed assigned seen (c ∷ cs)
      ≡ (is_assigned assigned c && is_fresh seen c && are_allowed assigned (c ∷ seen) cs)
allowed-step assigned seen c cs = rw (fresh-split seen c cs) (ground arith)

check-propose :
    (assigned : List ℕ) (seen : List CritiquePayload) (c : CritiquePayload)
    → is_assigned assigned c ≡ true
    → is_fresh seen c ≡ true
    → check_proposal assigned seen (propose c) ≡ ok c
unfolding check_proposal check_payload
check-propose assigned seen c a f = ground (arith, a, f)

-- A proposal that passes is the plain one of a critique that is allowed.
record Passed (assigned : List ℕ) (seen : List CritiquePayload) (p : ArtifactProposal)
    (c : CritiquePayload) : Type 0 where
  plain : p ≡ propose c
  assigned_open : is_assigned assigned c ≡ true
  fresh : is_fresh seen c ≡ true

kind_critique : (k : ArtifactKind) → is_critique k ≡ true → k ≡ critique
kind_critique critique e = refl
kind_critique claim e = cc
kind_critique fact e = cc
kind_critique assumption e = cc
kind_critique inference e = cc
kind_critique proposition e = cc
kind_critique evidence e = cc
kind_critique uncertainty e = cc
kind_critique risk e = cc
kind_critique impact e = cc
kind_critique objective e = cc
kind_critique constraint e = cc
kind_critique alternative e = cc
kind_critique position e = cc

none_only : {A : Type 0} → (o : Option A) → is_none o ≡ true → o ≡ none
none_only none e = refl
none_only (some a) e = cc

content-Passed :
    (assigned : List ℕ) (seen : List CritiquePayload) (x : Content) (c : CritiquePayload)
    → check_payload assigned seen x ≡ ok c
    → (x ≡ critique_content c) × (is_assigned assigned c ≡ true) × (is_fresh seen c ≡ true)
unfolding check_payload
content-Passed assigned seen (other_content s) c e = cc
content-Passed assigned seen (critique_content d) c e =
    elim (Bool-cases (is_assigned assigned d && is_fresh seen d)) [
      | inr bad ↦ absurd (ground (arith, bad, e))
      | inl good ↦
          let same : d ≡ c = ok-same d c (check-content d good ∙ e) in
          (
            ap critique_content same,
            subst (λ y. is_assigned assigned y ≡ true) same (ground (arith, good)),
            subst (λ y. is_fresh seen y ≡ true) same (ground (arith, good)),
          )
    ]
  where
    ok-same :
        (a b : CritiquePayload)
        → ◌≡◌ {A = Result CritiqueFault CritiquePayload} (ok a) (ok b)
        → a ≡ b
    ok-same a b p = cc

    check-content :
        (d : CritiquePayload)
        → (is_assigned assigned d && is_fresh seen d) ≡ true
        → ok d ≡ check_payload assigned seen (critique_content d)
    check-content d good = ground (arith, good)

plain-of :
    (k : ArtifactKind) (x : Content) (c : CritiquePayload) (p : ArtifactProposal)
    → p.kind ≡ critique
    → p.payload ≡ critique_content c
    → p.evidence_disposition ≡ none
    → p.confidence ≡ none
    → p ≡ propose c
plain-of k x c p a b d e = cc

check-Passed :
    (assigned : List ℕ) (seen : List CritiquePayload) (p : ArtifactProposal) (c : CritiquePayload)
    → check_proposal assigned seen p ≡ ok c
    → Passed assigned seen p c
unfolding check_proposal
check-Passed assigned seen p c e =
    elim (Bool-cases
      (is_critique p.kind && is_none p.evidence_disposition && is_none p.confidence)) [
        | inr bad ↦ absurd (ground (arith, bad, e))
        | inl good ↦
            let inside : check_payload assigned seen p.payload ≡ ok c = ground (arith, good, e) in
            let (x, a, f) = content-Passed assigned seen p.payload c inside in
            record {
              plain =
                  plain-of p.kind p.payload c p (kind_critique p.kind (ground (arith, good))) x
                    (none_only p.evidence_disposition (ground (arith, good)))
                    (none_only p.confidence (ground (arith, good)));
              assigned_open = a;
              fresh = f;
            }
      ]

allowed-accepted :
    (assigned : List ℕ) (seen : List CritiquePayload) (cs : List CritiquePayload)
    → are_allowed assigned seen cs ≡ true
    → check_proposals assigned seen (map propose cs) ≡ ok tt
unfolding check_proposals
allowed-accepted assigned seen [] e = refl
allowed-accepted assigned seen (c ∷ cs) e =
    let parts = sym (allowed-step assigned seen c cs) ∙ e in
    rw (check-propose assigned seen c (ground (arith, parts)) (ground (arith, parts)))
      (allowed-accepted assigned (c ∷ seen) cs (ground (arith, parts)))

-- The payloads that the loop has accepted
abbrev Accepted : List ℕ → List CritiquePayload → List ArtifactProposal → Type 0
Accepted assigned seen ps =
    (cs : List CritiquePayload) × (ps ≡ map propose cs) × (are_allowed assigned seen cs ≡ true)

Accepted-step :
    (assigned : List ℕ) (seen : List CritiquePayload) (p : ArtifactProposal)
    → (ps : List ArtifactProposal) (c : CritiquePayload) → Passed assigned seen p c
    → Accepted assigned (c ∷ seen) ps
    → Accepted assigned seen (p ∷ ps)
Accepted-step assigned seen p ps c k (cs, same, good) = (
  c ∷ cs,
  cc (k.plain, same),
  allowed-step assigned seen c cs ∙ ground (arith, k.assigned_open, k.fresh, good),
)

loop-Accepted :
    (assigned : List ℕ) (seen : List CritiquePayload) (ps : List ArtifactProposal)
    → check_proposals assigned seen ps ≡ ok tt
    → Accepted assigned seen ps
unfolding check_proposals
loop-Accepted assigned seen [] e = ([], refl, refl)
loop-Accepted assigned seen (p ∷ ps) e =
    let (c, k, rest) = >>=-eq-ok (check_proposal assigned seen p) _ e in
    Accepted-step assigned seen p ps c (check-Passed assigned seen p c k)
      (loop-Accepted assigned (c ∷ seen) ps rest)

all-fresh : (cs : List CritiquePayload) → all (is_fresh []) cs ≡ true
all-fresh [] = refl
all-fresh (c ∷ cs) = all-fresh cs

-- A bundle is accepted exactly when it is of the turn of the assignment, asks for no evidence
-- and no simulation, and its artifacts are the plain proposals of critiques that are open, have
-- assigned targets and differ from those before them.
pub bundle-accepted :
    (b : ProposalBundle) (a : CritiqueAssignment)
    → (validate_critic_bundle b a ≡ ok tt)
      ↔ (b.turn_id ≡ a.turn_id)
        × (is_nil b.evidence_requests && is_nil b.simulation_request_refs ≡ true)
        × (cs : List CritiquePayload) × (b.artifacts ≡ map propose cs)
        × (all (is_assigned a.target_artifact_ids) cs && are_different cs ≡ true)
unfolding validate_critic_bundle
bundle-accepted b a = (
  λ e.
      let inside : check_proposals a.target_artifact_ids [] b.artifacts ≡ ok tt =
        ground (arith, e) in
      let (cs, same, good) = loop-Accepted a.target_artifact_ids [] b.artifacts inside in
      (ground (arith, e), ground (arith, e), cs, same, ground (arith, good)),
  λ (turn, bare, cs, same, good).
      let inside =
        ap (check_proposals a.target_artifact_ids []) same
        ∙ allowed-accepted a.target_artifact_ids [] cs (ground (arith, good, all-fresh cs)) in
      ground (arith, turn, bare, inside),
)
