-- ===== src/Consensus/Support.antt =====
-- The helpers on positions of backend/app/application/consensus.py: support, dissent, minority,
-- contributions and objective value.
use agora_opencode.Prelude.{
  ℕ, Bool, true, false, ◌&&◌, ◌||◌, not, Option, none, some, String, List, [], ◌∷◌, map, Result, ok,
  err, ◌>>=◌, or_raise, lookup, lookup_text, filter, length, ◌==◌, str_eq, text_in, if◌then◌else◌,
}
use agora_opencode.Decimal.{Decimal, zero_dec, sum_from}
use agora_opencode.Consensus.Types.{
  Uuid, AgentPosition, AgentContribution, AbstainPolicy, exclude, half, CritiqueInput, DissentEntry,
  MinorityEntry, ObjectiveInput, ConsensusFault, bad_objective_value, division_by_zero,
}
use agora_opencode.Consensus.Params.{Weights, position_weights}

-- `c.resolution in ("OPEN", "UNRESOLVED", "DISPUTED")`
abbrev pub is_unresolved : CritiqueInput → Bool
is_unresolved c = text_in c.resolution ("OPEN" ∷ "UNRESOLVED" ∷ "DISPUTED" ∷ [])

unfoldable pub blocking_critiques : List CritiqueInput → List Uuid
blocking_critiques cs =
    map (λ (c : CritiqueInput). c.critique_id)
      (filter (λ (c : CritiqueInput). str_eq c.severity "BLOCKING" && is_unresolved c) cs)

module _ {D : Type 0} where
  -- `p.alternative_id == alt_id`
  abbrev pub is_about : Uuid → AgentPosition D → Bool
  is_about alt p = p.alternative_id == alt

  abbrev pub is_abstention : AgentPosition D → Bool
  is_abstention p = str_eq p.stance "ABSTAIN"

  -- The positions that enter a score, with abstentions dropped where the policy says so.
  unfoldable pub relevant : Uuid → AbstainPolicy → List (AgentPosition D) → List (AgentPosition D)
  relevant alt exclude ps = filter (λ p. not (is_abstention p)) (filter (is_about alt) ps)
  relevant alt half ps = filter (is_about alt) ps

  unfoldable pub build_dissent : Uuid → List (AgentPosition D) → List DissentEntry
  build_dissent alt ps =
      map
        (λ (p : AgentPosition D). record {
          agent_id = p.agent_id;
          stance = p.stance;
          warrant_artifact_ids = p.evidence_ids;
        })
        (filter
          (λ p.
            is_about alt p
            && text_in p.stance ("OPPOSE" ∷ "ABSTAIN" ∷ "INSUFFICIENT_EVIDENCE" ∷ []))
          ps)

  -- The set of unresolved critiques is listed in the order of the critiques.
  unfoldable pub build_minority :
      Uuid → List (AgentPosition D) → List CritiqueInput → List MinorityEntry
  build_minority alt ps cs =
      let unresolved = map (λ (c : CritiqueInput). c.critique_id) (filter is_unresolved cs) in
      map
        (λ (p : AgentPosition D). record {
          agent_id = p.agent_id;
          position = p.stance;
          warrant_artifact_ids = p.evidence_ids;
          unresolved_critiques = unresolved;
        })
        (filter (λ p. is_about alt p && text_in p.stance ("OPPOSE" ∷ "INSUFFICIENT_EVIDENCE" ∷ []))
          ps)

-- `objective_values.get(str(objective_id), {}).get(str(alt_id))`
abbrev pub raw_value : List (Uuid × List (Uuid × String)) → Uuid → Uuid → Option String
raw_value values objective alt = elim (lookup objective values) [
  | none ↦ none
  | some row ↦ lookup alt row
]

module _ {D : Type 0} ⦃d : Decimal D⦄ where
  -- `d == 0`
  abbrev pub is_zero : D → Bool
  is_zero x = not (d.below x zero_dec || d.below zero_dec x)

  -- `a / b`, which raises where `b` is zero
  unfoldable pub divide : D → D → Result ConsensusFault D
  divide a b = if is_zero b then err division_by_zero else ok (d.over a b)

  unfoldable pub position_score : String → D → Bool → Weights D → D
  position_score stance confidence use_confidence weights =
      let w : D = elim (lookup_text stance weights) [ none ↦ d.lit 5 1 | some x ↦ x ] in
      if use_confidence then d.times w confidence else w

  unfoldable pub compute_support :
      Uuid
      → List (AgentPosition D)
      → Bool
      → AbstainPolicy
      → Weights D
      → Result ConsensusFault (D × ℕ)
  unfolding position_score relevant divide
  compute_support alt ps use_confidence policy weights = elim (relevant alt policy ps) [
    | [] ↦ ok (zero_dec, 0)
    | p ∷ rest ↦
        let scores =
          map (λ (q : AgentPosition D). position_score q.stance q.confidence use_confidence weights)
            (p ∷ rest) in
        let n = length (p ∷ rest) in
        divide (sum_from zero_dec scores) (d.lit n 0) >>= λ support. ok (support, n)
  ]

  -- The contributions are scored by the default weights, whatever weights are configured.
  unfoldable pub contributions : List (AgentPosition D) → Bool → List (AgentContribution D)
  unfolding position_score
  contributions ps use_confidence =
      map
        (λ (p : AgentPosition D). record {
          agent_id = p.agent_id;
          alternative_id = p.alternative_id;
          stance = p.stance;
          position_score = position_score p.stance p.confidence use_confidence position_weights;
          confidence = p.confidence;
        })
        ps

  -- The loop of `_weighted_objective_value` over its two variables.
  unfoldable pub add_values :
      Uuid
      → List (Uuid × List (Uuid × String))
      → D
      → Bool
      → List (ObjectiveInput D)
      → Result ConsensusFault (D × Bool)
  add_values alt values total any_value [] = ok (total, any_value)
  add_values alt values total any_value (o ∷ os) = elim (raw_value values o.objective_id alt) [
    | none ↦ add_values alt values total any_value os
    | some raw ↦ or_raise (d.parse raw) bad_objective_value >>= λ v.
        add_values alt values (d.plus total (d.times o.weight v)) true os
  ]

  unfoldable pub weighted_objective_value :
      Uuid
      → List (ObjectiveInput D)
      → List (Uuid × List (Uuid × String))
      → Result ConsensusFault (Option D)
  unfolding add_values
  weighted_objective_value alt os values = do
    (total, any_value) ← add_values alt values zero_dec false os
    ok (if any_value then some total else none)
