-- ===== src/Consensus/Evidence.antt =====
-- The evidence helpers of backend/app/application/consensus.py.
pub mod Cap
use agora_opencode.Prelude.{
  ℕ, ◌+◌, Bool, not, none, some, String, List, [], ◌∷◌, lookup, lookup_text, dict_of, leb, str_eq,
  if◌then◌else◌,
}
use agora_opencode.Decimal.{Decimal, zero_dec, max, min}
use agora_opencode.Consensus.Types.{Uuid, AgentPosition, EvidenceCitationInput}
use agora_opencode.Consensus.Params.{Weights}

-- `tuple(lookup[eid] for eid in ids if eid in lookup)`
abbrev pub pick : {A : Type 0} → List (Uuid × A) → List Uuid → List A
pick table [] = []
pick table (k ∷ ks) = elim (lookup k table) [ none ↦ pick table ks | some e ↦ e ∷ pick table ks ]

unfoldable pub evidence_for_position :
    {D : Type 0} → AgentPosition D → List EvidenceCitationInput → List EvidenceCitationInput
evidence_for_position p evidence =
    pick (dict_of (λ (e : EvidenceCitationInput). e.evidence_id) evidence) p.evidence_ids

-- `counts.get(key, 0)`
abbrev pub count_of : String → List (String × ℕ) → ℕ
count_of k counts = elim (lookup_text k counts) [ none ↦ 0 | some n ↦ n ]

-- The loop of `_capped_by_publisher`, with the counts so far; a count is updated in front.
unfoldable pub cap_from :
    ℕ → List (String × ℕ) → List EvidenceCitationInput → List EvidenceCitationInput
cap_from cap counts [] = []
cap_from cap counts (c ∷ cs) =
    let n = count_of c.publisher counts + 1 in
    let rest = cap_from cap ((c.publisher, n) ∷ counts) cs in if leb n cap then c ∷ rest else rest

unfoldable pub capped_by_publisher : List EvidenceCitationInput → ℕ → List EvidenceCitationInput
unfolding cap_from
capped_by_publisher citations cap = cap_from cap [] citations

-- `c.verification != "REJECTED"`
abbrev pub not_rejected : EvidenceCitationInput → Bool
not_rejected c = not (str_eq c.verification "REJECTED")

module _ {D : Type 0} ⦃d : Decimal D⦄ where
  abbrev pub weight_of : Weights D → String → D
  weight_of ws k = elim (lookup_text k ws) [ none ↦ zero_dec | some w ↦ w ]

  unfoldable pub citation_weight : EvidenceCitationInput → Weights D → Weights D → D
  citation_weight c verification trust =
      d.times (weight_of verification c.verification) (weight_of trust c.trust_level)

  unfoldable pub clamp : D → D → D → D
  clamp value low high = max low (min high value)

  -- The loop of `_evidence_strength` over the two totals.
  unfoldable pub add_citations : Weights D → Weights D → D → D → List EvidenceCitationInput → D × D
  unfolding citation_weight
  add_citations verification trust e_total d_total [] = (e_total, d_total)
  add_citations verification trust e_total d_total (c ∷ cs) =
      let counts = not_rejected c in
      let w = citation_weight c verification trust in
      let e' =
        if counts
        then (if str_eq c.polarity "SUPPORT" then d.plus e_total w else e_total)
        else e_total in
      let d' =
        if counts
        then (if str_eq c.polarity "SUPPORT"
            then d_total
            else (if str_eq c.polarity "OPPOSE" then d.plus d_total w else d_total))
        else d_total in
      add_citations verification trust e' d' cs

  unfoldable pub evidence_strength :
      AgentPosition D → List EvidenceCitationInput → Weights D → Weights D → ℕ → D × D
  unfolding add_citations capped_by_publisher evidence_for_position
  evidence_strength p evidence verification trust cap =
      add_citations verification trust zero_dec zero_dec
        (capped_by_publisher (evidence_for_position p evidence) cap)
