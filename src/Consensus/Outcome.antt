-- ===== src/Consensus/Outcome.antt =====
-- What the strategies of backend/app/application/consensus.py share: the scores of the ranking, the
-- classification of the leader and the result's common fields.
use agora_opencode.Prelude.{
  ℕ, ◌+◌, Bool, ◌&&◌, ◌||◌, not, Option, none, some, String, List, [], ◌∷◌, ◌++◌, map, all, any,
  filter, length, leb, get_or, flat_map, contains, str_eq, text_in, ◌==◌, is_nil, if◌then◌else◌,
  sort_desc, Result, ok, ◌>>=◌,
}
use agora_opencode.Decimal.{Decimal, zero_dec, one_dec, max, min}
use agora_opencode.Consensus.Types.{
  Uuid, ConsensusOutcome, full_consensus, partial_consensus, conditional_consensus, no_consensus,
  FeasibilityStatus, sat, unknown, FeasibilityVerdict, AgentPosition, AlternativeScore,
  AgentContribution, DissentEntry, MinorityEntry, DerivationStep, ConsensusContext, ConsensusResult,
  is_selectable, ConsensusFault,
}
use agora_opencode.Consensus.Support.{is_about, divide}
use agora_opencode.Consensus.Params.{Settings}

abbrev pub distinct : List Uuid → List Uuid
distinct [] = []
distinct (x ∷ xs) = if contains x xs then distinct xs else x ∷ distinct xs

unfoldable pub degenerate : {D : Type 0} → ConsensusContext D → Bool
degenerate {D} c =
    leb (length c.alternatives) 1
    || leb (length (distinct (map (λ (p : AgentPosition D). p.agent_id) c.agent_positions))) 1

-- `_blocking_gate_outcome`
unfoldable pub blocking_gate_outcome : List Uuid → ConsensusOutcome → ConsensusOutcome
blocking_gate_outcome [] candidate = candidate
blocking_gate_outcome (c ∷ cs) full_consensus = partial_consensus
blocking_gate_outcome (c ∷ cs) candidate = candidate

-- `any(v.alternative_id == a for v in gate.unknown)`
abbrev pub is_unknown : List FeasibilityVerdict → Uuid → Bool
is_unknown vs a = any (λ (v : FeasibilityVerdict). v.alternative_id == a) vs

abbrev pub status_of : List FeasibilityVerdict → Uuid → FeasibilityStatus
status_of vs a = if is_unknown vs a then unknown else sat

-- The core's texts of the infeasible alternatives.
abbrev pub all_cores : List FeasibilityVerdict → List String
all_cores = flat_map (λ (v : FeasibilityVerdict). v.unsat_core)

abbrev pub step : ℕ → String → DerivationStep
step n s = record { step = n; stage = s }

-- `leader.alternative_id if outcome in (…) else None`
abbrev pub selection : ConsensusOutcome → Uuid → Option Uuid
selection o a = if is_selectable o then some a else none

-- What one round of a ranking loop computes for an alternative. `evidence_total` is read by the
-- evidence-weighted strategy only.
pub record Weighed (D : Type 0) : Type 0 where
  pub score : AlternativeScore D
  pub rank_score : D
  pub evidence_total : D
  pub contributions : List (AgentContribution D)
  pub dissent : List DissentEntry
  pub minority : List MinorityEntry

module _ {D : Type 0} where
  -- The dict from an alternative to what the loop keeps for it, the latest entry first.
  abbrev pub table_of : (Weighed D → D) → List (Weighed D) → List (Uuid × D)
  table_of f [] = []
  table_of f (w ∷ ws) = table_of f ws ++ ((w.score.alternative_id, f w) ∷ [])

  -- `[s.model_copy(update={"rank": i + 1}) for i, s in enumerate(ranked)]`
  unfoldable pub number_from : ℕ → List (AlternativeScore D) → List (AlternativeScore D)
  number_from i [] = []
  number_from i (s ∷ ss) = record s { rank = i } ∷ number_from (i + 1) ss

  -- The fields that every return of an evaluation fills.
  abbrev pub bare_result :
      Uuid → String → String → String → ConsensusContext D → ConsensusOutcome → ConsensusResult D
  bare_result id hash name version c o = record {
    result_id = id;
    session_id = c.session_id;
    round = c.round;
    strategy = name;
    strategy_version = version;
    outcome = o;
    scores = [];
    selected_alternative_id = none;
    pareto_set = [];
    support = none;
    dissent_ratio = none;
    abstention_ratio = none;
    blocking_constraints = [];
    blocking_critiques = [];
    conditions = [];
    degenerate_input = degenerate c;
    input_hash = hash;
    contributions = [];
    dissent = [];
    minority_report = [];
    derivation = [];
  }

module _ {D : Type 0} ⦃d : Decimal D⦄ where
  -- `max(Decimal("0"), min(Decimal("1"), support))`
  abbrev pub unit_clamp : D → D
  unit_clamp x = max zero_dec (min one_dec x)

  abbrev pub rank_key : List (Uuid × D) → AlternativeScore D → D
  rank_key table s = get_or zero_dec s.alternative_id table

  -- The scores by descending rank score, numbered from 1.
  unfoldable pub rank_weighed : List (Weighed D) → List (AlternativeScore D)
  unfolding number_from
  rank_weighed ws =
      number_from 1
        (sort_desc d.below (rank_key (table_of (λ w. w.rank_score) ws)) (map (λ w. w.score) ws))

  -- `a >= b`
  abbrev pub at_least : D → D → Bool
  at_least a b = not (d.below a b)

  -- The thresholds, before the caps.
  abbrev pub by_threshold : Settings D → D → Bool → ConsensusOutcome
  by_threshold s support supportive =
      if at_least support s.agreement_threshold && supportive
      then full_consensus
      else (if at_least support s.partial_threshold then partial_consensus else no_consensus)

  -- `all(p.stance in ("SUPPORT", "ABSTAIN") for p in positions if p.alternative_id == leader)`
  abbrev pub all_supportive : Uuid → List (AgentPosition D) → Bool
  all_supportive leader ps =
      all (λ (p : AgentPosition D). text_in p.stance ("SUPPORT" ∷ "ABSTAIN" ∷ []))
        (filter (is_about leader) ps)

  -- The outcome of a leader with this support.
  unfoldable pub classify :
      Settings D
      → ConsensusContext D
      → List FeasibilityVerdict
      → List Uuid
      → Uuid
      → D
      → ConsensusOutcome
  unfolding blocking_gate_outcome
  classify s c unknowns blocking leader support =
      let supportive = all_supportive leader c.agent_positions in
      blocking_gate_outcome blocking (
        if is_unknown unknowns leader
        then conditional_consensus
        else by_threshold s support supportive)

  -- The share of the positions with a stance, `Decimal(count) / Decimal(len(positions) or 1)`.
  unfoldable pub stance_ratio : String → List (AgentPosition D) → Result ConsensusFault D
  unfolding divide
  stance_ratio stance ps =
      let total = if is_nil ps then 1 else length ps in
      divide (d.lit (length (filter (λ (p : AgentPosition D). str_eq p.stance stance) ps)) 0)
        (d.lit total 0)

  -- The fields of the last return of an evaluation, for a leader among the scores.
  abbrev pub concluded :
      ConsensusResult D
      → List (AlternativeScore D)
      → AlternativeScore D
      → List Uuid
      → D
      → D
      → ConsensusResult D
  concluded r scores leader blocking dissent abstention = record r {
    scores = scores;
    selected_alternative_id = selection r.outcome leader.alternative_id;
    support = some leader.support;
    dissent_ratio = some dissent;
    abstention_ratio = some abstention;
    blocking_critiques = blocking;
  }

  abbrev pub conclude :
      ConsensusResult D
      → ConsensusContext D
      → List (AlternativeScore D)
      → AlternativeScore D
      → List Uuid
      → Result ConsensusFault (ConsensusResult D)
  conclude r c scores leader blocking = do
    dissent ← stance_ratio "OPPOSE" c.agent_positions
    abstention ← stance_ratio "ABSTAIN" c.agent_positions
    ok (concluded r scores leader blocking dissent abstention)
