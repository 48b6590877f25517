-- ===== src/Examples/Pieces.antt =====
-- The gate, the ranking, the order of dominance, the registry and the orchestrator.
use agora_opencode.Consensus.Support.{contributions}
use agora_opencode.Prelude.{
  String, all, is_blank, not, ◌⊎◌, filter, Mem, ◌↔◌, List, ℕ, ◌≡◌, refl, ok, true, false, none, [],
  ◌∷◌, inl, inr,
}
use agora_opencode.Decimal.Fixed.{Fixed, fixed_decimal}
use agora_opencode.Consensus.Types.{sat}
use agora_opencode.Consensus.Gate.{feasibility_gate, FeasibilityGateResult}
use agora_opencode.Consensus.Gate.Laws.{feasibility_gate-rankable, is_blocked}
use agora_opencode.Consensus.Dominance.{undominated, beats}
use agora_opencode.Consensus.Dominance.Order.{undominated_covers}
use agora_opencode.Consensus.Registry.{
  Strategy, Registry, empty_explanation, resolve, lacks_document, make_registry,
}
use agora_opencode.Consensus.Registry.Laws.{make_registry-resolve}
use agora_opencode.Consensus.Orchestrator.{ResultStore}
use agora_opencode.Consensus.Outcome.{Weighed, rank_weighed}
use agora_opencode.Consensus.Ranking.{IsRankingOf, rank_weighed-IsRankingOf}
use agora_opencode.Consensus.Weighted.{evaluate as weighted}
use agora_opencode.Examples.Contexts.{verdicts, alternatives, context, hash_of}

gate : (g : FeasibilityGateResult) × (feasibility_gate alternatives verdicts ≡ ok g)
unfolding feasibility_gate is_blank
gate = (_, refl)

feasibility_gate-rankable_example :
    (gate.0.rankable ≡ filter (λ a. not (is_blocked verdicts a)) alternatives)
    × (gate.0.all_infeasible ≡ all (is_blocked verdicts) alternatives)
feasibility_gate-rankable_example = feasibility_gate-rankable alternatives verdicts gate.0 gate.1

abbrev fixed : ℕ → Fixed
fixed n = record { up = n; down = 0 }

abbrev fine : List (ℕ × Fixed)
fine = (1, fixed 90) ∷ (2, fixed 80) ∷ []

abbrev middle : List (ℕ × Fixed)
middle = (1, fixed 70) ∷ (2, fixed 80) ∷ []

abbrev coarse : List (ℕ × Fixed)
coarse = (1, fixed 50) ∷ (2, fixed 60) ∷ []

abbrev values : List (ℕ × List (ℕ × Fixed))
values = (1, fine) ∷ (2, middle) ∷ (3, coarse) ∷ []

abbrev keys : List ℕ
keys = 1 ∷ 2 ∷ []

undominated_covers_example :
    (b : ℕ) × Mem b (undominated keys values keys (fixed 1))
    × ((b ≡ 2) ⊎ (beats values keys (fixed 1) b 2 ≡ true))
undominated_covers_example = undominated_covers (fixed 1) refl values keys keys 2 (inr (inl refl))

abbrev strategy : Strategy Fixed
strategy = record {
  name = "weighted";
  version = "1.0.0";
  evaluate = weighted 7 hash_of;
  explain = λ r. empty_explanation r "" [];
}

abbrev registry : Registry Fixed
registry = (("weighted", "1.0.0"), strategy) ∷ []

make_registry-resolve_example :
    resolve registry "weighted" "1.0.0" ≡ ok strategy
    ↔ Mem strategy (strategy ∷ [])
      × ◌≡◌ {A = String} "weighted" "weighted"
      × ◌≡◌ {A = String} "1.0.0" "1.0.0"
      × (lacks_document none "weighted" ≡ false)
unfolding make_registry
make_registry-resolve_example =
    make_registry-resolve (strategy ∷ []) none registry refl strategy "weighted" "1.0.0"

-- The tables before the first run, with the session and its alternatives.
abbrev empty_store : ResultStore Fixed
empty_store = record {
  results = [];
  explanations = [];
  sessions = (1, context.session_id) ∷ [];
  alternatives = (1, context.session_id, 1) ∷ (1, context.session_id, 3) ∷ [];
}

abbrev weighed : ℕ → ℕ → Weighed Fixed
weighed a n = record {
  score = record {
    alternative_id = a;
    alternative_name = "";
    rank = 0;
    support = fixed n;
    value_score = none;
    rank_score = none;
    feasibility = sat;
    evidence_strength = none;
  };
  rank_score = fixed n;
  evidence_total = fixed 0;
  contributions = [];
  dissent = [];
  minority = [];
}

abbrev weighings : List (Weighed Fixed)
weighings = weighed 1 40 ∷ weighed 2 90 ∷ weighed 3 40 ∷ []

rank_weighed-IsRankingOf_example : IsRankingOf weighings (rank_weighed weighings)
rank_weighed-IsRankingOf_example = rank_weighed-IsRankingOf weighings
