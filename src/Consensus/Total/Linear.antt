-- ===== src/Consensus/Total/Linear.antt =====
-- When `WeightedStrategy.evaluate` raises nothing.
use agora_opencode.Prelude.{
  ◌>>=◌, ◌&&◌, ◌≡◌, refl, [], ◌∷◌, List, String, true, false, ok, inl, inr, Bool-cases, arith, Bool,
  not, all, map, ◌++◌, ◌+◌, flat_map, filter, Mem, ℕ, str_eq, ◌==◌, all-mem, mem-filter,
  mem-traverse, mem-sort_desc, traverse_total, subst, sort_desc, traverse,
}
use agora_opencode.Decimal.{Decimal}
use agora_opencode.Consensus.Types.{
  ConsensusOutcome, Uuid, AlternativeInput, AlternativeScore, ConsensusContext, ConsensusResult,
  DissentEntry, MinorityEntry, evidence_matches_status, result_invariants, infeasible,
}
use agora_opencode.Consensus.Params.{Settings, read_settings, read_alpha}
use agora_opencode.Consensus.Gate.{FeasibilityGateResult, feasibility_gate}
use agora_opencode.Consensus.Gate.Laws.{
  feasibility_gate_total, feasibility_gate-rankable, is_blocked,
}
use agora_opencode.Consensus.Checks.{
  in_unit, fields_are_valid, contribution_is_valid, score_is_valid, result_is_valid, checked_result,
}
use agora_opencode.Consensus.Support.{blocking_critiques}
use agora_opencode.Consensus.Outcome.{
  conclude, Weighed, table_of, rank_key, number_from, rank_weighed, bare_result, concluded,
  all_cores, step,
}
use agora_opencode.Consensus.Ranking.{mem-map}
use agora_opencode.Consensus.Sound.Weighted.{computed-IsSound}
use agora_opencode.Consensus.Weighted.{weigh, finish, reported, computed, evaluate}
use agora_opencode.Consensus.Total.Values.{IsReadable, stance_ratio-in_unit}
use agora_opencode.Consensus.Total.Rounds.{IsValidRound, weigh-IsValidRound, weigh_total}

all-append {ℓ} :
    {A : Type ℓ} (p : A → Bool) (xs ys : List A)
    → all p xs ≡ true
    → all p ys ≡ true
    → all p (xs ++ ys) ≡ true
all-append p [] ys h k = k
all-append p (x ∷ xs) ys h k = ground (arith, all-append p xs ys)

all-flat_map {ℓ κ} :
    {A : Type ℓ} {B : Type κ} (p : B → Bool) (f : A → List B) (xs : List A)
    → ((x : A) → Mem x xs → all p (f x) ≡ true)
    → all p (flat_map f xs) ≡ true
all-flat_map p f [] h = refl
all-flat_map p f (x ∷ xs) h =
    all-append p (f x) (flat_map f xs) (h x (inl refl)) (all-flat_map p f xs (λ y m. h y (inr m)))

module _ {D : Type 0} ⦃d : Decimal D⦄ where
  abbrev pub AllRounds : List (Weighed D) → Type 0
  AllRounds ws = (w : Weighed D) → Mem w ws → IsValidRound w

  numbered_valid :
      (i : ℕ) (ss : List (AlternativeScore D))
      → (i == 0) ≡ false
      → ((s : AlternativeScore D)
          → Mem s ss
          → (not (str_eq s.alternative_name "") ≡ true) × (in_unit s.support ≡ true))
      → all score_is_valid (number_from i ss) ≡ true
  unfolding number_from score_is_valid
  numbered_valid i [] positive h = refl
  numbered_valid i (s ∷ ss) positive h =
      ground (arith, h s (inl refl), numbered_valid (i + 1) ss (ground arith) (λ t m. h t (inr m)))

  pub ranking_valid :
      (ws : List (Weighed D)) → AllRounds ws → all score_is_valid (rank_weighed ws) ≡ true
  unfolding rank_weighed
  ranking_valid ws rounds =
      let key = rank_key (table_of (λ (w : Weighed D). w.rank_score) ws) in
      let scores = map (λ (w : Weighed D). w.score) ws in
      numbered_valid 1 (sort_desc d.below key scores) refl (λ s m.
        let (w, mw, same) =
          mem-map (λ (w : Weighed D). w.score) s ws (mem-sort_desc d.below key s scores m) in
        subst
          (λ (t : AlternativeScore D).
            (not (str_eq t.alternative_name "") ≡ true) × (in_unit t.support ≡ true))
          same ((rounds w mw).has_name, (rounds w mw).bounded))

  pub reports_valid :
      (ws : List (Weighed D))
      → AllRounds ws
      → (all contribution_is_valid (flat_map (λ (w : Weighed D). w.contributions) ws) ≡ true)
        × (all
              (λ (e : DissentEntry). not (str_eq e.stance ""))
              (flat_map (λ (w : Weighed D). w.dissent) ws)
            ≡ true)
        × (all
              (λ (e : MinorityEntry). not (str_eq e.position ""))
              (flat_map (λ (w : Weighed D). w.minority) ws)
            ≡ true)
  reports_valid ws rounds = (
    all-flat_map contribution_is_valid (λ (w : Weighed D). w.contributions) ws
        (λ w m. (rounds w m).contributed),
    all-flat_map (λ (e : DissentEntry). not (str_eq e.stance "")) (λ (w : Weighed D). w.dissent) ws
        (λ w m. (rounds w m).dissenting),
    all-flat_map (λ (e : MinorityEntry). not (str_eq e.position "")) (λ (w : Weighed D). w.minority)
        ws (λ w m. (rounds w m).outvoted),
  )

  -- The last return of a strategy makes a result, which passes its validators if it has its
  -- invariants.
  pub last_valid :
      (id : Uuid) (hash name version : String) (c : ConsensusContext D) (o : ConsensusOutcome)
      (ws : List (Weighed D)) (leader : AlternativeScore D) (rest : List (AlternativeScore D))
      → fields_are_valid c ≡ true
      → (not (str_eq name "") && not (str_eq version "")) ≡ true
      → AllRounds ws
      → all score_is_valid (leader ∷ rest) ≡ true
      → (r : ConsensusResult D) × ((conclude
              (bare_result id hash name version c o)
              c
              (leader ∷ rest)
              leader
              (blocking_critiques c.critiques)
            >>= λ x. ok (reported ws x))
          ≡ ok r)
        × (result_invariants r ≡ true → result_is_valid r ≡ true)
  unfolding result_is_valid fields_are_valid
  last_valid id hash name version c o ws leader rest v named rounds h =
      let (x, ex, ux) = stance_ratio-in_unit "OPPOSE" c.agent_positions in
      let (y, ey, uy) = stance_ratio-in_unit "ABSTAIN" c.agent_positions in
      let base = bare_result id hash name version c o in
      let (contributed, dissenting, outvoted) = reports_valid ws rounds in
      (
        reported ws (concluded base (leader ∷ rest) leader (blocking_critiques c.critiques) x y),
        rw (ex, ey) refl,
        λ k. ground (arith, v, named, h, k, ux, uy, contributed, dissenting, outvoted),
      )

  finish_valid :
      (id : Uuid) (hash : String) (s : Settings D) (c : ConsensusContext D)
      (g : FeasibilityGateResult) (ws : List (Weighed D)) (scores : List (AlternativeScore D))
      → fields_are_valid c ≡ true
      → AllRounds ws
      → all score_is_valid scores ≡ true
      → (r : ConsensusResult D) × (finish id hash s c g ws scores ≡ ok r)
        × (result_invariants r ≡ true → result_is_valid r ≡ true)
  unfolding finish result_is_valid fields_are_valid
  finish_valid id hash s c g ws [] v rounds h = (_, refl, λ k. ground (arith, v, k))
  finish_valid id hash s c g ws (leader ∷ rest) v rounds h =
      last_valid id hash "weighted" "1.0.0" c _ ws leader rest v refl rounds h

  rounds_valid :
      (s : Settings D) (alpha : D) (c : ConsensusContext D) (g : FeasibilityGateResult)
      (ws : List (Weighed D))
      → fields_are_valid c ≡ true
      → feasibility_gate c.alternatives c.feasibility ≡ ok g
      → traverse (weigh s alpha c g.unknown) g.rankable ≡ ok ws
      → AllRounds ws
  unfolding fields_are_valid
  rounds_valid s alpha c g ws v eg ew w m =
      let (x, mx, ex) = mem-traverse (weigh s alpha c g.unknown) g.rankable ws ew w m in
      let kept = λ (a : AlternativeInput). not (is_blocked c.feasibility a) in
      let listed : Mem x (filter kept c.alternatives) =
        subst (Mem x) (feasibility_gate-rankable c.alternatives c.feasibility g eg).0 mx in
      let names = λ (a : AlternativeInput). not (str_eq a.name "") in
      let named : all names c.alternatives ≡ true = ground (arith, v) in
      weigh-IsValidRound s alpha c g.unknown x w (ground (arith, v))
        (all-mem names x c.alternatives named (mem-filter kept x c.alternatives listed).0) ex

  computed-eq :
      (id : Uuid) (input_hash : ConsensusContext D → String) (c : ConsensusContext D)
      (s : Settings D) (alpha : D) (g : FeasibilityGateResult) (ws : List (Weighed D))
      (r : ConsensusResult D)
      → read_settings c.strategy_config.parameters ≡ ok s
      → read_alpha c.strategy_config.parameters ≡ ok alpha
      → feasibility_gate c.alternatives c.feasibility ≡ ok g
      → g.all_infeasible ≡ false
      → traverse (weigh s alpha c g.unknown) g.rankable ≡ ok ws
      → finish id (input_hash c) s c g ws (rank_weighed ws) ≡ ok r
      → computed id input_hash c ≡ ok r
  unfolding computed
  computed-eq id input_hash c s alpha g ws r e ea eg open' ew er =
      rw (e, ea, eg) (rw open' (rw ew er))

  gated_total :
      (id : Uuid) (input_hash : ConsensusContext D → String) (c : ConsensusContext D)
      (s : Settings D) (alpha : D) (g : FeasibilityGateResult)
      → read_settings c.strategy_config.parameters ≡ ok s
      → read_alpha c.strategy_config.parameters ≡ ok alpha
      → fields_are_valid c ≡ true
      → feasibility_gate c.alternatives c.feasibility ≡ ok g
      → IsReadable D c.objective_values
      → (r : ConsensusResult D) × (computed id input_hash c ≡ ok r)
        × (result_invariants r ≡ true → result_is_valid r ≡ true)
  unfolding computed result_is_valid fields_are_valid
  gated_total id input_hash c s alpha g e ea v eg h =
      let (ws, ew) =
        traverse_total (weigh s alpha c g.unknown) (weigh_total s alpha c g.unknown h) g.rankable in
      let rounds = rounds_valid s alpha c g ws v eg ew in
      let (r, er, valid) =
        finish_valid id (input_hash c) s c g ws (rank_weighed ws) v rounds
          (ranking_valid ws rounds) in
      elim (Bool-cases g.all_infeasible) [
        | inl shut ↦ (
          record (bare_result id (input_hash c) "weighted" "1.0.0" c infeasible) {
            blocking_constraints = all_cores g.infeasible;
            derivation = step 1 "feasibility" ∷ [];
          },
          rw (e, ea, eg) (rw shut refl),
          λ k. ground (arith, v, k),
        )
        | inr open' ↦ (r, computed-eq id input_hash c s alpha g ws r e ea eg open' ew er, valid)
      ]

  -- WeightedStrategy.evaluate returns a result, past the divisions and the validators of what it
  -- builds, on every context that passed its validators and whose verdicts passed theirs, where
  -- the parameters can be read and the values of the objectives are decimals.
  pub weighted_total :
      (id : Uuid) (input_hash : ConsensusContext D → String) (c : ConsensusContext D)
      (s : Settings D) (alpha : D)
      → read_settings c.strategy_config.parameters ≡ ok s
      → read_alpha c.strategy_config.parameters ≡ ok alpha
      → fields_are_valid c ≡ true
      → all evidence_matches_status c.feasibility ≡ true
      → IsReadable D c.objective_values
      → (r : ConsensusResult D) × (evaluate id input_hash c ≡ ok r)
  unfolding evaluate checked_result
  weighted_total id input_hash c s alpha e ea v w h =
      let (g, eg) = feasibility_gate_total c.alternatives c.feasibility w in
      let (r, er, valid) = gated_total id input_hash c s alpha g e ea v eg h in
      let sound = computed-IsSound id input_hash c r er in (r, rw (er, valid sound.selectable) refl)
