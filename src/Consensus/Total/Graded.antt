-- ===== src/Consensus/Total/Graded.antt =====
-- When `EvidenceWeightedStrategy.evaluate` raises nothing.
use agora_opencode.Prelude.{
  ok-injective, >>=-eq-ok, ◌≡◌, refl, [], ◌∷◌, List, String, true, false, ok, inl, inr, Bool-cases,
  arith, Bool, not, all, filter, Mem, str_eq, all-mem, mem-filter, mem-traverse, traverse_total,
  subst, traverse,
}
use agora_opencode.Decimal.{Decimal, zero_dec}
use agora_opencode.Consensus.Types.{
  Uuid, AlternativeInput, AlternativeScore, ConsensusContext, ConsensusResult,
  evidence_matches_status, result_invariants, infeasible, AbstainPolicy, exclude, half,
  AgentPosition, FeasibilityVerdict,
}
use agora_opencode.Consensus.Params.{EvidenceSettings, Settings, read_evidence, read_alpha}
use agora_opencode.Consensus.Gate.{FeasibilityGateResult, feasibility_gate}
use agora_opencode.Consensus.Gate.Laws.{
  feasibility_gate_total, feasibility_gate-rankable, is_blocked,
}
use agora_opencode.Consensus.Checks.{
  position_is_valid, fields_are_valid, contribution_is_valid, score_is_valid, result_is_valid,
  checked_result,
}
use agora_opencode.Consensus.Support.{contributions, relevant, weighted_objective_value, is_about}
use agora_opencode.Consensus.Outcome.{Weighed, rank_weighed, bare_result, all_cores, step}
use agora_opencode.Consensus.Sound.EvidenceWeighted.{computed-IsSound}
use agora_opencode.Consensus.EvidenceWeighted.{
  weigh, finish, finish_leader, lacks_evidence, computed, evaluate, blended_support,
}
use agora_opencode.Consensus.Total.Values.{IsReadable, value_total}
use agora_opencode.Consensus.Total.Rounds.{
  IsValidRound, contributions_valid, dissent_valid, minority_valid, all-filter,
}
use agora_opencode.Decimal.Laws.{clamp_unit, below_irrefl}
use agora_opencode.Consensus.Total.Blends.{AreNonneg, blended_total, then_ok}
use agora_opencode.Consensus.Total.Linear.{AllRounds, ranking_valid, reports_valid, last_valid}

module _ {D : Type 0} ⦃d : Decimal D⦄ where
  relevant_valid :
      (ps : List (AgentPosition D)) (alt : Uuid) (policy : AbstainPolicy) (use_confidence : Bool)
      → all position_is_valid ps ≡ true
      → all contribution_is_valid (contributions (relevant alt policy ps) use_confidence) ≡ true
  unfolding relevant
  relevant_valid ps alt exclude use_confidence v =
      contributions_valid (filter (is_about alt) ps)
        (all-filter position_is_valid (is_about alt) ps v) _ use_confidence
  relevant_valid ps alt half use_confidence v =
      contributions_valid ps v (is_about alt) use_confidence

  round_valid :
      (s : EvidenceSettings D) (alpha : D) (c : ConsensusContext D) (vs : List FeasibilityVerdict)
      (x : AlternativeInput) (w : Weighed D)
      → all position_is_valid c.agent_positions ≡ true
      → not (str_eq x.name "") ≡ true
      → weigh s alpha c vs x ≡ ok w
      → IsValidRound w
  unfolding weigh
  round_valid s alpha c vs x w v named e =
      let (blended, eb, e₁) = >>=-eq-ok (blended_support s c x.alternative_id) _ e in
      let (value, ev, ew) =
        >>=-eq-ok (weighted_objective_value x.alternative_id c.objectives c.objective_values) _
          e₁ in
      subst IsValidRound (ok-injective ew) (record {
        has_name = named;
        bounded = ground (arith, clamp_unit blended.1);
        contributed =
            relevant_valid c.agent_positions x.alternative_id s.base.abstain_policy
              s.base.use_confidence v;
        dissenting = dissent_valid c.agent_positions v x.alternative_id;
        outvoted = minority_valid c.agent_positions v x.alternative_id c.critiques;
      })

  weigh_total :
      (s : EvidenceSettings D) (alpha : D) (c : ConsensusContext D) (vs : List FeasibilityVerdict)
      → AreNonneg s.verification_weights
      → AreNonneg s.trust_multiplier
      → IsReadable D c.objective_values
      → (x : AlternativeInput) → (w : Weighed D) × (weigh s alpha c vs x ≡ ok w)
  unfolding weigh
  weigh_total s alpha c vs wv wt h x =
      let (p, ep) =
        blended_total s c (below_irrefl {D = D} ⦃d = d⦄ zero_dec) wv wt x.alternative_id in
      let (o, k) = value_total c x.alternative_id h in
      then_ok (blended_support s c x.alternative_id) _ ep (
        then_ok (weighted_objective_value x.alternative_id c.objectives c.objective_values) _ k
          (_, refl))

  leader_valid :
      (id : Uuid) (hash : String) (s : Settings D) (c : ConsensusContext D)
      (g : FeasibilityGateResult) (ws : List (Weighed D)) (leader : AlternativeScore D)
      (rest : List (AlternativeScore D)) (lacking : Bool)
      → fields_are_valid c ≡ true
      → AllRounds ws
      → all score_is_valid (leader ∷ rest) ≡ true
      → (r : ConsensusResult D) × (finish_leader id hash s c g ws leader (leader ∷ rest) lacking
          ≡ ok r)
        × (result_invariants r ≡ true → result_is_valid r ≡ true)
  unfolding finish_leader result_is_valid fields_are_valid
  leader_valid id hash s c g ws leader rest true v rounds h =
      let (contributed, dissenting, outvoted) = reports_valid ws rounds in
      (_, refl, λ k. ground (arith, v, h, k, contributed, dissenting, outvoted))
  leader_valid id hash s c g ws leader rest false v rounds h =
      last_valid id hash "evidence_weighted" "1.0.0" c _ ws leader rest v refl rounds h

  finish_valid :
      (id : Uuid) (hash : String) (s : Settings D) (c : ConsensusContext D)
      (g : FeasibilityGateResult) (ws : List (Weighed D)) (scores : List (AlternativeScore D))
      → fields_are_valid c ≡ true
      → AllRounds ws
      → all score_is_valid scores ≡ true
      → (r : ConsensusResult D) × (finish id hash s c g ws scores ≡ ok r)
        × (result_invariants r ≡ true → result_is_valid r ≡ true)
  unfolding finish result_is_valid fields_are_valid
  finish_valid id hash s c g ws [] v rounds h = (_, refl, λ k. ground (arith, v, k))
  finish_valid id hash s c g ws (leader ∷ rest) v rounds h =
      leader_valid id hash s c g ws leader rest (lacks_evidence ws leader.alternative_id) v rounds h

  rounds_valid :
      (s : EvidenceSettings D) (alpha : D) (c : ConsensusContext D) (g : FeasibilityGateResult)
      (ws : List (Weighed D))
      → fields_are_valid c ≡ true
      → feasibility_gate c.alternatives c.feasibility ≡ ok g
      → traverse (weigh s alpha c g.unknown) g.rankable ≡ ok ws
      → AllRounds ws
  unfolding fields_are_valid
  rounds_valid s alpha c g ws v eg ew w m =
      let (x, mx, ex) = mem-traverse (weigh s alpha c g.unknown) g.rankable ws ew w m in
      let kept = λ (a : AlternativeInput). not (is_blocked c.feasibility a) in
      let listed : Mem x (filter kept c.alternatives) =
        subst (Mem x) (feasibility_gate-rankable c.alternatives c.feasibility g eg).0 mx in
      let names = λ (a : AlternativeInput). not (str_eq a.name "") in
      let named : all names c.alternatives ≡ true = ground (arith, v) in
      round_valid s alpha c g.unknown x w (ground (arith, v))
        (all-mem names x c.alternatives named (mem-filter kept x c.alternatives listed).0) ex

  computed-eq :
      (id : Uuid) (input_hash : ConsensusContext D → String) (c : ConsensusContext D)
      (s : EvidenceSettings D) (alpha : D) (g : FeasibilityGateResult) (ws : List (Weighed D))
      (r : ConsensusResult D)
      → read_evidence c.strategy_config.parameters ≡ ok s
      → read_alpha c.strategy_config.parameters ≡ ok alpha
      → feasibility_gate c.alternatives c.feasibility ≡ ok g
      → g.all_infeasible ≡ false
      → traverse (weigh s alpha c g.unknown) g.rankable ≡ ok ws
      → finish id (input_hash c) s.base c g ws (rank_weighed ws) ≡ ok r
      → computed id input_hash c ≡ ok r
  unfolding computed
  computed-eq id input_hash c s alpha g ws r e ea eg open' ew er =
      rw (e, ea, eg) (rw open' (rw ew er))

  gated_total :
      (id : Uuid) (input_hash : ConsensusContext D → String) (c : ConsensusContext D)
      (s : EvidenceSettings D) (alpha : D) (g : FeasibilityGateResult)
      → read_evidence c.strategy_config.parameters ≡ ok s
      → read_alpha c.strategy_config.parameters ≡ ok alpha
      → fields_are_valid c ≡ true
      → feasibility_gate c.alternatives c.feasibility ≡ ok g
      → AreNonneg s.verification_weights
      → AreNonneg s.trust_multiplier
      → IsReadable D c.objective_values
      → (r : ConsensusResult D) × (computed id input_hash c ≡ ok r)
        × (result_invariants r ≡ true → result_is_valid r ≡ true)
  unfolding computed result_is_valid fields_are_valid
  gated_total id input_hash c s alpha g e ea v eg wv wt h =
      let (ws, ew) =
        traverse_total (weigh s alpha c g.unknown) (weigh_total s alpha c g.unknown wv wt h)
          g.rankable in
      let rounds = rounds_valid s alpha c g ws v eg ew in
      let (r, er, valid) =
        finish_valid id (input_hash c) s.base c g ws (rank_weighed ws) v rounds
          (ranking_valid ws rounds) in
      elim (Bool-cases g.all_infeasible) [
        | inl shut ↦ (
          record (bare_result id (input_hash c) "evidence_weighted" "1.0.0" c infeasible) {
            blocking_constraints = all_cores g.infeasible;
            derivation = step 1 "feasibility" ∷ [];
          },
          rw (e, ea, eg) (rw shut refl),
          λ k. ground (arith, v, k),
        )
        | inr open' ↦ (r, computed-eq id input_hash c s alpha g ws r e ea eg open' ew er, valid)
      ]

  -- EvidenceWeightedStrategy.evaluate returns a result, past the divisions and the validators of
  -- what it builds, on every context that passed its validators and whose verdicts passed
  -- theirs, where the parameters can be read, the weights of verification and trust are not
  -- negative and the values of the objectives are decimals.
  pub evidence_weighted_total :
      (id : Uuid) (input_hash : ConsensusContext D → String) (c : ConsensusContext D)
      (s : EvidenceSettings D) (alpha : D)
      → read_evidence c.strategy_config.parameters ≡ ok s
      → read_alpha c.strategy_config.parameters ≡ ok alpha
      → fields_are_valid c ≡ true
      → all evidence_matches_status c.feasibility ≡ true
      → AreNonneg s.verification_weights
      → AreNonneg s.trust_multiplier
      → IsReadable D c.objective_values
      → (r : ConsensusResult D) × (evaluate id input_hash c ≡ ok r)
  unfolding evaluate checked_result
  evidence_weighted_total id input_hash c s alpha e ea v w wv wt h =
      let (g, eg) = feasibility_gate_total c.alternatives c.feasibility w in
      let (r, er, valid) = gated_total id input_hash c s alpha g e ea v eg wv wt h in
      let sound = computed-IsSound id input_hash c r er in (r, rw (er, valid sound.selectable) refl)
