-- ===== src/Budget/Usage.antt =====
-- What a session and an agent have used: `session_usage` and `agent_usage` of
-- backend/app/db/coordinator_policy.py, over the records of calls of language models.
use agora_opencode.Prelude.{
  ℕ, ◌+◌, ◌≤◌, ◌≡◌, refl, Bool, true, false, ◌&&◌, not, Option, none, some, List, [], ◌∷◌, ◌++◌,
  map, filter, arith, ◌==◌, All, Bool-cases, inl, inr, all,
}
use agora_opencode.Decimal.{Decimal, zero_dec, sum_from}
use agora_opencode.Ledger.Defs.{same_option}
use agora_opencode.Budget.{Budgets, BudgetCeiling, BudgetUsage, is_over, tokens}
use agora_opencode.Budget.Laws.{all_below}

-- The columns of a record that the sums read.
pub record LlmCallRecord (D : Type 0) : Type 0 where
  pub workspace_id : ℕ
  pub session_id : Option ℕ
  pub agent_def_id : Option ℕ
  pub input_tokens : ℕ
  pub output_tokens : ℕ
  pub cost_usd : D

-- The ceilings of the session and of its agents, which no turn changes.
pub record Ceilings (D : Type 0) : Type 0 where
  pub session_ceiling : Option (BudgetCeiling D)
  pub agent_ceiling : ℕ → Option (BudgetCeiling D)

abbrev pub is_of_agent : {D : Type 0} → Option ℕ → LlmCallRecord D → Bool
is_of_agent none c = true
is_of_agent (some a) c = same_option c.agent_def_id (some a)

-- The `WHERE` of `_usage`
abbrev pub is_counted : {D : Type 0} → ℕ → ℕ → Option ℕ → LlmCallRecord D → Bool
is_counted w s agent c =
    c.workspace_id == w && same_option c.session_id (some s) && is_of_agent agent c

-- `COALESCE(SUM(…), 0)`
unfoldable pub token_sum : List ℕ → ℕ
token_sum [] = 0
token_sum (n ∷ ns) = n + token_sum ns

module _ {D : Type 0} ⦃d : Decimal D⦄ where
  -- The sums over the records that are counted.
  unfoldable pub sum_usage : List (LlmCallRecord D) → BudgetUsage D
  sum_usage cs = record {
    input_tokens = token_sum (map (λ (c : LlmCallRecord D). c.input_tokens) cs);
    output_tokens = token_sum (map (λ (c : LlmCallRecord D). c.output_tokens) cs);
    cost_usd = sum_from zero_dec (map (λ (c : LlmCallRecord D). c.cost_usd) cs);
  }

  -- `_usage`
  unfoldable pub usage_of : ℕ → ℕ → Option ℕ → List (LlmCallRecord D) → BudgetUsage D
  unfolding sum_usage
  usage_of w s agent cs = sum_usage (filter (is_counted w s agent) cs)

  unfoldable pub budgets_of : Ceilings D → ℕ → ℕ → List (LlmCallRecord D) → Budgets D
  unfolding usage_of
  budgets_of x w s cs = record {
    session_usage = usage_of w s none cs;
    session_ceiling = x.session_ceiling;
    agent_usage = λ a. usage_of w s (some a) cs;
    agent_ceiling = x.agent_ceiling;
  }

  -- A call does not cost less than nothing.
  abbrev pub IsPaid : LlmCallRecord D → Type 0
  IsPaid c = d.below c.cost_usd zero_dec ≡ false

  -- The second usage is not less than the first.
  record Within (u v : BudgetUsage D) : Type 0 where
    fewer : tokens u ≤ tokens v
    cheaper : d.below v.cost_usd u.cost_usd ≡ false

  token_sum_grows :
      (f : LlmCallRecord D → ℕ) (p : LlmCallRecord D → Bool) (xs ys : List (LlmCallRecord D))
      → token_sum (map f (filter p xs)) ≤ token_sum (map f (filter p (xs ++ ys)))
  unfolding token_sum
  token_sum_grows f p [] ys = omega arith
  token_sum_grows f p (x ∷ xs) ys = elim (Bool-cases (p x)) [
    | inl e ↦ rw e (omega (arith, token_sum_grows f p xs ys))
    | inr e ↦ rw e (token_sum_grows f p xs ys)
  ]

  below_refl : (a : D) → d.below a a ≡ false
  below_refl a = elim (Bool-cases (d.below a a)) [
    | inr e ↦ e
    | inl e ↦ absurd (ground (arith, e, d.below_asym a a e))
  ]

  sum-from_grows :
      (acc : D) (p : LlmCallRecord D → Bool) (ys : List (LlmCallRecord D))
      → All IsPaid ys
      → d.below (sum_from acc (map (λ (c : LlmCallRecord D). c.cost_usd) (filter p ys))) acc ≡ false
  sum-from_grows acc p [] a = below_refl acc
  sum-from_grows acc p (y ∷ ys) (paid, a) = elim (Bool-cases (p y)) [
    | inr e ↦ rw e (sum-from_grows acc p ys a)
    | inl e ↦ rw e (
        d.below_between _ (d.plus acc y.cost_usd) acc
          (sum-from_grows (d.plus acc y.cost_usd) p ys a) (d.plus_grows acc y.cost_usd paid))
  ]

  cost_grows :
      (acc : D) (p : LlmCallRecord D → Bool) (xs ys : List (LlmCallRecord D))
      → All IsPaid ys
      → d.below
          (sum_from acc (map (λ (c : LlmCallRecord D). c.cost_usd) (filter p (xs ++ ys))))
          (sum_from acc (map (λ (c : LlmCallRecord D). c.cost_usd) (filter p xs)))
        ≡ false
  cost_grows acc p [] ys a = sum-from_grows acc p ys a
  cost_grows acc p (x ∷ xs) ys a = elim (Bool-cases (p x)) [
    | inl e ↦ rw e (cost_grows (d.plus acc x.cost_usd) p xs ys a)
    | inr e ↦ rw e (cost_grows acc p xs ys a)
  ]

  usage_grows :
      (w s : ℕ) (agent : Option ℕ) (xs ys : List (LlmCallRecord D))
      → All IsPaid ys
      → Within (usage_of w s agent xs) (usage_of w s agent (xs ++ ys))
  unfolding usage_of sum_usage
  usage_grows w s agent xs ys a =
      let p = is_counted w s agent in
      let more_in = token_sum_grows (λ (c : LlmCallRecord D). c.input_tokens) p xs ys in
      let more_out = token_sum_grows (λ (c : LlmCallRecord D). c.output_tokens) p xs ys in
      record { fewer = omega (arith, more_in, more_out); cheaper = cost_grows zero_dec p xs ys a }

  is_over-Within :
      (u v : BudgetUsage D) (c : Option (BudgetCeiling D))
      → Within u v
      → is_over v c ≡ false
      → is_over u c ≡ false
  unfolding is_over
  is_over-Within u v none k e = refl
  is_over-Within u v (some c) k e = elim (Bool-cases (d.below u.cost_usd c.max_usd)) [
    | inl cheap ↦ ground (arith, cheap, k.fewer, e)
    | inr dear ↦
        let over = d.below_between v.cost_usd u.cost_usd c.max_usd k.cheaper dear in
        absurd (ground (arith, over, e))
  ]

  module _ (x : Ceilings D) (w s : ℕ) (cs more : List (LlmCallRecord D))
      (paid : All IsPaid more) where
    agents-below :
        (agents : List ℕ)
        → all (λ a. not (is_over (usage_of w s (some a) (cs ++ more)) (x.agent_ceiling a))) agents
          ≡ true
        → all (λ a. not (is_over (usage_of w s (some a) cs) (x.agent_ceiling a))) agents ≡ true
    agents-below [] e = refl
    agents-below (a ∷ as') e =
        let here =
          is_over-Within _ _ (x.agent_ceiling a) (usage_grows w s (some a) cs more paid)
            (ground (arith, e)) in
        let rest = agents-below as' (ground (arith, e)) in ground (arith, here, rest)

    -- Who is below the ceilings after more calls was below them before.
    pub all_below-grows :
        (agents : List ℕ)
        → all_below (budgets_of x w s (cs ++ more)) agents ≡ true
        → all_below (budgets_of x w s cs) agents ≡ true
    unfolding budgets_of
    all_below-grows agents e =
        let here =
          is_over-Within _ _ x.session_ceiling (usage_grows w s none cs more paid)
            (ground (arith, e)) in
        let rest = agents-below agents (ground (arith, e)) in ground (arith, here, rest)
