-- ===== src/Consensus/Params.antt =====
-- How the strategies of backend/app/application/consensus.py read their parameters: the defaults,
-- and the conversions, which may raise.
use agora_opencode.Prelude.{
  ℕ, Bool, false, ◌||◌, not, Option, none, some, String, List, [], ◌∷◌, Result, ok, err, ◌>>=◌,
  or_raise, lookup_text, str_eq, if◌then◌else◌, is_nil, traverse, ◌==◌,
}
use agora_opencode.Decimal.{Decimal}
use agora_opencode.Consensus.Types.{
  ParamValue, flag, int, number, text, table, AbstainPolicy, exclude, half, ConsensusFault,
  bad_parameter,
}

abbrev pub Weights : Type 0 → Type 0
Weights D = List (String × D)

abbrev pub Parameters : Type 0 → Type 0
Parameters D = List (String × ParamValue D)

module _ {D : Type 0} ⦃d : Decimal D⦄ where
  abbrev pub position_weights : Weights D
  position_weights =
      ("SUPPORT", d.lit 1 0)
      ∷ ("CONDITIONALLY_SUPPORT", d.lit 75 2)
      ∷ ("INSUFFICIENT_EVIDENCE", d.lit 25 2)
      ∷ ("OPPOSE", d.lit 0 0)
      ∷ ("ABSTAIN", d.lit 5 1)
      ∷ []

  abbrev pub default_verification_weights : Weights D
  default_verification_weights =
      ("UNVERIFIED", d.lit 3 1)
      ∷ ("SOURCE_VERIFIED", d.lit 8 1)
      ∷ ("CROSS_CHECKED", d.lit 10 1)
      ∷ ("DISPUTED", d.lit 1 1)
      ∷ ("REJECTED", d.lit 0 1)
      ∷ []

  abbrev pub default_trust_multiplier : Weights D
  default_trust_multiplier =
      ("PRIMARY", d.lit 10 1)
      ∷ ("AUTHORITATIVE", d.lit 9 1)
      ∷ ("SECONDARY", d.lit 6 1)
      ∷ ("COMMERCIAL", d.lit 4 1)
      ∷ ("UNATTRIBUTED", d.lit 0 1)
      ∷ ("SYNTHETIC", d.lit 0 1)
      ∷ []

  -- `bool(value)`
  abbrev as_bool : ParamValue D → Bool
  as_bool (flag b) = b
  as_bool (int n) = not (n == 0)
  as_bool (number x) = d.below x (d.lit 0 0) || d.below (d.lit 0 0) x
  as_bool (text s) = not (str_eq s "")
  as_bool (table t) = not (is_nil t)

  -- `Decimal(str(value))`
  abbrev as_decimal : ParamValue D → Option D
  as_decimal (flag b) = none
  as_decimal (int n) = some (d.lit n 0)
  as_decimal (number x) = some x
  as_decimal (text s) = d.parse s
  as_decimal (table t) = none

  -- `int(value)`
  abbrev as_int : ParamValue D → Option ℕ
  as_int (flag b) = some (if b then 1 else 0)
  as_int (int n) = some n
  as_int (number x) = some (d.truncate x)
  as_int (text s) = d.parse_int s
  as_int (table t) = none

  -- `AbstainPolicy(value)`
  abbrev as_policy : ParamValue D → Option AbstainPolicy
  as_policy (text s) =
      if str_eq s "EXCLUDE" then some exclude else (if str_eq s "HALF" then some half else none)
  as_policy _ = none

  parse_entry : String × String → Result ConsensusFault (String × D)
  parse_entry (k, v) = do x ← or_raise (d.parse v) bad_parameter; ok (k, x)

  -- `{k: Decimal(str(v)) for k, v in raw.items()}`, which raises on what is no table
  as_weights : ParamValue D → Result ConsensusFault (Weights D)
  unfolding parse_entry
  as_weights (table t) = traverse parse_entry t
  as_weights _ = err bad_parameter

  -- `params.get(key, default)`, converted
  abbrev get_bool : Parameters D → String → Bool → Bool
  get_bool ps k z = elim (lookup_text k ps) [ none ↦ z | some v ↦ as_bool v ]

  abbrev get_decimal : Parameters D → String → D → Result ConsensusFault D
  get_decimal ps k z = elim (lookup_text k ps) [
    | none ↦ ok z
    | some v ↦ or_raise (as_decimal v) bad_parameter
  ]

  abbrev get_int : Parameters D → String → ℕ → Result ConsensusFault ℕ
  get_int ps k z = elim (lookup_text k ps) [
    | none ↦ ok z
    | some v ↦ or_raise (as_int v) bad_parameter
  ]

  abbrev get_policy : Parameters D → Result ConsensusFault AbstainPolicy
  get_policy ps = elim (lookup_text "abstain_policy" ps) [
    | none ↦ ok exclude
    | some v ↦ or_raise (as_policy v) bad_parameter
  ]

  -- `{…} if raw else default`
  get_weights : Parameters D → String → Weights D → Result ConsensusFault (Weights D)
  unfolding as_weights
  get_weights ps k z = elim (lookup_text k ps) [
    | none ↦ ok z
    | some v ↦ (if as_bool v then as_weights v else ok z)
  ]

-- What every strategy reads.
pub record Settings (D : Type 0) : Type 0 where
  pub use_confidence : Bool
  pub abstain_policy : AbstainPolicy
  pub agreement_threshold : D
  pub partial_threshold : D
  -- the default weights where none are given
  pub weights : Weights D

-- What the evidence-weighted strategy reads besides.
pub record EvidenceSettings (D : Type 0) : Type 0 where
  pub base : Settings D
  pub beta : D
  pub lam : D
  pub independence_cap : ℕ
  pub verification_weights : Weights D
  pub trust_multiplier : Weights D

-- What the constraint-aware strategy reads besides.
pub record ConstraintSettings (D : Type 0) : Type 0 where
  pub evidence : EvidenceSettings D
  pub epsilon : D
  pub min_flip_distance : D
  pub allow_unevidenced : Bool

module _ {D : Type 0} ⦃d : Decimal D⦄ where
  unfoldable pub read_settings : Parameters D → Result ConsensusFault (Settings D)
  unfolding get_weights
  read_settings ps = do
    policy ← get_policy ps
    agreement ← get_decimal ps "agreement_threshold" (d.lit 66 2)
    partial ← get_decimal ps "partial_threshold" (d.lit 5 1)
    given ← get_weights ps "position_weights" position_weights
    ok (record {
      use_confidence = get_bool ps "use_confidence" false;
      abstain_policy = policy;
      agreement_threshold = agreement;
      partial_threshold = partial;
      weights = if is_nil given then position_weights else given;
    })

  -- `alpha`, which the constraint-aware strategy does not read
  unfoldable pub read_alpha : Parameters D → Result ConsensusFault D
  read_alpha ps = get_decimal ps "alpha" (d.lit 5 1)

  unfoldable pub read_evidence : Parameters D → Result ConsensusFault (EvidenceSettings D)
  unfolding read_settings
  read_evidence ps = do
    base ← read_settings ps
    beta ← get_decimal ps "evidence_weight" (d.lit 4 1)
    lam ← get_decimal ps "lambda" (d.lit 5 1)
    cap ← get_int ps "independence_cap" 2
    verification ← get_weights ps "verification_weights" default_verification_weights
    trust ← get_weights ps "trust_multiplier" default_trust_multiplier
    ok (record {
      base = base;
      beta = beta;
      lam = lam;
      independence_cap = cap;
      verification_weights = verification;
      trust_multiplier = trust;
    })

  unfoldable pub read_constraint : Parameters D → Result ConsensusFault (ConstraintSettings D)
  unfolding read_evidence
  read_constraint ps = do
    evidence ← read_evidence ps
    epsilon ← get_decimal ps "epsilon" (d.lit 1 2)
    flip ← get_decimal ps "min_flip_distance" (d.lit 5 2)
    ok (record {
      evidence = evidence;
      epsilon = epsilon;
      min_flip_distance = flip;
      allow_unevidenced = get_bool ps "allow_unevidenced" false;
    })
