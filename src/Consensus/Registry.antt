-- ===== src/Consensus/Registry.antt =====
-- `StrategyRegistry` of backend/app/application/consensus.py.
pub mod Laws
use agora_opencode.Prelude.{
  ℕ, Bool, true, false, ◌&&◌, not, Option, none, some, String, List, [], ◌∷◌, ◌++◌, map, Result, ok,
  err, ◌>>=◌, ◌>>◌, raise_if, or_raise, str_eq, text_in, if◌then◌else◌, ◌||◌,
}
use agora_opencode.Consensus.Types.{
  Uuid, ConsensusOutcome, ConsensusContext, ConsensusResult, ConsensusFault, AgentContribution,
  DerivationStep, MinorityEntry,
}

-- The explanation, with its free-form tables of weights and thresholds left out.
pub record ConsensusExplanation (D : Type 0) : Type 0 where
  pub consensus_id : Uuid
  pub outcome : ConsensusOutcome
  pub strategy : String
  pub strategy_version : String
  pub formula : String
  pub contributions : List (AgentContribution D)
  pub derivation : List DerivationStep
  pub caveats : List String
  pub minority_report : List MinorityEntry
  pub degenerate_input : Bool
  pub input_hash : String

-- `_empty_explanation`
unfoldable pub empty_explanation :
    {D : Type 0} → ConsensusResult D → String → List String → ConsensusExplanation D
empty_explanation r formula caveats = record {
  consensus_id = r.result_id;
  outcome = r.outcome;
  strategy = r.strategy;
  strategy_version = r.strategy_version;
  formula = formula;
  contributions = r.contributions;
  derivation = r.derivation;
  caveats = caveats;
  minority_report = r.minority_report;
  degenerate_input = r.degenerate_input;
  input_hash = r.input_hash;
}

-- A strategy behind the port `ConsensusStrategy`.
pub record Strategy (D : Type 0) : Type 0 where
  pub name : String
  pub version : String
  pub evaluate : ConsensusContext D → Result ConsensusFault (ConsensusResult D)
  pub explain : ConsensusResult D → ConsensusExplanation D

-- `ConsensusError`, by the message it carries.
pub data ConsensusError : Type 0 where
  empty_name empty_version : ConsensusError
  undocumented : String → ConsensusError
  duplicate unknown_strategy : String → String → ConsensusError
  failed : String → String → ConsensusFault → ConsensusError

-- The registered strategies by name and version.
abbrev pub Registry : Type 0 → Type 0
Registry D = List ((String × String) × Strategy D)

-- `documented_names is not None and name not in documented_names`
abbrev pub lacks_document : Option (List String) → String → Bool
lacks_document none n = false
lacks_document (some names) n = not (text_in n names)

module _ {D : Type 0} where
  abbrev pub find_strategy : String → String → Registry D → Option (Strategy D)
  find_strategy n v [] = none
  find_strategy n v (((m, w), s) ∷ rest) =
      if str_eq m n && str_eq w v then some s else find_strategy n v rest

  abbrev is_registered : String → String → Registry D → Bool
  is_registered n v r = elim (find_strategy n v r) [ none ↦ false | some s ↦ true ]

  -- One round of the constructor's loop.
  unfoldable pub register_one :
      Option (List String) → Strategy D → Registry D → Result ConsensusError (Registry D)
  register_one documented s r = do
    raise_if (str_eq s.name "") empty_name
    raise_if (str_eq s.version "") empty_version
    raise_if (lacks_document documented s.name) (undocumented s.name)
    raise_if (is_registered s.name s.version r) (duplicate s.name s.version)
    ok (((s.name, s.version), s) ∷ r)

  -- The constructor's loop, over what is registered so far.
  unfoldable pub register_from :
      Option (List String) → Registry D → List (Strategy D) → Result ConsensusError (Registry D)
  unfolding register_one
  register_from documented r [] = ok r
  register_from documented r (s ∷ ss) =
      register_one documented s r >>= λ r'. register_from documented r' ss

  -- `StrategyRegistry(strategies, documented_names=…)`
  unfoldable pub make_registry :
      List (Strategy D) → Option (List String) → Result ConsensusError (Registry D)
  unfolding register_from
  make_registry ss documented = register_from documented [] ss

  unfoldable pub resolve : Registry D → String → String → Result ConsensusError (Strategy D)
  resolve r n v = or_raise (find_strategy n v r) (unknown_strategy n v)
