-- ===== src/Replays/Registry.antt =====
-- `ReplayImplementationRegistry` of backend/app/application/replay.py: implementations by exact id and
-- version. What an implementation computes is given as a function that may raise.
use agora_opencode.Prelude.{
  Bool, ◌&&◌, Option, none, some, String, List, [], ◌∷◌, ◌++◌, Result, ok, err, str_eq,
  if◌then◌else◌, any,
}
use agora_opencode.Replays.Types.{ReplayImplementationIdentity, ReplayExecution, ReplayFault}

pub record ReplayImplementation (H : Type 0) : Type 0 where
  pub identity : ReplayImplementationIdentity H
  pub execute : String → Result ReplayFault (ReplayExecution H)
  pub deterministic : Bool
  pub external : Bool

pub data RegistryError : Type 0 where
  duplicate_identity : RegistryError

module _ {H : Type 0} where
  -- `_key(a) == _key(b)`
  abbrev pub same_key : ReplayImplementationIdentity H → ReplayImplementationIdentity H → Bool
  same_key a b =
      str_eq a.implementation_id b.implementation_id
      && str_eq a.implementation_version b.implementation_version

  -- The loop of `__init__`, from the implementations that it has taken.
  unfoldable pub register :
      List (ReplayImplementation H)
      → List (ReplayImplementation H)
      → Result RegistryError (List (ReplayImplementation H))
  register taken [] = ok taken
  register taken (i ∷ is') =
      let rest = register (taken ++ (i ∷ [])) is' in
      if any (λ (j : ReplayImplementation H). same_key j.identity i.identity) taken
      then err duplicate_identity
      else rest

  unfoldable pub resolve :
      List (ReplayImplementation H)
      → ReplayImplementationIdentity H
      → Option (ReplayImplementation H)
  resolve [] key = none
  resolve (i ∷ is') key = if same_key i.identity key then some i else resolve is' key
