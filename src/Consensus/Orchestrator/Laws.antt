-- ===== src/Consensus/Orchestrator/Laws.antt =====
-- What a run leaves in the tables of results and explanations.
use agora_opencode.Prelude.{ℕ, ◌≡◌, String, ◌∷◌, ok}
use agora_opencode.Consensus.Types.{Uuid, ConsensusContext, ConsensusResult}
use agora_opencode.Consensus.Registry.{Strategy, Registry}
use agora_opencode.Consensus.Orchestrator.{ResultStore, run_record}

module _ {D : Type 0} where
  module _ (show : D → String) (workspace : Uuid) (now : ℕ) (c : ConsensusContext D)
      (st st' : ResultStore D) (r : ConsensusResult D) where
    -- The store after a run of a strategy that returns the result.
    abbrev pub IsRecorded : Strategy D → Type 0
    IsRecorded s =
        (s.evaluate c ≡ ok r)
        × (st'.results ≡ run_record show workspace now r ∷ st.results)
        × (st'.explanations ≡ (workspace, r.result_id, s.explain r) ∷ st.explanations)
