-- ===== src/Replays/Answers.antt =====
-- A replay answers every request with a result that its validator takes.
use agora_opencode.Prelude.{ℕ, ◌≡◌, refl, true, Option, none, some, arith, ok, ◌==◌}
use agora_opencode.Ledger.Defs.{Hashing}
use agora_opencode.Replays.Types.{HistoricalReplay, ReplayMismatch, ReplayRequest}
use agora_opencode.Replays.Service.{then_ledger, ReplayService, validate_source, same_manifest}

module _ {H : Type 0} ⦃h : Hashing H⦄ where
  -- What a source that passes the first check has in common with the request.
  pub validated_source :
      (q : ReplayRequest H) (r : HistoricalReplay H)
      → validate_source q r ≡ none
      → ((q.workspace_id == r.workspace_id) ≡ true)
        × ((q.source_session_id == r.source_session_id) ≡ true)
        × (same_manifest q.manifest r.manifest ≡ true)
  unfolding validate_source
  validated_source q r e = (ground arith, ground arith, ground arith)

  module _ (fuel : ℕ) (v : ReplayService H) where
    -- A check that finds no mismatch has found none in the source.
    pub then_ledger-none :
        (r : HistoricalReplay H) (o : Option (ReplayMismatch H))
        → then_ledger fuel v r o ≡ ok none
        → o ≡ none
    then_ledger-none r none e = refl
    then_ledger-none r (some m) e = absurd (cc)
