-- ===== src/Replays/Strict.antt =====
-- When a strict replay is verified.
use agora_opencode.Prelude.{
  ok-injective, ℕ, ◌<◌, ◌≡◌, refl, sym, ap, ◌∙◌, ◌↔◌, true, false, ◌&&◌, not, Option, none, some,
  List, [], ◌∷◌, arith, ok, >>=-eq-ok, ==_iff, length, All, is_nil, ◌≢◌,
}
use agora_opencode.Ledger.Defs.{Hashing, session_events, verify, Reason}
use agora_opencode.Replays.Types.{
  historical_replay_unavailable, is_strict, HistoricalReplay, ReplayImplementationSelection,
  ReplayManifestRef, ReplayMismatch, ReplayMode, ReplayRequest, ReplayResult, strict, tolerant,
  live, verified, selection_shape, result_shape,
}
use native.Mathlib.Nat.{zero-add}
use agora_opencode.Replays.Service.{
  plain_mismatch, ReplayService, same_manifest, validate_source, verify_ledger, verify_ledger_from,
  check_source, then_ledger, then_marl, ledger_read_limit, checked, failed_with, completed_result,
}
use agora_opencode.Replays.Modes.{
  by_mode, replay, replay_loaded, replay_checked, strict_end, strict_loop, strict_replay,
}
use agora_opencode.Replays.Pages.{read_pages-session_events}
use agora_opencode.Replays.Answers.{validated_source}
use agora_opencode.Replays.Total.{verified_shape}
use agora_opencode.Replays.Reproduced.{
  Reproduced, loop-Reproduced, Reproduced-loop, hashes_of, compare_ledgers_iff, Verifies,
  verify_marl_iff,
}

module _ {H : Type 0} ⦃h : Hashing H⦄ where
  same_manifest_iff : (a b : ReplayManifestRef H) → (same_manifest a b ≡ true) ↔ (a ≡ b)
  unfolding same_manifest
  same_manifest_iff a b = ground (arith, h.same_iff a.manifest_hash b.manifest_hash)

  -- The history is of the session and manifest asked for, the ledger of that session verifies and
  -- has the event hashes of the history, every learning bundle verifies, and every step is reproduced.
  pub record IsFaithful (v : ReplayService H) (q : ReplayRequest H) (r : HistoricalReplay H)
      : Type 0 where
    pub same_workspace : q.workspace_id ≡ r.workspace_id
    pub same_session : q.source_session_id ≡ r.source_session_id
    pub same_source : q.manifest ≡ r.manifest
    pub ledger_verifies : verify r.workspace_id r.source_session_id v.tables ≡ none
    pub ledger_agrees :
        hashes_of r.ledger_events
        ≡ hashes_of (session_events r.workspace_id r.source_session_id v.tables)
    pub bundles_verify : All (Verifies v.verify_bundle) r.marl_bundles
    pub steps_reproduced : All (Reproduced v.implementations) r.steps

  failed-outcome :
      (q : ReplayRequest H) (m : ReplayMismatch H) (n : ℕ) (out : ReplayResult H)
      → failed_with q m n ≡ ok out
      → out.outcome ≢ verified
  unfolding failed_with checked
  failed-outcome q m n out e k =
      absurd (ground (arith, e, k, ap (λ (x : ReplayResult H). x.outcome)))

  completed-eq : (r out : ReplayResult H) → checked r ≡ ok out → r ≡ out
  unfolding checked
  completed-eq r out e = ground arith

  strict_end-verified :
      (q : ReplayRequest H) (n : ℕ) (o : Option (ReplayMismatch H)) (out : ReplayResult H)
      → strict_end q (n, o) ≡ ok out
      → out.outcome ≡ verified
      → (o ≡ none) × (out ≡ completed_result q verified n [])
  strict_end-verified q n none out e k = (refl, sym (completed-eq _ out e))
  strict_end-verified q n (some m) out e k = absurd (failed-outcome q m n out e k)

  module _ (fuel : ℕ) (v : ReplayService H) (q : ReplayRequest H) (r : HistoricalReplay H) where
    -- The part of the ledger's check behind the verification of the chain, from what that found.
    ledger-agrees :
        (o : Option (Option ℕ × Reason))
        → verify r.workspace_id r.source_session_id v.tables ≡ o
        → length (session_events r.workspace_id r.source_session_id v.tables) < fuel
        → (verify_ledger_from fuel r v.tables o ≡ ok none)
          ↔ (o ≡ none)
            × (hashes_of r.ledger_events
                ≡ hashes_of (session_events r.workspace_id r.source_session_id v.tables))
    unfolding verify_ledger_from
    ledger-agrees (some (order, why)) e enough = (λ k. absurd (ground arith), λ (k, _). absurd (cc))
    ledger-agrees none e enough =
        let pages =
          read_pages-session_events fuel r.workspace_id r.source_session_id ledger_read_limit
            v.tables e (omega arith) enough in
        let same =
          compare_ledgers_iff r.ledger_events
            (session_events r.workspace_id r.source_session_id v.tables) in
        rw pages (λ k. (refl, same.0 (ground arith)), λ (_, k). ap ok (same.1 k))

    marl-agrees :
        (m : Option (ReplayMismatch H))
        → (then_marl v r m ≡ none) ↔ (m ≡ none) × (All (Verifies v.verify_bundle) r.marl_bundles)
    marl-agrees none =
        let (to, from) = verify_marl_iff v.verify_bundle r.marl_bundles in
        (λ e. (refl, to e), λ (_, a). from a)
    marl-agrees (some m) = (λ e. absurd (cc), λ (e, _). absurd (cc))

    pub faithful-source :
        length (session_events r.workspace_id r.source_session_id v.tables) < fuel
        → IsFaithful v q r
        → q.implementation_selections ≡ []
        → check_source fuel v q r ≡ ok none
    unfolding check_source verify_ledger validate_source
    faithful-source enough f bare =
        let checked' =
          (ledger-agrees (verify r.workspace_id r.source_session_id v.tables) refl enough).1
            (f.ledger_verifies, f.ledger_agrees) in
        let marl = (marl-agrees none).1 (refl, f.bundles_verify) in
        ground (
          arith,
          checked',
          marl,
          bare,
          f.same_workspace,
          f.same_session,
          (same_manifest_iff q.manifest r.manifest).1 f.same_source,
        )

    module _ (q_strict : q.mode ≡ strict)
        (enough : length (session_events r.workspace_id r.source_session_id v.tables) < fuel) where
      mode-strict :
          (m : ReplayMode)
          → m ≡ strict
          → (out : ReplayResult H) → by_mode m v q r ≡ ok out
          → out.outcome ≡ verified
          → All (Reproduced v.implementations) r.steps
            × (out ≡ completed_result q verified (length r.steps) [])
      unfolding strict_replay
      mode-strict strict e out k won =
          let ((n, o), looped, ended) =
            >>=-eq-ok (strict_loop v.implementations r.steps 0) (strict_end q) k in
          let (no_mismatch, same) = strict_end-verified q n o out ended won in
          let (steps, count) =
            loop-Reproduced v.implementations r.steps 0 n
              (looped ∙ ap (λ x. ok (n, x)) no_mismatch) in
          (steps, same ∙ ap (λ k. completed_result q verified k []) (omega arith))
      mode-strict tolerant e out k won = absurd (cc)
      mode-strict live e out k won = absurd (cc)

      source-IsFaithful :
          (o : Option (ReplayMismatch H))
          → validate_source q r ≡ o
          → then_ledger fuel v r o ≡ ok none
          → All (Reproduced v.implementations) r.steps
          → IsFaithful v q r
      unfolding verify_ledger
      source-IsFaithful (some m) e k steps = absurd (cc)
      source-IsFaithful none e k steps =
          let (w, s, m) = validated_source q r e in
          let (x, checked', k') =
            >>=-eq-ok
              (verify_ledger_from fuel r v.tables
                (verify r.workspace_id r.source_session_id v.tables))
              _ k in
          let (clean, bundles) = (marl-agrees x).0 (ok-injective k') in
          let (sound, same) =
            (ledger-agrees (verify r.workspace_id r.source_session_id v.tables) refl enough).0
              (checked' ∙ ap ok clean) in
          record {
            same_workspace = (==_iff _ _).0 w;
            same_session = (==_iff _ _).0 s;
            same_source = (same_manifest_iff _ _).0 m;
            ledger_verifies = sound;
            ledger_agrees = same;
            bundles_verify = bundles;
            steps_reproduced = steps;
          }

      strict-run :
          (m : ReplayMode)
          → m ≡ strict
          → All (Reproduced v.implementations) r.steps
          → by_mode m v q r ≡ ok (completed_result q verified (length r.steps) [])
      unfolding strict_replay checked result_shape
      strict-run strict e steps =
          rw
            (
              Reproduced-loop v.implementations r.steps 0 steps,
              zero-add (length r.steps),
              verified_shape q.mode q (length r.steps) q_strict,
            )
            refl
      strict-run tolerant e steps = absurd (cc)
      strict-run live e steps = absurd (cc)

      -- What the checked replay answers, from what the checks found.
      checked-IsFaithful :
          (o : Option (ReplayMismatch H))
          → check_source fuel v q r ≡ ok o
          → (out : ReplayResult H) → replay_checked v q r o ≡ ok out
          → out.outcome ≡ verified
          → IsFaithful v q r × (out ≡ completed_result q verified (length r.steps) [])
      unfolding check_source replay_checked
      checked-IsFaithful (some m) e out k won = absurd (failed-outcome q m 0 out k won)
      checked-IsFaithful none e out k won =
          let (steps, same) = mode-strict q.mode q_strict out k won in
          (source-IsFaithful (validate_source q r) refl e steps, same)

  no_selections :
      (q : ReplayRequest H)
      → q.mode ≡ strict
      → selection_shape q ≡ true
      → q.implementation_selections ≡ []
  unfolding selection_shape
  no_selections q e k = bare q.mode e q.implementation_selections (ground arith)
    where
      bare :
          (m : ReplayMode)
          → m ≡ strict
          → (is' : List (ReplayImplementationSelection H))
          → (is_strict m && not (is_nil is')) ≡ false
          → is' ≡ []
      bare strict e [] k = refl
      bare strict e (i ∷ is') k = absurd (cc)
      bare tolerant e is' k = absurd (cc)
      bare live e is' k = absurd (cc)

  module _ (fuel : ℕ) (v : ReplayService H) (q : ReplayRequest H) (q_strict : q.mode ≡ strict)
      (enough : (w s : ℕ) → length (session_events w s v.tables) < fuel) where
    pub loaded-IsFaithful :
        (o : Option (HistoricalReplay H))
        → v.load q.workspace_id q.source_session_id q.manifest ≡ o
        → (out : ReplayResult H) → replay_loaded fuel v q o ≡ ok out
        → out.outcome ≡ verified
        → (r : HistoricalReplay H) × (v.load q.workspace_id q.source_session_id q.manifest ≡ some r)
          × IsFaithful v q r
          × (out ≡ completed_result q verified (length r.steps) [])
    unfolding replay_loaded
    loaded-IsFaithful none e out k won =
        absurd (failed-outcome q (plain_mismatch historical_replay_unavailable none) 0 out k won)
    loaded-IsFaithful (some r) e out k won =
        let (o, found, k') = >>=-eq-ok (check_source fuel v q r) (replay_checked v q r) k in
        let (faithful, same) =
          checked-IsFaithful fuel v q r q_strict (enough r.workspace_id r.source_session_id) o found
            out k' won in
        (r, e, faithful, same)

    faithful-verified :
        (r : HistoricalReplay H)
        → v.load q.workspace_id q.source_session_id q.manifest ≡ some r
        → IsFaithful v q r
        → q.implementation_selections ≡ []
        → replay fuel v q ≡ ok (completed_result q verified (length r.steps) [])
    unfolding replay replay_loaded replay_checked
    faithful-verified r e f bare =
        let few = enough r.workspace_id r.source_session_id in
        let found = faithful-source fuel v q r few f bare in
        let ran = strict-run fuel v q r q_strict few q.mode q_strict f.steps_reproduced in
        rw (e, found) ran

    -- Where the fuel is above the number of events of each session, a strict request that
    -- selects no implementations is answered VERIFIED exactly where the history asked for is
    -- there and is faithful: the history is of that session and manifest, the ledger of the
    -- session verifies and has the event hashes of the history, the learning bundles verify, and
    -- the pinned implementation of each step that is not only recorded is deterministic and not
    -- external and gives the recorded output and status under the same identity.
    pub strict-verified :
        selection_shape q ≡ true
        → ((out : ReplayResult H) × (replay fuel v q ≡ ok out) × (out.outcome ≡ verified))
          ↔ (r : HistoricalReplay H) × (v.load q.workspace_id q.source_session_id q.manifest
              ≡ some r)
            × IsFaithful v q r
    unfolding replay
    strict-verified shape = (
      λ (out, k, won). let (r, e, f, _) = loaded-IsFaithful _ refl out k won in (r, e, f),
      λ (r, e, f). (
        completed_result q verified (length r.steps) [],
        faithful-verified r e f (no_selections q q_strict shape),
        refl,
      ),
    )
