-- ===== src/Replays/Tolerant.antt =====
-- A tolerant replay of what a strict one verifies finds no difference.
use agora_opencode.Prelude.{
  sym, ℕ, ◌+◌, ◌<◌, ◌≡◌, refl, ap, ◌∙◌, true, some, List, [], ◌∷◌, arith, ok, length, all, All, inl,
  inr,
}
use native.Mathlib.Nat.{zero-add}
use text.Mathlib.TextEquality.{eq_iff}
use agora_opencode.Ledger.Defs.{Hashing, session_events}
use agora_opencode.Replays.Types.{
  HistoricalReplay, ReplayExecution, ReplayRequest, ReplayResult, ReplayStep, ReplayStepPolicy,
  recorded, deterministic, external, strict, tolerant, verified, matched, history_is_coherent,
  step_is_coherent, is_external, result_shape,
}
use agora_opencode.Replays.Registry.{ReplayImplementation}
use agora_opencode.Replays.Steps.{
  found, differences_from, tolerant_step, tolerant_run, tolerant_pinned, selected,
}
use agora_opencode.Replays.Service.{ReplayService, completed_result, checked}
use agora_opencode.Replays.Modes.{
  tolerant_loop, tolerant_replay, replay, replay_loaded, replay_checked,
}
use agora_opencode.Replays.Reproduced.{Ran, Reproduced, same_texts_iff, same_hashes_iff}
use agora_opencode.Replays.Strict.{faithful-source, loaded-IsFaithful}

module _ {H : Type 0} ⦃h : Hashing H⦄ where
  no_difference :
      (s : ReplayStep H) (x : ReplayExecution H)
      → x.output_hash ≡ s.expected_output_hash
      → x.status ≡ s.expected_status
      → differences_from s x.implementation x ≡ []
  unfolding differences_from
  no_difference s x same_output same_status =
      let a = x.implementation in
      simp
        (
          (eq_iff a.implementation_id a.implementation_id).1 refl,
          (eq_iff a.implementation_version a.implementation_version).1 refl,
          (same_texts_iff a.provider a.provider).1 refl,
          (same_texts_iff a.model a.model).1 refl,
          (same_hashes_iff a.configuration_hash a.configuration_hash).1 refl,
          (h.same_iff x.output_hash s.expected_output_hash).1 same_output,
          (same_texts_iff x.status s.expected_status).1 same_status,
        )
        refl

  module _ (impls : List (ReplayImplementation H)) (s : ReplayStep H) where
    Ran-tolerant : Ran impls s → tolerant_pinned impls [] s s.implementation ≡ ok (found 1 [])
    unfolding tolerant_run selected
    Ran-tolerant r = ground (
      arith,
      r.pinned,
      r.resolved,
      r.executed,
      r.same_key,
      no_difference s r.execution r.same_output r.same_status,
    )

    allowed :
        (p : ReplayStepPolicy)
        → s.policy ≡ p
        → step_is_coherent s ≡ true
        → is_external p ≡ true
        → s.tolerant_reexecution_allowed ≡ true
    unfolding step_is_coherent
    allowed p e c k = ground (arith, ap is_external e)

    Ran-step :
        (p : ReplayStepPolicy)
        → s.policy ≡ p
        → step_is_coherent s ≡ true
        → Ran impls s
        → tolerant_step impls [] s p ≡ ok (found 1 [])
    unfolding tolerant_step
    Ran-step recorded e c r = refl
    Ran-step deterministic e c r = Ran-tolerant r
    Ran-step external e c r = ground (arith, allowed external e c refl, Ran-tolerant r)

    Reproduced-tolerant :
        step_is_coherent s ≡ true
        → Reproduced impls s
        → tolerant_step impls [] s s.policy ≡ ok (found 1 [])
    unfolding tolerant_step
    Reproduced-tolerant c (inl e) = rw e refl
    Reproduced-tolerant c (inr r) = Ran-step s.policy refl c r

  Reproduced-loop :
      (impls : List (ReplayImplementation H)) (ss : List (ReplayStep H)) (n : ℕ)
      → all step_is_coherent ss ≡ true
      → All (Reproduced impls) ss
      → tolerant_loop impls [] ss n [] ≡ ok (n + length ss, found 0 [])
  unfolding tolerant_loop
  Reproduced-loop impls [] n c a = ap (λ k. ok (k, found 0 [])) (omega arith)
  Reproduced-loop impls (s ∷ ss) n c a = rw (Reproduced-tolerant impls s (ground arith) a.0) (
      Reproduced-loop impls ss (n + 1) (ground arith) a.1
      ∙ ap (λ k. ok (k, found 0 [])) (omega arith))

  -- The request that asks for a tolerant replay of the same history, with no selections.
  abbrev pub tolerantly : ReplayRequest H → ReplayRequest H
  tolerantly q = record q { mode = tolerant; implementation_selections = [] }

  tolerant-matched :
      (v : ReplayService H) (q : ReplayRequest H) (r : HistoricalReplay H)
      → history_is_coherent r ≡ true
      → All (Reproduced v.implementations) r.steps
      → tolerant_replay v (tolerantly q) r
        ≡ ok (completed_result (tolerantly q) matched (length r.steps) [])
  unfolding tolerant_replay history_is_coherent checked result_shape
  tolerant-matched v q r c a =
      rw (Reproduced-loop v.implementations r.steps 0 (ground arith) a, zero-add (length r.steps))
        refl

  -- Where the fuel is above the number of events of each session and the recorded history passed
  -- its validator, a request that a strict replay answers VERIFIED is answered MATCHED by a
  -- tolerant one without selections, with no difference and as many steps checked.
  pub strict-tolerant :
      (fuel : ℕ) (v : ReplayService H) (q : ReplayRequest H)
      → q.mode ≡ strict
      → ((w s : ℕ) → length (session_events w s v.tables) < fuel)
      → ((r : HistoricalReplay H)
          → v.load q.workspace_id q.source_session_id q.manifest ≡ some r
          → history_is_coherent r ≡ true)
      → (out : ReplayResult H) → replay fuel v q ≡ ok out
      → out.outcome ≡ verified
      → replay fuel v (tolerantly q)
        ≡ ok (completed_result (tolerantly q) matched out.checked_steps [])
  unfolding replay replay_loaded replay_checked
  strict-tolerant fuel v q q_strict enough coherent out ran won =
      let (r, e, f, same) = loaded-IsFaithful fuel v q q_strict enough _ refl out ran won in
      let found =
        faithful-source fuel v (tolerantly q) r (enough r.workspace_id r.source_session_id)
          (record {
            same_workspace = f.same_workspace;
            same_session = f.same_session;
            same_source = f.same_source;
            ledger_verifies = f.ledger_verifies;
            ledger_agrees = f.ledger_agrees;
            bundles_verify = f.bundles_verify;
            steps_reproduced = f.steps_reproduced;
          })
          refl in
      rw (e, found)
        (tolerant-matched v q r (coherent r e) f.steps_reproduced
          ∙ ap (λ k. ok (completed_result (tolerantly q) matched k []))
              (ap (λ (x : ReplayResult H). x.checked_steps) (sym same)))
