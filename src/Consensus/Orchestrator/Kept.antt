-- ===== src/Consensus/Orchestrator/Kept.antt =====
-- The tables of results and explanations as runs leave them, and what a flush ensures.
use agora_opencode.Prelude.{
  ◌==◌, ◌&&◌, ◌||◌, ℕ, ◌≡◌, ◌≢◌, sym, ap, subst, String, List, [], ◌∷◌, ok, some, Option, Mem, map,
  any, inl, inr, true, false, arith, Bool-cases, any-mem, mem-any, ok-injective,
}
use text.Mathlib.TextEquality.{eq_iff}
use agora_opencode.Consensus.Types.{Uuid, is_selectable}
use agora_opencode.Consensus.Registry.{ConsensusExplanation}
use agora_opencode.Consensus.Orchestrator.{
  is_none, ConsensusRunRecord, ResultStore, collides, refers, in_sessions, add_result,
  add_explanation,
}

abbrev pub slot : ConsensusRunRecord → Uuid × ℕ × String × String
slot r = (r.session_id, r.round, r.strategy, r.strategy_version)

abbrev pub record_keys : List ConsensusRunRecord → List (Uuid × Uuid)
record_keys = map (λ r. (r.workspace_id, r.id))

abbrev pub explanation_keys :
    {D : Type 0} → List (Uuid × Uuid × ConsensusExplanation D) → List (Uuid × Uuid)
explanation_keys = map (λ (w, i, e). (w, i))

-- Two records of different runs: other identifiers, and not one session, round, strategy and version.
abbrev pub AreApart : ConsensusRunRecord → ConsensusRunRecord → Type 0
AreApart r x = (r.id ≢ x.id) × (slot r ≢ slot x)

abbrev pub AllApart : List ConsensusRunRecord → Type 0
AllApart [] = Unit
AllApart (r ∷ rs) = ((x : ConsensusRunRecord) → Mem x rs → AreApart r x) × AllApart rs

collides-AreApart : (r x : ConsensusRunRecord) → collides r x ≡ false → AreApart r x
collides-AreApart r x e = (
  λ k. absurd (ground (arith, k, e)),
  λ k.
      let same_session : r.session_id ≡ x.session_id = ap (λ (a, b, c, v). a) k in
      let same_round : r.round ≡ x.round = ap (λ (a, b, c, v). b) k in
      let same_name = (eq_iff r.strategy x.strategy).1 (ap (λ (a, b, c, v). c) k) in
      let same_version =
        (eq_iff r.strategy_version x.strategy_version).1 (ap (λ (a, b, c, v). v) k) in
      absurd (ground (arith, same_session, same_round, same_name, same_version, e)),
)

-- The reference of a selected alternative.
refers-Mem :
    (alternatives : List (Uuid × Uuid × Uuid)) (workspace session a : Uuid) (o : Option Uuid)
    → refers alternatives workspace session o ≡ true
    → o ≡ some a
    → Mem (workspace, session, a) alternatives
refers-Mem alternatives workspace session a o e same =
    let ((w, s, b), m, k) = mem-any _ alternatives (rw same at e) in
    let eq : ◌≡◌ {A = Uuid × Uuid × Uuid} (w, s, b) (workspace, session, a) = ground arith in
    subst (λ (p : Uuid × Uuid × Uuid). Mem p alternatives) eq m

sessions-Mem :
    (sessions : List (Uuid × Uuid)) (workspace session : Uuid)
    → in_sessions sessions workspace session ≡ true
    → Mem (workspace, session) sessions
sessions-Mem sessions workspace session e =
    let ((w, s), m, k) = mem-any _ sessions e in
    let eq : ◌≡◌ {A = Uuid × Uuid} (w, s) (workspace, session) = ground arith in
    subst (λ (p : Uuid × Uuid). Mem p sessions) eq m

module _ {D : Type 0} where
  -- A row whose references are there, and whose selection is one of a selectable outcome.
  pub record IsPlaced (st : ResultStore D) (x : ConsensusRunRecord) : Type 0 where
    pub session : Mem (x.workspace_id, x.session_id) st.sessions
    pub alternative :
        (a : Uuid)
        → x.selected_alternative_id ≡ some a
        → Mem (x.workspace_id, x.session_id, a) st.alternatives × (is_selectable x.outcome ≡ true)

  -- The tables as runs leave them: one record for each session, round, strategy and version, each
  -- placed, and one explanation for each record.
  pub record IsKept (st : ResultStore D) : Type 0 where
    pub apart : AllApart st.results
    pub referred : (x : ConsensusRunRecord) → Mem x st.results → IsPlaced st x
    pub one_each : explanation_keys st.explanations ≡ record_keys st.results

  -- What a flush of a record adds, and what the constraints have ensured of it.
  pub add_result-IsPlaced :
      (r : ConsensusRunRecord) (st st' : ResultStore D)
      → add_result r st ≡ ok st'
      → (record st { results = r ∷ st.results } ≡ st')
        × ((x : ConsensusRunRecord) → Mem x st.results → AreApart r x)
        × IsPlaced st r
  unfolding add_result
  add_result-IsPlaced r st st' e = elim (Bool-cases (any (collides r) st.results)) [
    | inl taken ↦ absurd (ground (arith, e, taken))
    | inr fresh ↦ elim (Bool-cases (in_sessions st.sessions r.workspace_id r.session_id)) [
      | inr nowhere ↦ absurd (ground (arith, e, fresh, nowhere))
      | inl known ↦
          elim (Bool-cases
            (refers st.alternatives r.workspace_id r.session_id r.selected_alternative_id)) [
              | inr dangling ↦ absurd (ground (arith, e, fresh, known, dangling))
              | inl held ↦ elim (Bool-cases (r.round == 0)) [
                | inl zero ↦ absurd (ground (arith, e, fresh, known, held, zero))
                | inr positive ↦
                    elim (Bool-cases
                      (is_none r.selected_alternative_id || is_selectable r.outcome)) [
                        | inr unfit ↦
                            absurd (ground (arith, e, fresh, known, held, positive, unfit))
                        | inl fit ↦ (
                          ok-injective (rw (fresh, known, held, positive, fit) at e),
                          λ x m.
                              collides-AreApart r x
                                (ground (arith, any-mem (collides r) x st.results m)),
                          record {
                            session = sessions-Mem st.sessions r.workspace_id r.session_id known;
                            alternative = λ a k. (
                              refers-Mem st.alternatives r.workspace_id r.session_id a
                                  r.selected_alternative_id held k,
                              ground (arith, k, fit),
                            );
                          },
                        )
                      ]
              ]
            ]
    ]
  ]

  pub add_explanation-eq :
      (workspace id : Uuid) (x : ConsensusExplanation D) (st st' : ResultStore D)
      → add_explanation workspace id x st ≡ ok st'
      → record st { explanations = (workspace, id, x) ∷ st.explanations } ≡ st'
  unfolding add_explanation
  add_explanation-eq workspace id x st st' e =
      elim (Bool-cases (any (λ (w, i, y). i == id) st.explanations)) [
        | inl taken ↦ absurd (ground (arith, e, taken))
        | inr fresh ↦
            elim (Bool-cases (
              any (λ (r : ConsensusRunRecord). r.workspace_id == workspace && r.id == id)
                st.results)) [
                  | inr nowhere ↦ absurd (ground (arith, e, fresh, nowhere))
                  | inl known ↦ ok-injective (rw (fresh, known) at e)
                ]
      ]

  pub added-IsKept :
      (r : ConsensusRunRecord) (x : ConsensusExplanation D) (st : ResultStore D)
      → IsKept st
      → ((y : ConsensusRunRecord) → Mem y st.results → AreApart r y)
      → IsPlaced st r
      → IsKept (record st {
        results = r ∷ st.results;
        explanations = (r.workspace_id, r.id, x) ∷ st.explanations;
      })
  added-IsKept r x st kept fresh placed = record {
    apart = (fresh, kept.apart);
    referred = λ y m. elim m [
      | inl e ↦
          subst
            (IsPlaced (record st {
              results = r ∷ st.results;
              explanations = (r.workspace_id, r.id, x) ∷ st.explanations;
            }))
            (sym e) (record { session = placed.session; alternative = placed.alternative })
      | inr n ↦ record {
        session = (kept.referred y n).session;
        alternative = (kept.referred y n).alternative;
      }
    ];
    one_each = ap (λ ks. (r.workspace_id, r.id) ∷ ks) kept.one_each;
  }
