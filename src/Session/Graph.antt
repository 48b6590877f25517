-- ===== src/Session/Graph.antt =====
-- The graph of the states that the table of transitions spans.
use agora_opencode.Prelude.{
  ==_iff, ap, ◌==◌, ◌∙◌, find?, sym, List, [], ◌∷◌, Option, some, arith, false, ==_refl, true, ℕ,
  ◌≡◌, refl,
}
use agora_opencode.Ledger.Append.{some-inj}
use agora_opencode.Session.States.{
  SessionLifecycleState, draft, initializing, running, waiting_for_agent, waiting_for_evidence,
  waiting_for_critique, waiting_for_simulation, waiting_for_human, evaluating_consensus, paused,
  failed_retryable, completed, partial_consensus_state, no_consensus, deadlock, failed, cancelled,
  ordinal, is_terminal, in_states, same_state, transitions,
}

-- The path of transitions from a state to another.
pub data Reaches : SessionLifecycleState → SessionLifecycleState → Type 0 where
  arrived : {s : SessionLifecycleState} → Reaches s s
  go :
      {s u : SessionLifecycleState} (t : SessionLifecycleState)
      → in_states t (transitions s) ≡ true
      → Reaches t u
      → Reaches s u

state_of : ℕ → Option SessionLifecycleState
state_of n = find? (λ s. ordinal s == n) all_states
  where
    all_states : List SessionLifecycleState
    all_states =
        draft ∷ initializing ∷ running ∷ waiting_for_agent ∷ waiting_for_evidence
        ∷ waiting_for_critique ∷ waiting_for_simulation ∷ waiting_for_human ∷ evaluating_consensus
        ∷ paused ∷ failed_retryable ∷ completed ∷ partial_consensus_state ∷ no_consensus ∷ deadlock
        ∷ failed ∷ cancelled ∷ []

state_of-ordinal : (s : SessionLifecycleState) → state_of (ordinal s) ≡ some s
unfolding state_of
state_of-ordinal draft = refl
state_of-ordinal initializing = refl
state_of-ordinal running = refl
state_of-ordinal waiting_for_agent = refl
state_of-ordinal waiting_for_evidence = refl
state_of-ordinal waiting_for_critique = refl
state_of-ordinal waiting_for_simulation = refl
state_of-ordinal waiting_for_human = refl
state_of-ordinal evaluating_consensus = refl
state_of-ordinal paused = refl
state_of-ordinal failed_retryable = refl
state_of-ordinal completed = refl
state_of-ordinal partial_consensus_state = refl
state_of-ordinal no_consensus = refl
state_of-ordinal deadlock = refl
state_of-ordinal failed = refl
state_of-ordinal cancelled = refl

pub same_state-eq : (a b : SessionLifecycleState) → same_state a b ≡ true → a ≡ b
unfolding same_state
same_state-eq a b e = some-inj (
    sym (state_of-ordinal a)
    ∙ ap state_of ((==_iff (ordinal a) (ordinal b)).0 e)
    ∙ state_of-ordinal b)

pub same_state_refl : (a : SessionLifecycleState) → same_state a a ≡ true
unfolding same_state
same_state_refl a = ==_refl (ordinal a)

-- The table of transitions lets no state follow a terminal one.
pub terminal-stuck :
    (s t : SessionLifecycleState) → is_terminal s ≡ true → in_states t (transitions s) ≡ false
unfolding is_terminal in_states same_state transitions
terminal-stuck completed t e = refl
terminal-stuck partial_consensus_state t e = refl
terminal-stuck no_consensus t e = refl
terminal-stuck deadlock t e = refl
terminal-stuck failed t e = refl
terminal-stuck cancelled t e = refl
terminal-stuck draft t e = cc
terminal-stuck initializing t e = cc
terminal-stuck running t e = cc
terminal-stuck waiting_for_agent t e = cc
terminal-stuck waiting_for_evidence t e = cc
terminal-stuck waiting_for_critique t e = cc
terminal-stuck waiting_for_simulation t e = cc
terminal-stuck waiting_for_human t e = cc
terminal-stuck evaluating_consensus t e = cc
terminal-stuck paused t e = cc
terminal-stuck failed_retryable t e = cc

Reaches-terminal : (s t : SessionLifecycleState) → Reaches s t → is_terminal s ≡ true → s ≡ t
Reaches-terminal s _ arrived e = refl
Reaches-terminal s u (go t step r) e = absurd (ground (arith, terminal-stuck s t e, step))

reached : {s : SessionLifecycleState} → in_states s (transitions running) ≡ true → Reaches draft s
unfolding in_states same_state transitions
reached {s = s} e = go initializing refl (go running refl (go s e arrived))

ended_by :
    (t : SessionLifecycleState)
    → in_states t (transitions evaluating_consensus) ≡ true
    → Reaches draft t
unfolding in_states same_state transitions
ended_by t e =
    go initializing refl (go running refl (go evaluating_consensus refl (go t e arrived)))

can_fail :
    (s : SessionLifecycleState)
    → in_states failed (transitions s) ≡ true
    → (t : SessionLifecycleState) × Reaches s t × (is_terminal t ≡ true)
unfolding is_terminal in_states same_state
can_fail s e = (failed, go failed e arrived, refl)

has_ended :
    (s : SessionLifecycleState)
    → is_terminal s ≡ true
    → (t : SessionLifecycleState) × Reaches s t × (is_terminal t ≡ true)
has_ended s e = (s, arrived, e)

-- Every state can be reached from DRAFT by transitions, and a terminal state can be reached from
-- every state.
pub every_state-lives :
    (s : SessionLifecycleState)
    → Reaches draft s × ((t : SessionLifecycleState) × Reaches s t × (is_terminal t ≡ true))
unfolding is_terminal in_states same_state transitions
every_state-lives draft = (arrived, can_fail draft refl)
every_state-lives initializing = (go initializing refl arrived, can_fail initializing refl)
every_state-lives running = (go initializing refl (go running refl arrived), can_fail running refl)
every_state-lives waiting_for_agent = (reached refl, can_fail waiting_for_agent refl)
every_state-lives waiting_for_evidence = (reached refl, can_fail waiting_for_evidence refl)
every_state-lives waiting_for_critique = (reached refl, can_fail waiting_for_critique refl)
every_state-lives waiting_for_simulation = (reached refl, can_fail waiting_for_simulation refl)
every_state-lives waiting_for_human = (reached refl, can_fail waiting_for_human refl)
every_state-lives evaluating_consensus = (reached refl, can_fail evaluating_consensus refl)
every_state-lives paused = (reached refl, can_fail paused refl)
every_state-lives failed_retryable = (reached refl, can_fail failed_retryable refl)
every_state-lives completed = (ended_by completed refl, has_ended completed refl)
every_state-lives partial_consensus_state =
    (ended_by partial_consensus_state refl, has_ended partial_consensus_state refl)
every_state-lives no_consensus = (ended_by no_consensus refl, has_ended no_consensus refl)
every_state-lives deadlock = (ended_by deadlock refl, has_ended deadlock refl)
every_state-lives failed = (ended_by failed refl, has_ended failed refl)
every_state-lives cancelled = (ended_by cancelled refl, has_ended cancelled refl)
