-- ===== src/Supervision/State/Graph.antt =====
-- The diagram that `Transition` follows, as a relation, and what holds along it.
use dovik.Prelude.{
  ℕ, ◌+◌, ◌≤◌, ◌≡◌, refl, ◌↔◌, true, false, none, some, List, [], ◌∷◌, length, arith,
}
use dovik.Supervision.State.{
  ProcessState, stopped, starting, running, stopping, exited, failed, unknown, is_valid, is_active,
  is_terminal, can_transition, ProcessRuntime, TransitionError, transition,
}

infix 40 ◌⟶◌
pub data ◌⟶◌ : ProcessState → ProcessState → Type 0 where
  started : starting ⟶ running
  cancelled : starting ⟶ stopping
  start_failed : starting ⟶ failed
  stop_requested : running ⟶ stopping
  exits : running ⟶ exited
  crashes : running ⟶ failed
  stops : stopping ⟶ stopped
  stop_failed : stopping ⟶ failed

ruleset edges =
    (started, cancelled, start_failed, stop_requested, exits, crashes, stops, stop_failed)

edge-can_transition : {s t : ProcessState} → s ⟶ t → can_transition s t ≡ true
unfolding can_transition
edge-can_transition started = refl
edge-can_transition cancelled = refl
edge-can_transition start_failed = refl
edge-can_transition stop_requested = refl
edge-can_transition exits = refl
edge-can_transition crashes = refl
edge-can_transition stops = refl
edge-can_transition stop_failed = refl

can_transition-edge : (s t : ProcessState) → can_transition s t ≡ true → s ⟶ t
unfolding can_transition
can_transition-edge starting running h = started
can_transition-edge starting stopping h = cancelled
can_transition-edge starting failed h = start_failed
can_transition-edge running stopping h = stop_requested
can_transition-edge running exited h = exits
can_transition-edge running failed h = crashes
can_transition-edge stopping stopped h = stops
can_transition-edge stopping failed h = stop_failed
can_transition-edge s t h = cc

-- The states along an edge are the model's own; the check of the two states never fails first.
edge-valid : {s t : ProcessState} → s ⟶ t → (is_valid s ≡ true) × (is_valid t ≡ true)
unfolding is_valid
edge-valid started = (refl, refl)
edge-valid cancelled = (refl, refl)
edge-valid start_failed = (refl, refl)
edge-valid stop_requested = (refl, refl)
edge-valid exits = (refl, refl)
edge-valid crashes = (refl, refl)
edge-valid stops = (refl, refl)
edge-valid stop_failed = (refl, refl)

can_transition-of_ok :
    (r : ProcessRuntime) (next : ProcessState)
    → (transition r next).1 ≡ none
    → can_transition r.state next ≡ true
unfolding transition
can_transition-of_ok r next h = ground arith

ok-of_can_transition :
    (r : ProcessRuntime) (next : ProcessState)
    → is_valid r.state ≡ true
    → is_valid next ≡ true
    → can_transition r.state next ≡ true
    → transition r next ≡ (record r { state = next }, none)
unfolding transition
ok-of_can_transition r next v w h = ground arith

pub transition-ok :
    (r : ProcessRuntime) (next : ProcessState)
    → r.state ⟶ next
    → transition r next ≡ (record r { state = next }, none)
transition-ok r next e =
    ok-of_can_transition r next (edge-valid e).0 (edge-valid e).1 (edge-can_transition e)

pub transition-edge :
    (r : ProcessRuntime) (next : ProcessState) → (transition r next).1 ≡ none → r.state ⟶ next
transition-edge r next h = can_transition-edge r.state next (can_transition-of_ok r next h)

transition_unchanged :
    (r : ProcessRuntime) (next : ProcessState) (e : TransitionError)
    → (transition r next).1 ≡ some e
    → (transition r next).0 ≡ r
unfolding transition
transition_unchanged r next e h = ground arith

pub transition-at :
    (r : ProcessRuntime) (s next : ProcessState)
    → r.state ≡ s
    → s ⟶ next
    → transition r next ≡ (record r { state = next }, none)
transition-at r s next e edge =
    ok-of_can_transition r next (rw e (edge-valid edge).0) (edge-valid edge).1
      (rw e (edge-can_transition edge))

module _ (r : ProcessRuntime) (s next : ProcessState) (e : r.state ≡ s) (edge : s ⟶ next) where
  pub transition_runtime : (transition r next).0 ≡ record r { state = next }
  transition_runtime = rw (transition-at r s next e edge)

  pub transition_error : (transition r next).1 ≡ none
  transition_error = rw (transition-at r s next e edge)

-- `Transition` succeeds exactly along an edge of the diagram; it then sets the state and no other
-- field, and otherwise it leaves the whole runtime as it was.
pub transition_lem :
    (r : ProcessRuntime) (next : ProcessState)
    → ((transition r next).1 ≡ none ↔ (r.state ⟶ next))
      × ((transition r next).1 ≡ none → (transition r next).0 ≡ record r { state = next })
      × ((e : TransitionError) → (transition r next).1 ≡ some e → (transition r next).0 ≡ r)
transition_lem r next = (
  (transition-edge r next, λ e. rw (transition-ok r next e)),
  λ h. rw (transition-ok r next (transition-edge r next h)),
  transition_unchanged r next,
)

-- Of the model's own states each is active or terminal and not both, and the terminal ones are
-- those with no edge out: a state is terminal exactly when it is valid and nothing follows it.
pub terminal_iff :
    (s : ProcessState)
    → (is_terminal s ≡ true
        ↔ ((is_valid s ≡ true) × ((t : ProcessState) → can_transition s t ≡ false)))
      × (is_valid s ≡ true → (is_active s ≡ true) ↔ (is_terminal s ≡ false))
unfolding is_terminal is_valid is_active can_transition
terminal_iff stopped = ((λ _. (refl, λ t. refl), λ _. refl), λ _. ground arith)
terminal_iff exited = ((λ _. (refl, λ t. refl), λ _. refl), λ _. ground arith)
terminal_iff failed = ((λ _. (refl, λ t. refl), λ _. refl), λ _. ground arith)
terminal_iff starting =
    ((λ h. cc, λ h. absurd (let e : true ≡ false = h.1 running in cc)), λ _. ground arith)
terminal_iff running =
    ((λ h. cc, λ h. absurd (let e : true ≡ false = h.1 exited in cc)), λ _. ground arith)
terminal_iff stopping =
    ((λ h. cc, λ h. absurd (let e : true ≡ false = h.1 stopped in cc)), λ _. ground arith)
terminal_iff (unknown text) = ((λ h. cc, λ h. absurd (cc (h.0))), λ h. cc)

-- how many edges may still follow
abbrev rank : ProcessState → ℕ
rank starting = 3
rank running = 2
rank stopping = 1
rank _ = 0

edge-rank : {s t : ProcessState} → s ⟶ t → rank t + 1 ≤ rank s
edge-rank started = omega arith
edge-rank cancelled = omega arith
edge-rank start_failed = omega arith
edge-rank stop_requested = omega arith
edge-rank exits = omega arith
edge-rank crashes = omega arith
edge-rank stops = omega arith
edge-rank stop_failed = omega arith

rank_bound : (s : ProcessState) → rank s ≤ 3
rank_bound starting = omega arith
rank_bound _ = omega arith

-- `Transition` to each of the states in turn reports no error.
abbrev pub Succeeds : ProcessRuntime → List ProcessState → Type 0
Succeeds r [] = Unit {0}
Succeeds r (next ∷ rest) = ((transition r next).1 ≡ none) × Succeeds (transition r next).0 rest

transitions-le-rank :
    (r : ProcessRuntime) (targets : List ProcessState)
    → Succeeds r targets
    → length targets ≤ rank r.state
transitions-le-rank r [] h = omega arith
transitions-le-rank r (next ∷ rest) h =
    let edge = transition-edge r next h.0 in
    let later = transitions-le-rank (transition r next).0 rest h.1 in
    let moved = rw (transition_runtime r r.state next refl edge) at later in
    omega (arith, edge-rank edge, moved)

-- A runtime makes at most three successful transitions, whatever state it starts in: no lifecycle
-- has a cycle.
pub transitions_bounded :
    (r : ProcessRuntime) (targets : List ProcessState) → Succeeds r targets → length targets ≤ 3
transitions_bounded r targets h = omega (arith, transitions-le-rank r targets h, rank_bound r.state)
