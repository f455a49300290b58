-- ===== src/Tests/States.antt =====
-- Transitions of a runtime.
use dovik.Prelude.{◌≤◌, ◌≡◌, refl, ◌↔◌, none, some, List, [], ◌∷◌, length}
use dovik.Supervision.State.{
  ProcessState, stopped, running, stopping, ProcessRuntime, TransitionError, new_process_runtime,
  transition,
}
use dovik.Supervision.State.Graph.{◌⟶◌, Succeeds, transition_lem, transitions_bounded}

abbrev fresh : ProcessRuntime
fresh = new_process_runtime "shop" "web" "one"

transition_lem_example :
    ((transition fresh running).1 ≡ none ↔ (fresh.state ⟶ running))
    × ((transition fresh running).1 ≡ none
        → (transition fresh running).0 ≡ record fresh { state = running })
    × ((e : TransitionError)
        → (transition fresh running).1 ≡ some e
        → (transition fresh running).0 ≡ fresh)
transition_lem_example = transition_lem fresh running

abbrev lifecycle : List ProcessState
lifecycle = running ∷ stopping ∷ stopped ∷ []

lifecycle-Succeeds : Succeeds fresh lifecycle
unfolding transition new_process_runtime
lifecycle-Succeeds = (refl, (refl, (refl, tt)))

transitions_bounded_example : length lifecycle ≤ 3
transitions_bounded_example = transitions_bounded fresh lifecycle lifecycle-Succeeds
