-- ===== src/Lifecycle/Tests.antt =====
-- Runs of the lifecycle node at concrete inputs.
use pmros.Base.{ℕ, Bool, true, none, some, List, [], ◌∷◌, ◌≡◌, refl, ltb, arith}
use pmros.Base.Results.{ok}
use pmros.Lifecycle.{
  unconfigured, inactive, active, finalized, configuring, activating, shuttingdown, errorprocessing,
  configure, activate, active_shutdown, other_transition, ret_ok, ret_error, valid, get_state,
  register_state, register_transition,
}
use pmros.Lifecycle.Default.{init_default_state_machine, register_transitions, register_rows}
use pmros.Lifecycle.Node.{
  cb_success, cb_failure, cb_error, returns, throws, change_state, current_id, on_change_state,
  is_initialized,
}
use pmros.Lifecycle.Services.{
  on_get_available_states, on_get_available_transitions, on_get_transition_graph, described_states,
  described_transitions, services_lem,
}
use pmros.Lifecycle.Diagram.{machine_in, noted, default_map, IsPrimary}
use pmros.Lifecycle.Refine.{code_at, Callbacks, node_in, change_state_lem}
use pmros.Lifecycle.Runs.{Request, change_all, fresh_node, change_all-IsPrimary}
use pmros.Lifecycle.Safety.{
  state_after-next, active_needs_activate, change_state_unpublished, on_change_state_lem,
}

always : ℕ → Bool
always n = true

-- The callback of shuttingdown throws, and that of errorprocessing fails; the others succeed.
abbrev callbacks : Callbacks
callbacks shuttingdown = some (λ previous. throws)
callbacks errorprocessing = some (λ previous. returns cb_failure)
callbacks s = some (λ previous. returns cb_success)

change_state_example : change_state always active_shutdown (node_in active [] callbacks) ≡ record {
  ret = ret_ok;
  cb_return_code = some cb_error;
  node =
      node_in finalized
        (noted errorprocessing finalized
          (noted shuttingdown errorprocessing (noted active shuttingdown [])))
        callbacks;
}
unfolding always
change_state_example = change_state_lem always (λ n. refl) callbacks active active_shutdown [] tt

abbrev requests : List Request
requests = (configure, callbacks) ∷ (activate, callbacks) ∷ (other_transition 9, callbacks) ∷ []

change_all_example :
    IsPrimary active
    × (current_id (change_all always requests (fresh_node callbacks)).state_machine ≡ some active)
unfolding always
change_all_example = change_all-IsPrimary always (λ n. refl) requests callbacks

active_after :
    current_id (change_state always activate (node_in inactive [] callbacks)).node.state_machine
    ≡ some active
unfolding always
active_after = state_after-next always callbacks inactive [] activate (λ n. refl) tt

active_example :
    (inactive ≡ inactive)
    × (activate ≡ activate)
    × (code_at callbacks activating inactive ≡ cb_success)
unfolding always
active_example =
    active_needs_activate always callbacks inactive [] activate (λ n. refl) tt active_after
      (λ e. cc)

unpublished_example :
    change_state (λ n. ltb 0 n) configure (node_in unconfigured [] callbacks) ≡ record {
      ret = ret_error;
      cb_return_code = none;
      node = node_in configuring (noted unconfigured configuring []) callbacks;
    }
unpublished_example =
    change_state_unpublished (λ n. ltb 0 n) callbacks unconfigured configuring [] configure refl tt
      refl

on_change_state_example :
    on_change_state always cb_success (other_transition 9) [] (node_in inactive [] callbacks)
    ≡ (ok true, node_in inactive [] callbacks)
unfolding always
on_change_state_example =
    on_change_state_lem always callbacks cb_success inactive [] (other_transition 9) (λ n. refl) tt

services_example :
    (on_get_available_states 30 (node_in active [] callbacks)
      ≡ ok (described_states default_map.states))
    × (on_get_available_transitions 30 (node_in active [] callbacks)
        ≡ ok (described_transitions default_map (valid (machine_in active []))))
    × (on_get_transition_graph 30 (node_in active [] callbacks)
        ≡ ok (described_transitions default_map default_map.transitions))
unfolding is_initialized default_map init_default_state_machine register_transitions register_rows
    register_transition register_state get_state
services_example =
    services_lem 30 (node_in active [] callbacks) refl (omega arith) (omega arith) (omega arith)
