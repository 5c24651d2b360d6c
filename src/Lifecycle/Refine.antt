-- ===== src/Lifecycle/Refine.antt =====
-- What change_state (lifecycle_node_interface_impl.hpp) does to a node with the default state
-- machine: it follows the diagram by the codes of the user's callbacks.
use pmros.Base.{ℕ, Bool, true, Option, none, some, length, ◌≡◌, refl, arith}
use pmros.Lifecycle.{
  StateId, errorprocessing, TransitionId, register_transition, register_state, get_state, ret_ok,
  ret_error,
}
use pmros.Lifecycle.Default.{init_default_state_machine, register_transitions, register_rows}
use pmros.Lifecycle.Node.{
  CallbackReturn, cb_success, cb_failure, cb_error, Callback, as_return, Node, is_initialized,
  execute_callback, Change, change_state, run_callback, start_change, finish_change, with_machine,
}
use pmros.Lifecycle.Diagram.{
  IsPrimary, IsTransitional, begin, finish, Notes, machine_in, noted, default_map, current_default,
}
use pmros.Lifecycle.Steps.{begun, trigger-begin, trigger-finish}

abbrev pub Callbacks : Type 0
Callbacks = StateId → Option Callback

abbrev pub node_in : StateId → Notes → Callbacks → Node
node_in s notes callbacks = record {
  state_machine = machine_in s notes;
  has_services = true;
  cb_map = callbacks;
}

-- The code of the callback of a state, for a node that came from another.
abbrev pub code_at : Callbacks → StateId → StateId → CallbackReturn
code_at callbacks t previous = elim (callbacks t) [
  | none ↦ cb_success
  | some callback ↦ as_return (callback (some previous))
]

-- Where the codes of the callbacks lead from a transition state: an error runs a second callback.
abbrev pub settle : CallbackReturn → CallbackReturn → StateId → StateId
settle cb_error error_code t = finish errorprocessing error_code
settle c error_code t = finish t c

abbrev pub settle_notes : CallbackReturn → CallbackReturn → StateId → Notes → Notes
settle_notes cb_error error_code t notes =
    noted errorprocessing (finish errorprocessing error_code) (noted t errorprocessing notes)
settle_notes c error_code t notes = noted t (finish t c) notes

module _ (callbacks : Callbacks) where
  abbrev pub settled : CallbackReturn → CallbackReturn → StateId → Notes → Change
  settled c error_code t notes = record {
    ret = ret_ok;
    cb_return_code = some c;
    node = node_in (settle c error_code t) (settle_notes c error_code t notes) callbacks;
  }

  abbrev pub after_change : StateId → Notes → Option StateId → Change
  after_change s notes none = record {
    ret = ret_error;
    cb_return_code = none;
    node = node_in s notes callbacks;
  }
  after_change s notes (some t) =
      settled (code_at callbacks t s) (code_at callbacks errorprocessing s) t (noted s t notes)

pub is_initialized-node_in :
    (s : StateId) (notes : Notes) (callbacks : Callbacks)
    → is_initialized (node_in s notes callbacks) ≡ true
unfolding is_initialized default_map init_default_state_machine register_transitions register_rows
    register_transition register_state get_state
is_initialized-node_in s notes callbacks = refl

-- A change starts with a transition state, from which an error leads to errorprocessing.
abbrev Leads : Option StateId → Type 0
Leads none = Unit {0}
Leads (some t) = IsTransitional t × (finish t cb_error ≡ errorprocessing)

begin-Leads : (s : StateId) (id : TransitionId) → IsPrimary s → Leads (begin s id)
begin-Leads s id h = ground arith

module _ (publish : ℕ → Bool) (published : (n : ℕ) → publish n ≡ true) (callbacks : Callbacks) where
  run :
      (t s : StateId) (notes : Notes)
      → IsTransitional t
      → let c = code_at callbacks t s in
        run_callback publish (node_in t notes callbacks) (some s)
        ≡ (c, (ret_ok, machine_in (finish t c) (noted t (finish t c) notes)))
  unfolding execute_callback run_callback
  run t s notes h =
      rw
        (
          current_default t notes,
          trigger-finish publish t (code_at callbacks t s) notes h,
          published (length notes),
        )
        refl

  -- The end of a change, once the first callback's transition is made.
  end :
      (c : CallbackReturn) (t s : StateId) (notes : Notes)
      → finish t cb_error ≡ errorprocessing
      → finish_change publish
          (node_in (finish t c) (noted t (finish t c) notes) callbacks)
          c
          ret_ok
          (some s)
        ≡ settled callbacks c (code_at callbacks errorprocessing s) t notes
  unfolding finish_change
  end cb_success t s notes h = refl
  end cb_failure t s notes h = refl
  end cb_error t s notes h = rw (h, run errorprocessing s (noted t errorprocessing notes) tt) refl

  start :
      (t s : StateId) (notes : Notes)
      → IsTransitional t
      → finish t cb_error ≡ errorprocessing
      → start_change publish (node_in t notes callbacks) ret_ok (some s)
        ≡ settled callbacks (code_at callbacks t s) (code_at callbacks errorprocessing s) t notes
  unfolding start_change
  start t s notes h e = rw (run t s notes h) (end (code_at callbacks t s) t s notes e)

  proceed :
      (s : StateId) (notes : Notes) (o : Option StateId)
      → Leads o
      → start_change publish
          (with_machine (node_in s notes callbacks) (begun publish s notes o).1)
          (begun publish s notes o).0
          (some s)
        ≡ after_change callbacks s notes o
  unfolding start_change
  proceed s notes none h = refl
  proceed s notes (some t) (h, e) = rw (published (length notes)) (start t s (noted s t notes) h e)

  -- For a node with the default state machine that waits in a primary state, where every notification
  -- is published: a request for a transition that the diagram does not have there is an error, no
  -- callback runs and nothing changes. Any other request succeeds: the node goes to the state of the
  -- transition, whose callback runs, and from there where the code of the callback leads; on an error
  -- the callback of errorprocessing runs too, and its code leads on. Each step is notified, in order.
  pub change_state_lem :
      (s : StateId) (id : TransitionId) (notes : Notes)
      → IsPrimary s
      → change_state publish id (node_in s notes callbacks)
        ≡ after_change callbacks s notes (begin s id)
  unfolding change_state
  change_state_lem s id notes h =
      rw
        (
          is_initialized-node_in s notes callbacks,
          trigger-begin publish s id notes h,
          current_default s notes,
        )
        (proceed s notes (begin s id) (begin-Leads s id h))
