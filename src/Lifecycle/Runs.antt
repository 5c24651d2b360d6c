-- ===== src/Lifecycle/Runs.antt =====
-- Sequences of requests to a lifecycle node (lifecycle_node_interface_impl.hpp).
use pmros.Base.{ℕ, Bool, true, Option, none, some, List, [], ◌∷◌, ◌≡◌, refl, arith}
use pmros.Lifecycle.{StateId, unconfigured, errorprocessing, TransitionId}
use pmros.Lifecycle.Default.{init_default_state_machine}
use pmros.Lifecycle.Node.{CallbackReturn, Node, change_state, current_id}
use pmros.Lifecycle.Diagram.{IsPrimary, begin, Notes, noted, current_default, init_default}
use pmros.Lifecycle.Refine.{
  Callbacks, node_in, code_at, settle, settle_notes, after_change, change_state_lem,
}

-- A request, with the callbacks that are registered when it is made.
abbrev pub Request : Type 0
Request = TransitionId × Callbacks

abbrev pub with_callbacks : Node → Callbacks → Node
with_callbacks n callbacks = record n { cb_map = callbacks }

unfoldable pub change_all : (ℕ → Bool) → List Request → Node → Node
change_all publish [] n = n
change_all publish ((id, callbacks) ∷ requests) n =
    change_all publish requests (change_state publish id (with_callbacks n callbacks)).node

abbrev pub fresh_node : Callbacks → Node
fresh_node callbacks = record {
  state_machine = init_default_state_machine.1;
  has_services = true;
  cb_map = callbacks;
}

-- Where a request leads, as far as a user sees it.
abbrev pub next : Callbacks → StateId → Option StateId → StateId
next callbacks s none = s
next callbacks s (some t) = settle (code_at callbacks t s) (code_at callbacks errorprocessing s) t

abbrev pub visit : StateId → List Request → StateId
visit s [] = s
visit s ((id, callbacks) ∷ requests) = visit (next callbacks s (begin s id)) requests

abbrev PrimaryTo : Callbacks → StateId → Option StateId → Type 0
PrimaryTo callbacks s o = IsPrimary (next callbacks s o)

settle-IsPrimary :
    (s : StateId) (id : TransitionId) (c e : CallbackReturn) (t : StateId)
    → begin s id ≡ some t
    → IsPrimary (settle c e t)
settle-IsPrimary s id c e t h = ground arith

next-IsPrimary :
    (callbacks : Callbacks) (s : StateId) (id : TransitionId) (o : Option StateId)
    → begin s id ≡ o
    → IsPrimary s
    → IsPrimary (next callbacks s o)
next-IsPrimary callbacks s id none e h = h
next-IsPrimary callbacks s id (some t) e h =
    settle-IsPrimary s id (code_at callbacks t s) (code_at callbacks errorprocessing s) t e

pub after_change-next :
    (callbacks : Callbacks) (s : StateId) (notes : Notes) (o : Option StateId)
    → (notes' : Notes) × ((after_change callbacks s notes o).node
        ≡ node_in (next callbacks s o) notes' callbacks)
after_change-next callbacks s notes none = (notes, refl)
after_change-next callbacks s notes (some t) = (
  settle_notes (code_at callbacks t s) (code_at callbacks errorprocessing s) t (noted s t notes),
  refl,
)

module _ (publish : ℕ → Bool) (published : (n : ℕ) → publish n ≡ true) where
  run_from :
      (requests : List Request) (s : StateId) (notes : Notes) (callbacks : Callbacks)
      → IsPrimary s
      → (notes' : Notes) × (callbacks' : Callbacks) × (change_all publish requests
            (node_in s notes callbacks)
          ≡ node_in (visit s requests) notes' callbacks')
        × IsPrimary (visit s requests)
  unfolding change_all
  run_from [] s notes callbacks h = (notes, callbacks, refl, h)
  run_from ((id, new) ∷ requests) s notes callbacks h =
      let (notes', e) = after_change-next new s notes (begin s id) in
      let (notes'', callbacks', ih, h') =
        run_from requests (next new s (begin s id)) notes' new
          (next-IsPrimary new s id (begin s id) refl h) in
      (notes'', callbacks', rw (change_state_lem publish published new s id notes h, e) ih, h')

  -- After any requests, with any callbacks, a new node whose notifications are all published is in
  -- the state that the diagram gives, and this is unconfigured, inactive, active or finalized, never
  -- a state of a transition.
  pub change_all-IsPrimary :
      (requests : List Request) (callbacks : Callbacks)
      → IsPrimary (visit unconfigured requests)
        × (current_id (change_all publish requests (fresh_node callbacks)).state_machine
            ≡ some (visit unconfigured requests))
  change_all-IsPrimary requests callbacks =
      let (notes, callbacks', e, h) = run_from requests unconfigured [] callbacks tt in
      (h, rw (init_default, e) (current_default (visit unconfigured requests) notes))
