-- ===== src/Lifecycle/Safety.antt =====
-- What a change of state of a lifecycle node cannot do, and its errors
-- (lifecycle_node_interface_impl.hpp).
use pmros.Base.{ℕ, Bool, true, false, Option, none, some, [], length, ◌≡◌, ◌≢◌, refl, arith, subst}
use pmros.Base.Results.{Result, ok}
use pmros.Lifecycle.{
  StateId, inactive, active, activating, errorprocessing, TransitionId, activate, ret_error,
}
use pmros.Lifecycle.Node.{
  CallbackReturn, cb_success, is_success, Node, change_state, current_id, on_change_state,
  start_change, answer_change,
}
use pmros.Lifecycle.Diagram.{IsPrimary, begin, Notes, noted, current_default}
use pmros.Lifecycle.Steps.{trigger-begin}
use pmros.Lifecycle.Refine.{
  Callbacks, node_in, code_at, settle, after_change, change_state_lem, is_initialized-node_in,
}
use pmros.Lifecycle.Runs.{next, after_change-next}

some_inj {ℓ} : {A : Type ℓ} {x y : A} → some x ≡ some y → x ≡ y
some_inj e = cc

active_from :
    (s : StateId) (id : TransitionId) (c e : CallbackReturn) (t : StateId)
    → begin s id ≡ some t
    → settle c e t ≡ active
    → s ≢ active
    → (s ≡ inactive) × (id ≡ activate) × (t ≡ activating) × (c ≡ cb_success)
active_from s id c e t h g d = ground arith

next_active :
    (callbacks : Callbacks) (s : StateId) (id : TransitionId) (o : Option StateId)
    → begin s id ≡ o
    → next callbacks s o ≡ active
    → s ≢ active
    → (s ≡ inactive) × (id ≡ activate) × (code_at callbacks activating s ≡ cb_success)
next_active callbacks s id none h e d = absurd (d e)
next_active callbacks s id (some t) h e d =
    let (p, q, r, c) =
      active_from s id (code_at callbacks t s) (code_at callbacks errorprocessing s) t h e d in
    (p, q, subst (λ u. code_at callbacks u s ≡ cb_success) r c)

module _ (publish : ℕ → Bool) where
  abbrev pub state_after : TransitionId → Node → Option StateId
  state_after id n = current_id (change_state publish id n).node.state_machine

  pub state_after-next :
      (callbacks : Callbacks) (s : StateId) (notes : Notes) (id : TransitionId)
      → ((n : ℕ) → publish n ≡ true)
      → IsPrimary s
      → state_after id (node_in s notes callbacks) ≡ some (next callbacks s (begin s id))
  state_after-next callbacks s notes id published h =
      let (notes', e) = after_change-next callbacks s notes (begin s id) in
      rw (change_state_lem publish published callbacks s id notes h, e)
        (current_default (next callbacks s (begin s id)) notes')

  -- Where every notification is published, a node that waits in another state than active is active
  -- after a request only if it was inactive, the request was activate, and the callback of
  -- activating answered success or there is none.
  pub active_needs_activate :
      (callbacks : Callbacks) (s : StateId) (notes : Notes) (id : TransitionId)
      → ((n : ℕ) → publish n ≡ true)
      → IsPrimary s
      → state_after id (node_in s notes callbacks) ≡ some active
      → s ≢ active
      → (s ≡ inactive) × (id ≡ activate) × (code_at callbacks activating s ≡ cb_success)
  active_needs_activate callbacks s notes id published h e d =
      next_active callbacks s id (begin s id) refl
        (some_inj (rw (← state_after-next callbacks s notes id published h) e)) d

  -- Where the notification of the first transition of a request is not published, the request is an
  -- error, no callback runs, and the node stays in the state of the transition.
  pub change_state_unpublished :
      (callbacks : Callbacks) (s t : StateId) (notes : Notes) (id : TransitionId)
      → publish (length notes) ≡ false
      → IsPrimary s
      → begin s id ≡ some t
      → change_state publish id (node_in s notes callbacks) ≡ record {
        ret = ret_error;
        cb_return_code = none;
        node = node_in t (noted s t notes) callbacks;
      }
  unfolding change_state start_change
  change_state_unpublished callbacks s t notes id unpublished h b =
      rw
        (
          is_initialized-node_in s notes callbacks,
          trigger-begin publish s id notes h,
          b,
          unpublished,
        )
        refl

  answer-after_change :
      (callbacks : Callbacks) (before : CallbackReturn) (s : StateId) (notes : Notes)
      (o : Option StateId)
      → ◌≡◌ {A = Result Bool × Node} (answer_change before (after_change callbacks s notes o)) (
        ok (elim o [ none ↦ is_success before | some t ↦ is_success (code_at callbacks t s) ]),
        (after_change callbacks s notes o).node,
      )
  answer-after_change callbacks before s notes none = refl
  answer-after_change callbacks before s notes (some t) = refl

  -- A request by number to the service, where the notifications are published: it answers whether
  -- the callback answered success, where the transition is one of the diagram; where it is not, it
  -- answers what the uninitialised variable `before` holds, so it may report success, and the node
  -- does not change.
  pub on_change_state_lem :
      (callbacks : Callbacks) (before : CallbackReturn) (s : StateId) (notes : Notes)
      (id : TransitionId)
      → ((n : ℕ) → publish n ≡ true)
      → IsPrimary s
      → on_change_state publish before id [] (node_in s notes callbacks) ≡ (
        ok (elim (begin s id) [
          | none ↦ is_success before
          | some t ↦ is_success (code_at callbacks t s)
        ]),
        (after_change callbacks s notes (begin s id)).node,
      )
  unfolding on_change_state
  on_change_state_lem callbacks before s notes id published h =
      rw
        (
          is_initialized-node_in s notes callbacks,
          change_state_lem publish published callbacks s id notes h,
        )
        (answer-after_change callbacks before s notes (begin s id))
