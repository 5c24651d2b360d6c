-- ===== src/Lifecycle/Steps.antt =====
-- The transitions of the default state machine (rcl_lifecycle.c), by the diagram.
use pmros.Base.{ℕ, Bool, true, Option, none, some, length, ◌≡◌, refl, arith, if◌then◌else◌}
use pmros.Lifecycle.{
  StateId, unconfigured, inactive, active, finalized, configuring, cleaningup, shuttingdown,
  activating, deactivating, errorprocessing, TransitionId, other_transition, StateMachine, Ret,
  ret_ok, ret_error, get_transition_by_id, get_transition_by_label, trigger,
  trigger_transition_by_id, trigger_transition_by_label,
}
use pmros.Lifecycle.Node.{CallbackReturn, cb_success, cb_failure, cb_error, label_for}
use pmros.Lifecycle.Diagram.{
  IsPrimary, IsTransitional, begin, finish, Notes, machine_in, noted, valid_default,
}

module _ (publish : ℕ → Bool) where
  abbrev pub begun : StateId → Notes → Option StateId → Ret × StateMachine
  begun s notes none = (ret_error, machine_in s notes)
  begun s notes (some t) =
      (if publish (length notes) then ret_ok else ret_error, machine_in t (noted s t notes))

  pub trigger-begin :
      (s : StateId) (id : TransitionId) (notes : Notes)
      → IsPrimary s
      → trigger_transition_by_id publish (machine_in s notes) id true ≡ begun s notes (begin s id)
  unfolding trigger_transition_by_id trigger get_transition_by_id
  trigger-begin unconfigured (other_transition n) notes h =
      rw (valid_default unconfigured notes) ground arith
  trigger-begin inactive (other_transition n) notes h =
      rw (valid_default inactive notes) ground arith
  trigger-begin active (other_transition n) notes h = rw (valid_default active notes) ground arith
  trigger-begin finalized (other_transition n) notes h =
      rw (valid_default finalized notes) ground arith
  trigger-begin unconfigured _ notes h = rw (valid_default unconfigured notes) refl
  trigger-begin inactive _ notes h = rw (valid_default inactive notes) refl
  trigger-begin active _ notes h = rw (valid_default active notes) refl
  trigger-begin finalized _ notes h = rw (valid_default finalized notes) refl
  trigger-begin _ _ notes h = absurd h

  pub trigger-finish :
      (t : StateId) (c : CallbackReturn) (notes : Notes)
      → IsTransitional t
      → trigger_transition_by_label publish (machine_in t notes) (label_for c) true ≡ (
        if publish (length notes) then ret_ok else ret_error,
        machine_in (finish t c) (noted t (finish t c) notes),
      )
  unfolding trigger_transition_by_label trigger get_transition_by_label
  trigger-finish configuring cb_success notes h = rw (valid_default configuring notes) refl
  trigger-finish configuring cb_failure notes h = rw (valid_default configuring notes) refl
  trigger-finish configuring cb_error notes h = rw (valid_default configuring notes) refl
  trigger-finish cleaningup cb_success notes h = rw (valid_default cleaningup notes) refl
  trigger-finish cleaningup cb_failure notes h = rw (valid_default cleaningup notes) refl
  trigger-finish cleaningup cb_error notes h = rw (valid_default cleaningup notes) refl
  trigger-finish shuttingdown cb_success notes h = rw (valid_default shuttingdown notes) refl
  trigger-finish shuttingdown cb_failure notes h = rw (valid_default shuttingdown notes) refl
  trigger-finish shuttingdown cb_error notes h = rw (valid_default shuttingdown notes) refl
  trigger-finish activating cb_success notes h = rw (valid_default activating notes) refl
  trigger-finish activating cb_failure notes h = rw (valid_default activating notes) refl
  trigger-finish activating cb_error notes h = rw (valid_default activating notes) refl
  trigger-finish deactivating cb_success notes h = rw (valid_default deactivating notes) refl
  trigger-finish deactivating cb_failure notes h = rw (valid_default deactivating notes) refl
  trigger-finish deactivating cb_error notes h = rw (valid_default deactivating notes) refl
  trigger-finish errorprocessing cb_success notes h = rw (valid_default errorprocessing notes) refl
  trigger-finish errorprocessing cb_failure notes h = rw (valid_default errorprocessing notes) refl
  trigger-finish errorprocessing cb_error notes h = rw (valid_default errorprocessing notes) refl
  trigger-finish _ _ notes h = absurd h
