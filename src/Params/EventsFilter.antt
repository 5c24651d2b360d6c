-- ===== src/Params/EventsFilter.antt =====
-- ParameterEventsFilter (rclcpp/rclcpp/src/rclcpp/parameter_events_filter.cpp).
use pmros.Base.{
  Bool, true, false, ◌&&◌, any, if◌then◌else◌, List, [], ◌∷◌, ◌++◌, map, ◌≡◌, refl, ◌∙◌, arith, ap₂,
  sym,
}
use pmros.Base.Bytes.{Bytes, eq_bytes}
use pmros.Params.{Parameter, ParameterEvent}

pub data EventType : Type 0 where
  event_new event_deleted event_changed : EventType

abbrev pub same_type : EventType → EventType → Bool
same_type event_new event_new = true
same_type event_deleted event_deleted = true
same_type event_changed event_changed = true
same_type a b = false

module _ {ℓ} {D : Type ℓ} where
  -- std::find over the names, for each parameter in turn.
  abbrev pub of_interest :
      EventType → List Bytes → List (Parameter D) → List (EventType × Parameter D)
  of_interest t names [] = []
  of_interest t names (p ∷ ps) =
      if any (λ name. eq_bytes name p.name) names
      then (t, p) ∷ of_interest t names ps
      else of_interest t names ps

  abbrev pub if_listed :
      EventType → List EventType → List Bytes → List (Parameter D) → List (EventType × Parameter D)
  if_listed t types names ps = if any (same_type t) types then of_interest t names ps else []

  unfoldable pub filter_events :
      ParameterEvent D → List Bytes → List EventType → List (EventType × Parameter D)
  filter_events event names types =
      if_listed event_new types names event.new_parameters
      ++ if_listed event_changed types names event.changed_parameters
      ++ if_listed event_deleted types names event.deleted_parameters

  -- One pass over all changes of the event.
  abbrev pub keep :
      (EventType × Parameter D → Bool)
      → List (EventType × Parameter D)
      → List (EventType × Parameter D)
  keep test [] = []
  keep test (e ∷ es) = if test e then e ∷ keep test es else keep test es

  abbrev pub tagged : EventType → List (Parameter D) → List (EventType × Parameter D)
  tagged t ps = map (λ p. (t, p)) ps

  abbrev pub all_changes : ParameterEvent D → List (EventType × Parameter D)
  all_changes event =
      tagged event_new event.new_parameters
      ++ tagged event_changed event.changed_parameters
      ++ tagged event_deleted event.deleted_parameters

  abbrev pub is_wanted : List Bytes → List EventType → EventType × Parameter D → Bool
  is_wanted names types (t, p) = any (same_type t) types && any (λ name. eq_bytes name p.name) names

  keep-append :
      (test : EventType × Parameter D → Bool) (xs ys : List (EventType × Parameter D))
      → keep test (xs ++ ys) ≡ keep test xs ++ keep test ys
  keep-append test [] ys = refl
  keep-append test (x ∷ xs) ys = ground (arith, keep-append test xs ys)

  keep-tagged :
      (names : List Bytes) (types : List EventType) (t : EventType) (ps : List (Parameter D))
      → keep (is_wanted names types) (tagged t ps) ≡ if_listed t types names ps
  keep-tagged names types t [] = ground arith
  keep-tagged names types t (p ∷ ps) = ground (arith, keep-tagged names types t ps)

  -- The filter keeps, of all the changes of an event, new ones first, then changed ones, then deleted
  -- ones, just those of a type and a name that are asked for, in their order.
  pub filter_events-keep :
      (event : ParameterEvent D) (names : List Bytes) (types : List EventType)
      → filter_events event names types ≡ keep (is_wanted names types) (all_changes event)
  unfolding filter_events
  filter_events-keep event names types =
      let new = tagged event_new event.new_parameters in
      let changed = tagged event_changed event.changed_parameters in
      let deleted = tagged event_deleted event.deleted_parameters in
      sym (
        keep-append (is_wanted names types) (new ++ changed) deleted
        ∙ ap₂ ◌++◌
            (keep-append (is_wanted names types) new changed
              ∙ ap₂ ◌++◌ (keep-tagged names types event_new event.new_parameters)
                  (keep-tagged names types event_changed event.changed_parameters))
            (keep-tagged names types event_deleted event.deleted_parameters))
