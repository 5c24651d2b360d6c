-- ===== src/Executor/Priority.antt =====
-- get_next_ready_executable of rclcpp/rclcpp/src/rclcpp/executor.cpp as a whole.
use pmros.Base.{
  ℕ, Bool, true, false, Option, none, some, is_some, List, [], ◌≡◌, ◌⊎◌, inl, inr, refl, ap, ◌∙◌,
  subst, Option-cases,
}
use pmros.Executor.{CallbackGroup, WeakNodeList, Flags, AnyExecutable, new_any_executable}
use pmros.Executor.Lookup.{first_of}
use pmros.Executor.Strategy.{
  MemoryStrategy, get_next_subscription, get_next_service, get_next_client, get_next_waitable,
}
use pmros.Executor.Run.{
  get_next_timer, get_next_ready_executable, try_getters, getters, from_services, from_clients,
  from_waitables, has_subscription,
}
use pmros.Executor.Timers.{IsDueTimer, NoTimerDue, no_timer_due, timer_found, node_timer}
use pmros.Executor.Selection.{
  IsSubscription, IsService, IsClient, IsWaitable, Got, Sel, try_step, IdleSubscriptions,
  IdleServices, IdleClients, IdleWaitables, IsIdle,
}
use pmros.Executor.Timers.{IsFree, IsDueTimer-IsFree}
use pmros.Executor.Getters.{
  subscriptions-Got, services-Got, clients-Got, waitables-Got, subscriptions_frame, services_frame,
  clients_frame,
}

module _ (nodes : WeakNodeList) (flags : Flags) where
  abbrev FoundWaitable : MemoryStrategy → AnyExecutable → Type 0
  FoundWaitable m a =
      IsWaitable nodes flags m.waitable_handles a
      ⊎ (IdleWaitables nodes flags m.waitable_handles × ⊥)

  abbrev FoundClient : MemoryStrategy → AnyExecutable → Type 0
  FoundClient m a =
      IsClient nodes flags m.client_handles a
      ⊎ (IdleClients nodes flags m.client_handles × FoundWaitable m a)

  abbrev FoundService : MemoryStrategy → AnyExecutable → Type 0
  FoundService m a =
      IsService nodes flags m.service_handles a
      ⊎ (IdleServices nodes flags m.service_handles × FoundClient m a)

  abbrev Found : MemoryStrategy → AnyExecutable → Type 0
  Found m a =
      IsSubscription nodes flags m.subscription_handles a
      ⊎ (IdleSubscriptions nodes flags m.subscription_handles × FoundService m a)

  getters-Sel :
      (m : MemoryStrategy)
      → Sel
          (IdleSubscriptions nodes flags m.subscription_handles
            × (IdleServices nodes flags m.service_handles
                × (IdleClients nodes flags m.client_handles
                    × (IdleWaitables nodes flags m.waitable_handles × Unit {0}))))
          (Found m)
          (try_getters getters nodes flags new_any_executable m)
  getters-Sel m =
      let n1 = (get_next_subscription nodes flags new_any_executable m).1 in
      let n2 = (get_next_service nodes flags new_any_executable n1).1 in
      let n3 = (get_next_client nodes flags new_any_executable n2).1 in
      let (s1, c1, w1) = subscriptions_frame nodes flags m in
      let (c2, w2) = services_frame nodes flags n1 in
      let w3 = clients_frame nodes flags n2 in
      let idle_w = IdleWaitables nodes flags m.waitable_handles in
      let idle_c = IdleClients nodes flags m.client_handles in
      let idle_s = IdleServices nodes flags m.service_handles in
      try_step get_next_subscription has_subscription from_services nodes flags m
        (IdleSubscriptions nodes flags m.subscription_handles)
        (idle_s × (idle_c × (idle_w × Unit {0})))
        (IsSubscription nodes flags m.subscription_handles) (FoundService m) refl
        (subscriptions-Got nodes flags m)
        (try_step get_next_service (λ (a : AnyExecutable). is_some a.service) from_clients nodes
          flags n1 idle_s (idle_c × (idle_w × Unit {0})) (IsService nodes flags m.service_handles)
          (FoundClient m) refl
          (subst
            (λ (hs : List ℕ).
              Got (IdleServices nodes flags hs) (IsService nodes flags hs)
                (λ (a : AnyExecutable). is_some a.service)
                (get_next_service nodes flags new_any_executable n1).0)
            s1 (services-Got nodes flags n1))
          (try_step get_next_client (λ (a : AnyExecutable). is_some a.client) from_waitables nodes
            flags n2 idle_c (idle_w × Unit {0}) (IsClient nodes flags m.client_handles)
            (FoundWaitable m) refl
            (subst
              (λ (hs : List ℕ).
                Got (IdleClients nodes flags hs) (IsClient nodes flags hs)
                  (λ (a : AnyExecutable). is_some a.client)
                  (get_next_client nodes flags new_any_executable n2).0)
              (c2 ∙ c1) (clients-Got nodes flags n2))
            (try_step get_next_waitable (λ (a : AnyExecutable). is_some a.waitable) [] nodes flags
              n3 idle_w (Unit {0}) (IsWaitable nodes flags m.waitable_handles)
              (λ (a : AnyExecutable). ⊥) refl
              (subst
                (λ (hs : List ℕ).
                  Got (IdleWaitables nodes flags hs) (IsWaitable nodes flags hs)
                    (λ (a : AnyExecutable). is_some a.waitable)
                    (get_next_waitable nodes flags new_any_executable n3).0)
                (w3 ∙ (w2 ∙ w1)) (waitables-Got nodes flags n3))
              (refl, tt))))

  timer_none :
      (ready : ℕ → Bool) (a : AnyExecutable)
      → first_of (node_timer ready flags) nodes ≡ none
      → get_next_timer nodes flags ready a ≡ a
  unfolding get_next_timer
  timer_none ready a e = rw (e, get_next_timer) refl

  timer_some :
      (ready : ℕ → Bool) (a : AnyExecutable) (t : ℕ) (g : CallbackGroup)
      → first_of (node_timer ready flags) nodes ≡ some (t, g)
      → get_next_timer nodes flags ready a ≡ record a { timer = some t; callback_group = some g }
  unfolding get_next_timer
  timer_some ready a t g e = rw (e, get_next_timer) refl

  -- The kinds of handles in their order.
  abbrev pub IsFirstKind : MemoryStrategy → AnyExecutable → Type 0
  IsFirstKind m a =
      IsSubscription nodes flags m.subscription_handles a
      ⊎ (IdleSubscriptions nodes flags m.subscription_handles
          × (IsService nodes flags m.service_handles a
              ⊎ (IdleServices nodes flags m.service_handles
                  × (IsClient nodes flags m.client_handles a
                      ⊎ (IdleClients nodes flags m.client_handles
                          × IsWaitable nodes flags m.waitable_handles a)))))

  kind_of : (m : MemoryStrategy) (a : AnyExecutable) → Found m a → IsFirstKind m a
  kind_of m a (inl s) = inl s
  kind_of m a (inr (i, inl s)) = inr (i, inl s)
  kind_of m a (inr (i, inr (j, inl c))) = inr (i, inr (j, inl c))
  kind_of m a (inr (i, inr (j, inr (k, inl w)))) = inr (i, inr (j, inr (k, w)))
  kind_of m a (inr (i, inr (j, inr (k, inr (l, impossible))))) = absurd impossible

  abbrev group_in : AnyExecutable → Option CallbackGroup
  group_in a = a.callback_group

  IsFirstKind-IsFree : (m : MemoryStrategy) (a : AnyExecutable) → IsFirstKind m a → IsFree flags a
  IsFirstKind-IsFree m a (inl (h, e, g, before, after, hs, used, l, k, free, is)) =
      (g, ap group_in is, free)
  IsFirstKind-IsFree m a (inr (u, inl (h, e, g, before, after, hs, used, l, k, free, is))) =
      (g, ap group_in is, free)
  IsFirstKind-IsFree m a
        (inr (u, inr (v, inl (h, e, g, before, after, hs, used, l, k, free, is)))) =
      (g, ap group_in is, free)
  IsFirstKind-IsFree m a
        (inr (u, inr (v, inr (w, (h, e, g, before, after, hs, used, l, k, free, is))))) =
      (g, ap group_in is, free)

  abbrev pub IsSelected :
      (ℕ → Bool) → MemoryStrategy → Bool × AnyExecutable × MemoryStrategy → Type 0
  IsSelected ready m (true, a, m') =
      IsFree flags a
      × (IsDueTimer ready nodes flags a ⊎ (NoTimerDue ready nodes flags × IsFirstKind m a))
  IsSelected ready m (false, a, m') =
      (a ≡ new_any_executable) × NoTimerDue ready nodes flags × IsIdle nodes flags m

  -- The group of what is selected could be taken from. A timer that is due, in a group that can be
  -- taken from, is selected if there is one; otherwise, of the subscriptions, the services, the
  -- clients and the waitables that are ready, in this order, the first one whose group can be
  -- taken from, with nothing else in the executable than it, its group and its node. If nothing is
  -- selected, nothing is filled in, there is no such timer, and every handle that is still valid
  -- is in a group that is in use.
  pub get_next_ready_executable-IsSelected :
      (ready : ℕ → Bool) (m : MemoryStrategy)
      → IsSelected ready m (get_next_ready_executable ready nodes flags new_any_executable m)
  unfolding get_next_ready_executable
  get_next_ready_executable-IsSelected ready m =
      elim (Option-cases (first_of (node_timer ready flags) nodes)) [
        | inr ((t, g), e) ↦ rw (timer_some ready new_any_executable t g e) (
            let due = timer_found ready nodes flags t g e in
            (IsDueTimer-IsFree ready nodes flags _ due, inl due))
        | inl e ↦ rw (timer_none ready new_any_executable e) (
            go (no_timer_due ready nodes flags e)
              (try_getters getters nodes flags new_any_executable m) (getters-Sel m))
      ]
    where
      go :
          NoTimerDue ready nodes flags
          → (r : Bool × AnyExecutable × MemoryStrategy)
          → Sel
              (IdleSubscriptions nodes flags m.subscription_handles
                × (IdleServices nodes flags m.service_handles
                    × (IdleClients nodes flags m.client_handles
                        × (IdleWaitables nodes flags m.waitable_handles × Unit {0}))))
              (Found m)
              r
          → IsSelected ready m r
      go none_due (true, a, m') s =
          let kind = kind_of m a s in (IsFirstKind-IsFree m a kind, inr (none_due, kind))
      go none_due (false, a, m') (e, (s, (v, (c, (w, u))))) = (e, none_due, (s, v, c, w))
