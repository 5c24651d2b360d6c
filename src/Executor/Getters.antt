-- ===== src/Executor/Getters.antt =====
-- What the getters of rclcpp/rclcpp/include/rclcpp/strategies/allocator_memory_strategy.hpp return.
use pmros.Base.{ℕ, some, is_some, List, ◌≡◌, refl, ap, arith}
use pmros.Executor.{
  WeakNodeList, Flags, AnyExecutable, SubscriptionBase, Endpoint, new_any_executable,
}
use pmros.Executor.Lookup.{
  get_subscription_by_handle, get_service_by_handle, get_client_by_handle,
  get_group_by_subscription, get_group_by_service, get_group_by_client, get_group_by_waitable,
}
use pmros.Executor.Strategy.{
  MemoryStrategy, next_handle, get_next_subscription, get_next_service, get_next_client,
  get_next_waitable, fill_subscription, fill_service, fill_client, fill_waitable,
}
use pmros.Executor.Run.{has_subscription}
use pmros.Executor.Ready.{next_handle-IsNext}
use pmros.Executor.Selection.{
  Got, took-Got, took-put, IdleSubscriptions, IsSubscription, IsService, IsClient, IsWaitable,
  IdleServices, IdleClients, IdleWaitables,
}

module _ (nodes : WeakNodeList) (flags : Flags) where
  pub subscriptions-Got :
      (m : MemoryStrategy)
      → Got
          (IdleSubscriptions nodes flags m.subscription_handles)
          (IsSubscription nodes flags m.subscription_handles)
          has_subscription
          (get_next_subscription nodes flags new_any_executable m).0
  unfolding get_next_subscription
  subscriptions-Got m =
      took-Got (λ (h : ℕ). get_subscription_by_handle h nodes)
        (λ (s : SubscriptionBase). get_group_by_subscription s nodes) flags nodes fill_subscription
        (λ (hs : List ℕ) (n : MemoryStrategy). record n { subscription_handles = hs })
        has_subscription m m.subscription_handles _ (λ h s g. ground arith)
        (next_handle-IsNext (λ (h : ℕ). get_subscription_by_handle h nodes)
          (λ (s : SubscriptionBase). get_group_by_subscription s nodes) flags
          m.subscription_handles)

  pub services-Got :
      (m : MemoryStrategy)
      → Got
          (IdleServices nodes flags m.service_handles)
          (IsService nodes flags m.service_handles)
          (λ (a : AnyExecutable). is_some a.service)
          (get_next_service nodes flags new_any_executable m).0
  unfolding get_next_service
  services-Got m =
      took-Got (λ (h : ℕ). get_service_by_handle h nodes)
        (λ (e : Endpoint). get_group_by_service e nodes) flags nodes fill_service
        (λ (hs : List ℕ) (n : MemoryStrategy). record n { service_handles = hs })
        (λ (a : AnyExecutable). is_some a.service) m m.service_handles _ (λ h s g. refl)
        (next_handle-IsNext (λ (h : ℕ). get_service_by_handle h nodes)
          (λ (e : Endpoint). get_group_by_service e nodes) flags m.service_handles)

  pub clients-Got :
      (m : MemoryStrategy)
      → Got
          (IdleClients nodes flags m.client_handles)
          (IsClient nodes flags m.client_handles)
          (λ (a : AnyExecutable). is_some a.client)
          (get_next_client nodes flags new_any_executable m).0
  unfolding get_next_client
  clients-Got m =
      took-Got (λ (h : ℕ). get_client_by_handle h nodes)
        (λ (e : Endpoint). get_group_by_client e nodes) flags nodes fill_client
        (λ (hs : List ℕ) (n : MemoryStrategy). record n { client_handles = hs })
        (λ (a : AnyExecutable). is_some a.client) m m.client_handles _ (λ h s g. refl)
        (next_handle-IsNext (λ (h : ℕ). get_client_by_handle h nodes)
          (λ (e : Endpoint). get_group_by_client e nodes) flags m.client_handles)

  pub waitables-Got :
      (m : MemoryStrategy)
      → Got
          (IdleWaitables nodes flags m.waitable_handles)
          (IsWaitable nodes flags m.waitable_handles)
          (λ (a : AnyExecutable). is_some a.waitable)
          (get_next_waitable nodes flags new_any_executable m).0
  unfolding get_next_waitable
  waitables-Got m =
      took-Got (λ (w : ℕ). some w) (λ (w : ℕ). get_group_by_waitable w nodes) flags nodes
        fill_waitable (λ (hs : List ℕ) (n : MemoryStrategy). record n { waitable_handles = hs })
        (λ (a : AnyExecutable). is_some a.waitable) m m.waitable_handles _ (λ h s g. refl)
        (next_handle-IsNext (λ (w : ℕ). some w) (λ (w : ℕ). get_group_by_waitable w nodes) flags
          m.waitable_handles)

  -- A getter leaves the handles of the other kinds alone.
  pub subscriptions_frame :
      (m : MemoryStrategy)
      → let n = (get_next_subscription nodes flags new_any_executable m).1 in
        (n.service_handles ≡ m.service_handles)
        × (n.client_handles ≡ m.client_handles)
        × (n.waitable_handles ≡ m.waitable_handles)
  unfolding get_next_subscription
  subscriptions_frame m =
      let e =
        took-put (λ (h : ℕ). get_subscription_by_handle h nodes)
          (λ (s : SubscriptionBase). get_group_by_subscription s nodes) flags nodes
          fill_subscription
          (λ (hs : List ℕ) (n : MemoryStrategy). record n { subscription_handles = hs }) m
          (next_handle (λ (h : ℕ). get_subscription_by_handle h nodes)
            (λ (s : SubscriptionBase). get_group_by_subscription s nodes) flags
            m.subscription_handles) in
      (
        ap (λ (n : MemoryStrategy). n.service_handles) e,
        ap (λ (n : MemoryStrategy). n.client_handles) e,
        ap (λ (n : MemoryStrategy). n.waitable_handles) e,
      )

  pub services_frame :
      (m : MemoryStrategy)
      → let n = (get_next_service nodes flags new_any_executable m).1 in
        (n.client_handles ≡ m.client_handles) × (n.waitable_handles ≡ m.waitable_handles)
  unfolding get_next_service
  services_frame m =
      let e =
        took-put (λ (h : ℕ). get_service_by_handle h nodes)
          (λ (e : Endpoint). get_group_by_service e nodes) flags nodes fill_service
          (λ (hs : List ℕ) (n : MemoryStrategy). record n { service_handles = hs }) m
          (next_handle (λ (h : ℕ). get_service_by_handle h nodes)
            (λ (e : Endpoint). get_group_by_service e nodes) flags m.service_handles) in
      (
        ap (λ (n : MemoryStrategy). n.client_handles) e,
        ap (λ (n : MemoryStrategy). n.waitable_handles) e,
      )

  pub clients_frame :
      (m : MemoryStrategy)
      → (get_next_client nodes flags new_any_executable m).1.waitable_handles ≡ m.waitable_handles
  unfolding get_next_client
  clients_frame m =
      ap (λ (n : MemoryStrategy). n.waitable_handles)
        (took-put (λ (h : ℕ). get_client_by_handle h nodes)
          (λ (e : Endpoint). get_group_by_client e nodes) flags nodes fill_client
          (λ (hs : List ℕ) (n : MemoryStrategy). record n { client_handles = hs }) m
          (next_handle (λ (h : ℕ). get_client_by_handle h nodes)
            (λ (e : Endpoint). get_group_by_client e nodes) flags m.client_handles))
