-- ===== src/Executor/Lookup.antt =====
-- Entities, groups and nodes by what is known of them (rclcpp/rclcpp/src/rclcpp/memory_strategy.cpp,
-- and get_group_by_timer of rclcpp/rclcpp/src/rclcpp/executor.cpp).
use pmros.Base.{ℕ, Bool, false, ◌==◌, if◌then◌else◌, Option, none, some, List, [], ◌∷◌}
use pmros.Executor.{SubscriptionBase, Endpoint, CallbackGroup, NodeBase, WeakNodeList}

-- A loop over weak pointers, which skips the expired ones and returns from the first that answers.
abbrev pub first_of {ℓ κ} : {A : Type ℓ} {B : Type κ} → (A → Option B) → List (Option A) → Option B
first_of f [] = none
first_of f (none ∷ ws) = first_of f ws
first_of f (some a ∷ ws) = elim (f a) [ none ↦ first_of f ws | some b ↦ some b ]

-- The loops over the nodes and their groups.
abbrev pub first_in_groups {ℓ} : {B : Type ℓ} → (CallbackGroup → Option B) → WeakNodeList → Option B
first_in_groups f nodes = first_of (λ (n : NodeBase). first_of f n.callback_groups) nodes

abbrev pub is_handle : Option ℕ → ℕ → Bool
is_handle none h = false
is_handle (some i) h = i == h

unfoldable pub get_subscription_by_handle : ℕ → WeakNodeList → Option SubscriptionBase
get_subscription_by_handle h nodes =
    first_in_groups
      (λ (g : CallbackGroup).
        first_of
          (λ (s : SubscriptionBase).
            if s.subscription_handle == h
            then some s
            else if is_handle s.intra_process_subscription_handle h
            then some s
            else none)
          g.subscription_ptrs)
      nodes

abbrev pub endpoint_by_handle : ℕ → List (Option Endpoint) → Option Endpoint
endpoint_by_handle h = first_of (λ (e : Endpoint). if e.handle == h then some e else none)

unfoldable pub get_service_by_handle : ℕ → WeakNodeList → Option Endpoint
get_service_by_handle h nodes =
    first_in_groups (λ (g : CallbackGroup). endpoint_by_handle h g.service_ptrs) nodes

unfoldable pub get_client_by_handle : ℕ → WeakNodeList → Option Endpoint
get_client_by_handle h nodes =
    first_in_groups (λ (g : CallbackGroup). endpoint_by_handle h g.client_ptrs) nodes

-- The group, if the address is among those of its members.
abbrev pub group_with : CallbackGroup → ℕ → List (Option ℕ) → Option CallbackGroup
group_with g a = first_of (λ (b : ℕ). if b == a then some g else none)

abbrev pub group_with_endpoint : CallbackGroup → ℕ → List (Option Endpoint) → Option CallbackGroup
group_with_endpoint g a = first_of (λ (e : Endpoint). if e.address == a then some g else none)

unfoldable pub get_group_by_subscription : SubscriptionBase → WeakNodeList → Option CallbackGroup
get_group_by_subscription s nodes =
    first_in_groups
      (λ (g : CallbackGroup).
        first_of (λ (t : SubscriptionBase). if t.address == s.address then some g else none)
          g.subscription_ptrs)
      nodes

unfoldable pub get_group_by_service : Endpoint → WeakNodeList → Option CallbackGroup
get_group_by_service e nodes =
    first_in_groups (λ (g : CallbackGroup). group_with_endpoint g e.address g.service_ptrs) nodes

unfoldable pub get_group_by_client : Endpoint → WeakNodeList → Option CallbackGroup
get_group_by_client e nodes =
    first_in_groups (λ (g : CallbackGroup). group_with_endpoint g e.address g.client_ptrs) nodes

unfoldable pub get_group_by_waitable : ℕ → WeakNodeList → Option CallbackGroup
get_group_by_waitable w nodes =
    first_in_groups (λ (g : CallbackGroup). group_with g w g.waitable_ptrs) nodes

unfoldable pub get_group_by_timer : ℕ → WeakNodeList → Option CallbackGroup
get_group_by_timer t nodes =
    first_in_groups (λ (g : CallbackGroup). group_with g t g.timer_ptrs) nodes

unfoldable pub get_node_by_group : CallbackGroup → WeakNodeList → Option NodeBase
get_node_by_group g nodes =
    first_of
      (λ (n : NodeBase).
        first_of (λ (h : CallbackGroup). if h.address == g.address then some n else none)
          n.callback_groups)
      nodes
