-- ===== src/Executor.antt =====
-- What an executor works on: rclcpp/rclcpp/include/rclcpp/callback_group.hpp and its .cpp,
-- any_executable.hpp and its .cpp. A shared object is known by its address, a weak pointer is `none`
-- once it has expired, and an rcl handle is a number. The flag can_be_taken_from, the one part of a
-- group that changes while executors run, is a map from the addresses of groups.
pub mod Lookup
pub mod Strategy
pub mod Run
pub mod Nodes
pub mod Spin
pub mod Ready
pub mod Timers
pub mod Selection
pub mod Getters
pub mod Priority
pub mod Released
pub mod Threads
pub mod Exclusion
pub mod Races
mod Tests
use pmros.Base.{ℕ, Bool, true, false, ◌==◌, if◌then◌else◌, Option, none, some, List, [], ◌∷◌, ◌++◌}

pub data CallbackGroupType : Type 0 where
  mutually_exclusive reentrant : CallbackGroupType

pub record SubscriptionBase : Type 0 where
  pub address : ℕ
  pub subscription_handle : ℕ
  pub intra_process_subscription_handle : Option ℕ

-- ServiceBase and ClientBase.
pub record Endpoint : Type 0 where
  pub address : ℕ
  pub handle : ℕ

-- Timers and waitables are their addresses.
pub record CallbackGroup : Type 0 where
  pub address : ℕ
  pub type : CallbackGroupType
  pub subscription_ptrs : List (Option SubscriptionBase)
  pub timer_ptrs : List (Option ℕ)
  pub service_ptrs : List (Option Endpoint)
  pub client_ptrs : List (Option Endpoint)
  pub waitable_ptrs : List (Option ℕ)

abbrev pub new_callback_group : ℕ → CallbackGroupType → CallbackGroup
new_callback_group address type = record {
  address = address;
  type = type;
  subscription_ptrs = [];
  timer_ptrs = [];
  service_ptrs = [];
  client_ptrs = [];
  waitable_ptrs = [];
}

abbrev pub add_subscription : SubscriptionBase → CallbackGroup → CallbackGroup
add_subscription s g = record g { subscription_ptrs = g.subscription_ptrs ++ (some s ∷ []) }

abbrev pub add_timer : ℕ → CallbackGroup → CallbackGroup
add_timer t g = record g { timer_ptrs = g.timer_ptrs ++ (some t ∷ []) }

abbrev pub add_service : Endpoint → CallbackGroup → CallbackGroup
add_service s g = record g { service_ptrs = g.service_ptrs ++ (some s ∷ []) }

abbrev pub add_client : Endpoint → CallbackGroup → CallbackGroup
add_client c g = record g { client_ptrs = g.client_ptrs ++ (some c ∷ []) }

abbrev pub add_waitable : ℕ → CallbackGroup → CallbackGroup
add_waitable w g = record g { waitable_ptrs = g.waitable_ptrs ++ (some w ∷ []) }

-- The first waitable of this address is erased.
abbrev pub erase_waitable : ℕ → List (Option ℕ) → List (Option ℕ)
erase_waitable w [] = []
erase_waitable w (none ∷ ws) = none ∷ erase_waitable w ws
erase_waitable w (some v ∷ ws) = if v == w then ws else some v ∷ erase_waitable w ws

abbrev pub remove_waitable : ℕ → CallbackGroup → CallbackGroup
remove_waitable w g = record g { waitable_ptrs = erase_waitable w g.waitable_ptrs }

pub record NodeBase : Type 0 where
  pub address : ℕ
  pub notify_guard_condition : ℕ
  pub callback_groups : List (Option CallbackGroup)

abbrev pub WeakNodeList : Type 0
WeakNodeList = List (Option NodeBase)

-- can_be_taken_from of each group.
abbrev pub Flags : Type 0
Flags = ℕ → Bool

abbrev pub store : ℕ → Bool → Flags → Flags
store g b flags = λ (h : ℕ). if g == h then b else flags h

pub record AnyExecutable : Type 0 where
  pub subscription : Option SubscriptionBase
  pub subscription_intra_process : Option SubscriptionBase
  pub timer : Option ℕ
  pub service : Option Endpoint
  pub client : Option Endpoint
  pub waitable : Option ℕ
  pub callback_group : Option CallbackGroup
  pub node_base : Option NodeBase

abbrev pub new_any_executable : AnyExecutable
new_any_executable = record {
  subscription = none;
  subscription_intra_process = none;
  timer = none;
  service = none;
  client = none;
  waitable = none;
  callback_group = none;
  node_base = none;
}

-- The destructor of AnyExecutable, and the reset after an execution.
abbrev pub release : Option CallbackGroup → Flags → Flags
release none flags = flags
release (some g) flags = store g.address true flags
