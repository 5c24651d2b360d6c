-- ===== src/Executor/Strategy.antt =====
-- The memory strategy of an executor
-- (rclcpp/rclcpp/include/rclcpp/strategies/allocator_memory_strategy.hpp).
use pmros.Base.{ℕ, Bool, true, false, ◌==◌, if◌then◌else◌, Option, none, some, List, [], ◌∷◌, ◌++◌}
use pmros.Executor.{SubscriptionBase, Endpoint, CallbackGroup, WeakNodeList, Flags, AnyExecutable}
use pmros.Executor.Lookup.{
  is_handle, get_subscription_by_handle, get_service_by_handle, get_client_by_handle,
  get_group_by_subscription, get_group_by_service, get_group_by_client, get_group_by_waitable,
  get_node_by_group,
}

pub record MemoryStrategy : Type 0 where
  pub guard_conditions : List ℕ
  pub subscription_handles : List ℕ
  pub service_handles : List ℕ
  pub client_handles : List ℕ
  pub timer_handles : List ℕ
  pub waitable_handles : List ℕ

abbrev is_among : ℕ → List ℕ → Bool
is_among c [] = false
is_among c (d ∷ ds) = if d == c then true else is_among c ds

abbrev pub erase_first : ℕ → List ℕ → List ℕ
erase_first c [] = []
erase_first c (d ∷ ds) = if d == c then ds else d ∷ erase_first c ds

unfoldable pub add_guard_condition : ℕ → MemoryStrategy → MemoryStrategy
add_guard_condition c m =
    if is_among c m.guard_conditions
    then m
    else record m { guard_conditions = m.guard_conditions ++ (c ∷ []) }

unfoldable pub remove_guard_condition : ℕ → MemoryStrategy → MemoryStrategy
remove_guard_condition c m = record m { guard_conditions = erase_first c m.guard_conditions }

unfoldable pub clear_handles : MemoryStrategy → MemoryStrategy
clear_handles m = record m {
  subscription_handles = [];
  service_handles = [];
  client_handles = [];
  timer_handles = [];
  waitable_handles = [];
}

-- What rcl_wait leaves in the wait set: for each entry, whether it is not null.
pub record WaitSet : Type 0 where
  pub subscriptions : List Bool
  pub services : List Bool
  pub clients : List Bool
  pub timers : List Bool

-- Only handles whose entry of the wait set is not null stay. A wait set is as long as the handles.
abbrev pub keep_ready : List ℕ → List Bool → List ℕ
keep_ready [] flags = []
keep_ready (h ∷ hs) [] = []
keep_ready (h ∷ hs) (true ∷ flags) = h ∷ keep_ready hs flags
keep_ready (h ∷ hs) (false ∷ flags) = keep_ready hs flags

abbrev pub filter_ready : (ℕ → Bool) → List ℕ → List ℕ
filter_ready ready [] = []
filter_ready ready (w ∷ ws) = if ready w then w ∷ filter_ready ready ws else filter_ready ready ws

unfoldable pub remove_null_handles : WaitSet → (ℕ → Bool) → MemoryStrategy → MemoryStrategy
remove_null_handles set waitable_ready m = record m {
  subscription_handles = keep_ready m.subscription_handles set.subscriptions;
  service_handles = keep_ready m.service_handles set.services;
  client_handles = keep_ready m.client_handles set.clients;
  timer_handles = keep_ready m.timer_handles set.timers;
  waitable_handles = filter_ready waitable_ready m.waitable_handles;
}

abbrev pub subscription_handles_of : List (Option SubscriptionBase) → List ℕ
subscription_handles_of [] = []
subscription_handles_of (none ∷ ss) = subscription_handles_of ss
subscription_handles_of (some s ∷ ss) = elim s.intra_process_subscription_handle [
  | none ↦ s.subscription_handle ∷ subscription_handles_of ss
  | some i ↦ s.subscription_handle ∷ i ∷ subscription_handles_of ss
]

abbrev pub endpoint_handles : List (Option Endpoint) → List ℕ
endpoint_handles [] = []
endpoint_handles (none ∷ es) = endpoint_handles es
endpoint_handles (some e ∷ es) = e.handle ∷ endpoint_handles es

abbrev pub locked : List (Option ℕ) → List ℕ
locked [] = []
locked (none ∷ ws) = locked ws
locked (some w ∷ ws) = w ∷ locked ws

abbrev pub collect_group : CallbackGroup → MemoryStrategy → MemoryStrategy
collect_group g m = record m {
  subscription_handles = m.subscription_handles ++ subscription_handles_of g.subscription_ptrs;
  service_handles = m.service_handles ++ endpoint_handles g.service_ptrs;
  client_handles = m.client_handles ++ endpoint_handles g.client_ptrs;
  timer_handles = m.timer_handles ++ locked g.timer_ptrs;
  waitable_handles = m.waitable_handles ++ locked g.waitable_ptrs;
}

abbrev pub collect_groups : Flags → List (Option CallbackGroup) → MemoryStrategy → MemoryStrategy
collect_groups flags [] m = m
collect_groups flags (none ∷ gs) m = collect_groups flags gs m
collect_groups flags (some g ∷ gs) m =
    collect_groups flags gs (if flags g.address then collect_group g m else m)

-- With whether there are expired nodes.
unfoldable pub collect_entities : Flags → WeakNodeList → MemoryStrategy → Bool × MemoryStrategy
collect_entities flags [] m = (false, m)
collect_entities flags (none ∷ nodes) m =
    let (invalid, m') = collect_entities flags nodes m in (true, m')
collect_entities flags (some n ∷ nodes) m =
    collect_entities flags nodes (collect_groups flags n.callback_groups m)

-- The loop of the four get_next functions: the first handle whose entity and group are there and
-- whose group can be taken from. Handles that are no longer valid are erased, and those of groups in
-- use stay.
module _ {E : Type 0} (lookup : ℕ → Option E) (group_of : E → Option CallbackGroup)
    (flags : Flags) where
  unfoldable pub next_handle : List ℕ → Option (ℕ × E × CallbackGroup) × List ℕ
  next_handle [] = (none, [])
  next_handle (h ∷ hs) = elim (lookup h) [
    | none ↦ next_handle hs
    | some e ↦ elim (group_of e) [
      | none ↦ next_handle hs
      | some g ↦ elim (flags g.address) [
        | true ↦ (some (h, e, g), hs)
        | false ↦ let (found, rest) = next_handle hs in (found, h ∷ rest)
      ]
    ]
  ]

abbrev pub Getter : Type 0
Getter = WeakNodeList → Flags → AnyExecutable → MemoryStrategy → AnyExecutable × MemoryStrategy

abbrev pub with_group : CallbackGroup → WeakNodeList → AnyExecutable → AnyExecutable
with_group g nodes any_exec = record any_exec {
  callback_group = some g;
  node_base = get_node_by_group g nodes;
}

-- What the getters do with the result of the loop: `fill` sets the field for the entity, and `put`
-- stores the handles that are left.
abbrev pub took :
    {E : Type 0}
    → (ℕ → E → AnyExecutable → AnyExecutable)
    → (List ℕ → MemoryStrategy → MemoryStrategy)
    → WeakNodeList
    → AnyExecutable
    → MemoryStrategy
    → Option (ℕ × E × CallbackGroup) × List ℕ
    → AnyExecutable × MemoryStrategy
took fill put nodes any_exec m (none, rest) = (any_exec, put rest m)
took fill put nodes any_exec m (some (h, e, g), rest) =
    (with_group g nodes (fill h e any_exec), put rest m)

abbrev pub fill_subscription : ℕ → SubscriptionBase → AnyExecutable → AnyExecutable
fill_subscription h s any_exec =
    if is_handle s.intra_process_subscription_handle h
    then record any_exec { subscription_intra_process = some s }
    else record any_exec { subscription = some s }

abbrev pub fill_service : ℕ → Endpoint → AnyExecutable → AnyExecutable
fill_service h e any_exec = record any_exec { service = some e }

abbrev pub fill_client : ℕ → Endpoint → AnyExecutable → AnyExecutable
fill_client h e any_exec = record any_exec { client = some e }

abbrev pub fill_waitable : ℕ → ℕ → AnyExecutable → AnyExecutable
fill_waitable h w any_exec = record any_exec { waitable = some w }

unfoldable pub get_next_subscription : Getter
get_next_subscription nodes flags any_exec m =
    took fill_subscription
      (λ (hs : List ℕ) (n : MemoryStrategy). record n { subscription_handles = hs }) nodes any_exec
      m
      (next_handle (λ (h : ℕ). get_subscription_by_handle h nodes)
        (λ (s : SubscriptionBase). get_group_by_subscription s nodes) flags m.subscription_handles)

unfoldable pub get_next_service : Getter
get_next_service nodes flags any_exec m =
    took fill_service (λ (hs : List ℕ) (n : MemoryStrategy). record n { service_handles = hs })
      nodes any_exec m
      (next_handle (λ (h : ℕ). get_service_by_handle h nodes)
        (λ (e : Endpoint). get_group_by_service e nodes) flags m.service_handles)

unfoldable pub get_next_client : Getter
get_next_client nodes flags any_exec m =
    took fill_client (λ (hs : List ℕ) (n : MemoryStrategy). record n { client_handles = hs }) nodes
      any_exec m
      (next_handle (λ (h : ℕ). get_client_by_handle h nodes)
        (λ (e : Endpoint). get_group_by_client e nodes) flags m.client_handles)

-- The list holds the waitables themselves, and none is null.
unfoldable pub get_next_waitable : Getter
get_next_waitable nodes flags any_exec m =
    took fill_waitable (λ (hs : List ℕ) (n : MemoryStrategy). record n { waitable_handles = hs })
      nodes any_exec m
      (next_handle (λ (w : ℕ). some w) (λ (w : ℕ). get_group_by_waitable w nodes) flags
        m.waitable_handles)
