-- ===== src/Executor/Selection.antt =====
-- Which executable an executor selects (get_next_ready_executable of
-- rclcpp/rclcpp/src/rclcpp/executor.cpp).
use pmros.Base.{
  ℕ, Bool, true, false, Option, none, some, List, ◌∷◌, ◌++◌, ◌≡◌, ◌⊎◌, inl, inr, refl, All,
}
use pmros.Executor.{
  CallbackGroup, WeakNodeList, Flags, AnyExecutable, SubscriptionBase, Endpoint, new_any_executable,
}
use pmros.Executor.Lookup.{
  get_subscription_by_handle, get_service_by_handle, get_client_by_handle,
  get_group_by_subscription, get_group_by_service, get_group_by_client, get_group_by_waitable,
}
use pmros.Executor.Strategy.{
  MemoryStrategy, Getter, took, with_group, fill_subscription, fill_service, fill_client,
  fill_waitable,
}
use pmros.Executor.Run.{try_getters}
use pmros.Executor.Ready.{IsNext, InUse}

-- What a getter gives, where `Idle` says that it finds nothing, and `Found` what it finds.
abbrev pub Got : Type 0 → (AnyExecutable → Type 0) → (AnyExecutable → Bool) → AnyExecutable → Type 0
Got Idle Found filled a = ((a ≡ new_any_executable) × Idle) ⊎ ((filled a ≡ true) × Found a)

module _ {E : Type 0} (lookup : ℕ → Option E) (group_of : E → Option CallbackGroup) (flags : Flags)
    (nodes : WeakNodeList) (fill : ℕ → E → AnyExecutable → AnyExecutable) where
  -- The executable is for the first of the handles that can be serviced.
  abbrev pub IsFirst : List ℕ → AnyExecutable → Type 0
  IsFirst hs a =
      (h : ℕ) × (e : E) × (g : CallbackGroup) × (before : List ℕ) × (after : List ℕ) × (hs
        ≡ before ++ (h ∷ after))
      × All (InUse lookup group_of flags) before
      × (lookup h ≡ some e)
      × (group_of e ≡ some g)
      × (flags g.address ≡ true)
      × (a ≡ with_group g nodes (fill h e new_any_executable))

  pub took-Got :
      (put : List ℕ → MemoryStrategy → MemoryStrategy) (filled : AnyExecutable → Bool)
      (m : MemoryStrategy) (hs : List ℕ) (r : Option (ℕ × E × CallbackGroup) × List ℕ)
      → ((h : ℕ) (e : E) (g : CallbackGroup)
          → filled (with_group g nodes (fill h e new_any_executable)) ≡ true)
      → IsNext lookup group_of flags hs r
      → Got
          (All (InUse lookup group_of flags) hs)
          (IsFirst hs)
          filled
          (took fill put nodes new_any_executable m r).0
  took-Got put filled m hs (none, rest) fills (used, e) = inl (refl, used)
  took-Got put filled m hs (some (h, e, g), rest) fills (before, after, s, used, r, l, k, f) =
      inr (fills h e g, (h, e, g, before, after, s, used, l, k, f, refl))

  pub took-put :
      (put : List ℕ → MemoryStrategy → MemoryStrategy) (m : MemoryStrategy)
      (r : Option (ℕ × E × CallbackGroup) × List ℕ)
      → (took fill put nodes new_any_executable m r).1 ≡ put r.1 m
  took-put put m (none, rest) = refl
  took-put put m (some (h, e, g), rest) = refl

abbrev pub Sel : Type 0 → (AnyExecutable → Type 0) → Bool × AnyExecutable × MemoryStrategy → Type 0
Sel Idle Found (true, a, m) = Found a
Sel Idle Found (false, a, m) = (a ≡ new_any_executable) × Idle

pub try_step :
    (get : Getter) (filled : AnyExecutable → Bool) (rest : List (Getter × (AnyExecutable → Bool)))
    (nodes : WeakNodeList) (flags : Flags) (m : MemoryStrategy) (Idle Rest : Type 0)
    (Found Later : AnyExecutable → Type 0)
    → filled new_any_executable ≡ false
    → Got Idle Found filled (get nodes flags new_any_executable m).0
    → Sel Rest Later
        (try_getters rest nodes flags new_any_executable (get nodes flags new_any_executable m).1)
    → Sel
        (Idle × Rest)
        (λ (a : AnyExecutable). Found a ⊎ (Idle × Later a))
        (try_getters ((get, filled) ∷ rest) nodes flags new_any_executable m)
try_step get filled rest nodes flags m Idle Rest Found Later empty (inr (full, found)) s =
    rw (full, try_getters) (inl found)
try_step get filled rest nodes flags m Idle Rest Found Later empty (inl (e, idle)) s =
    rw (e, empty, try_getters)
      (go (try_getters rest nodes flags new_any_executable (get nodes flags new_any_executable m).1)
        s)
  where
    go :
        (r : Bool × AnyExecutable × MemoryStrategy)
        → Sel Rest Later r
        → Sel (Idle × Rest) (λ (a : AnyExecutable). Found a ⊎ (Idle × Later a)) r
    go (true, a, m') s = inr (idle, s)
    go (false, a, m') (e, q) = (e, (idle, q))

abbrev pub IsSubscription : WeakNodeList → Flags → List ℕ → AnyExecutable → Type 0
IsSubscription nodes flags =
    IsFirst (λ (h : ℕ). get_subscription_by_handle h nodes)
      (λ (s : SubscriptionBase). get_group_by_subscription s nodes) flags nodes fill_subscription

abbrev pub IsService : WeakNodeList → Flags → List ℕ → AnyExecutable → Type 0
IsService nodes flags =
    IsFirst (λ (h : ℕ). get_service_by_handle h nodes)
      (λ (e : Endpoint). get_group_by_service e nodes) flags nodes fill_service

abbrev pub IsClient : WeakNodeList → Flags → List ℕ → AnyExecutable → Type 0
IsClient nodes flags =
    IsFirst (λ (h : ℕ). get_client_by_handle h nodes)
      (λ (e : Endpoint). get_group_by_client e nodes) flags nodes fill_client

abbrev pub IsWaitable : WeakNodeList → Flags → List ℕ → AnyExecutable → Type 0
IsWaitable nodes flags =
    IsFirst (λ (w : ℕ). some w) (λ (w : ℕ). get_group_by_waitable w nodes) flags nodes fill_waitable

abbrev pub IdleSubscriptions : WeakNodeList → Flags → List ℕ → Type 0
IdleSubscriptions nodes flags = All (
    InUse (λ (h : ℕ). get_subscription_by_handle h nodes)
      (λ (s : SubscriptionBase). get_group_by_subscription s nodes) flags)

abbrev pub IdleServices : WeakNodeList → Flags → List ℕ → Type 0
IdleServices nodes flags = All (
    InUse (λ (h : ℕ). get_service_by_handle h nodes)
      (λ (e : Endpoint). get_group_by_service e nodes) flags)

abbrev pub IdleClients : WeakNodeList → Flags → List ℕ → Type 0
IdleClients nodes flags = All (
    InUse (λ (h : ℕ). get_client_by_handle h nodes) (λ (e : Endpoint). get_group_by_client e nodes)
      flags)

abbrev pub IdleWaitables : WeakNodeList → Flags → List ℕ → Type 0
IdleWaitables nodes flags =
    All (InUse (λ (w : ℕ). some w) (λ (w : ℕ). get_group_by_waitable w nodes) flags)

-- All that may be serviced is in groups that are in use.
abbrev pub IsIdle : WeakNodeList → Flags → MemoryStrategy → Type 0
IsIdle nodes flags m =
    IdleSubscriptions nodes flags m.subscription_handles
    × IdleServices nodes flags m.service_handles
    × IdleClients nodes flags m.client_handles
    × IdleWaitables nodes flags m.waitable_handles
