-- ===== src/Executor/Run.antt =====
-- The state of an executor and its choice of what to execute
-- (rclcpp/rclcpp/src/rclcpp/executor.cpp), in one thread. What the environment decides is read from a
-- Turn: which timers are due, what rcl_wait reports, whether another thread has called cancel, and
-- how the callbacks end. The handles are executed in the list `executed`.
use pmros.Base.{ℕ, Bool, true, false, if◌then◌else◌, Option, none, some, is_some, List, [], ◌∷◌}
use pmros.Base.Results.{Result, ok, err, Exception}
use pmros.Executor.{
  CallbackGroup, CallbackGroupType, mutually_exclusive, reentrant, NodeBase, WeakNodeList, Flags,
  store, AnyExecutable, new_any_executable,
}
use pmros.Executor.Lookup.{first_of}
use pmros.Executor.Strategy.{
  MemoryStrategy, WaitSet, Getter, remove_guard_condition, clear_handles, collect_entities,
  remove_null_handles, get_next_subscription, get_next_service, get_next_client, get_next_waitable,
}

-- What is called for an executable. A message, a request or a response is taken first.
pub data Callback : Type 0 where
  timer_callback : ℕ → Callback
  subscription_callback : ℕ → Callback
  intra_process_callback : ℕ → Callback
  service_callback : ℕ → Callback
  client_callback : ℕ → Callback
  waitable_callback : ℕ → Callback

pub data Outcome : Type 0 where
  handled : Outcome
  not_taken : Outcome
  throws : Exception → Outcome

pub record Executor : Type 0 where
  pub weak_nodes : WeakNodeList
  pub guard_conditions : List ℕ
  pub memory_strategy : MemoryStrategy
  pub can_be_taken_from : Flags
  pub has_executor : Flags
  pub spinning : Bool
  pub executed : List Callback

pub record Turn : Type 0 where
  pub timer_ready : ℕ → Bool
  pub wait_set : Result WaitSet
  pub waitable_ready : ℕ → Bool
  pub spins_after_wait : Bool
  pub timer_ready_after : ℕ → Bool
  pub spins_at_execution : Bool
  pub outcome : Callback → Outcome
  pub trigger_fails : Bool

abbrev pub due_timer : (ℕ → Bool) → CallbackGroup → Option (ℕ × CallbackGroup)
due_timer ready g = first_of (λ (t : ℕ). if ready t then some (t, g) else none) g.timer_ptrs

-- The node is assigned to a local variable, and node_base is not set.
unfoldable pub get_next_timer : WeakNodeList → Flags → (ℕ → Bool) → AnyExecutable → AnyExecutable
get_next_timer nodes flags ready any_exec =
    elim (first_of
      (λ (n : NodeBase).
        first_of (λ (g : CallbackGroup). if flags g.address then due_timer ready g else none)
          n.callback_groups)
      nodes) [
        | none ↦ any_exec
        | some (t, g) ↦ record any_exec { timer = some t; callback_group = some g }
      ]

-- The getters in turn, each with the test on what it fills.
abbrev pub try_getters :
    List (Getter × (AnyExecutable → Bool))
    → WeakNodeList
    → Flags
    → AnyExecutable
    → MemoryStrategy
    → Bool × AnyExecutable × MemoryStrategy
try_getters [] nodes flags any_exec m = (false, any_exec, m)
try_getters ((get, filled) ∷ getters) nodes flags any_exec m =
    let (any_exec', m') = get nodes flags any_exec m in
    let rest = try_getters getters nodes flags any_exec' m' in
    if filled any_exec' then (true, any_exec', m') else rest

abbrev pub has_subscription : AnyExecutable → Bool
has_subscription a = if is_some a.subscription then true else is_some a.subscription_intra_process

abbrev pub from_waitables : List (Getter × (AnyExecutable → Bool))
from_waitables = (get_next_waitable, λ (a : AnyExecutable). is_some a.waitable) ∷ []

abbrev pub from_clients : List (Getter × (AnyExecutable → Bool))
from_clients = (get_next_client, λ (a : AnyExecutable). is_some a.client) ∷ from_waitables

abbrev pub from_services : List (Getter × (AnyExecutable → Bool))
from_services = (get_next_service, λ (a : AnyExecutable). is_some a.service) ∷ from_clients

abbrev pub getters : List (Getter × (AnyExecutable → Bool))
getters = (get_next_subscription, has_subscription) ∷ from_services

unfoldable pub get_next_ready_executable :
    (ℕ → Bool)
    → WeakNodeList
    → Flags
    → AnyExecutable
    → MemoryStrategy
    → Bool × AnyExecutable × MemoryStrategy
get_next_ready_executable ready nodes flags any_exec m =
    let timed = get_next_timer nodes flags ready any_exec in
    let rest = try_getters getters nodes flags timed m in
    if is_some timed.timer then (true, timed, m) else rest

-- The expired nodes, with their guard conditions.
abbrev pub erase_expired :
    WeakNodeList → List ℕ → MemoryStrategy → WeakNodeList × List ℕ × MemoryStrategy
erase_expired [] gcs m = ([], gcs, m)
erase_expired (n ∷ nodes) [] m = (n ∷ nodes, [], m)
erase_expired (none ∷ nodes) (gc ∷ gcs) m = erase_expired nodes gcs (remove_guard_condition gc m)
erase_expired (some n ∷ nodes) (gc ∷ gcs) m =
    let (ns, cs, m') = erase_expired nodes gcs m in (some n ∷ ns, gc ∷ cs, m')

-- The wait set is filled from the handles, and an exception of the calls that do so is that of the
-- turn. The handles stay as collected then.
unfoldable pub wait_for_work : Turn → Executor → Result (Unit {0}) × Executor
wait_for_work turn ex =
    let (invalid, m) =
      collect_entities ex.can_be_taken_from ex.weak_nodes (clear_handles ex.memory_strategy) in
    let (nodes, gcs, m') =
      if invalid
      then erase_expired ex.weak_nodes ex.guard_conditions m
      else (ex.weak_nodes, ex.guard_conditions, m) in
    let collected = record ex {
      weak_nodes = nodes;
      guard_conditions = gcs;
      memory_strategy = m';
    } in
    elim turn.wait_set [
      | err e ↦ (err e, collected)
      | ok set ↦ (
        ok tt,
        record collected { memory_strategy = remove_null_handles set turn.waitable_ready m' },
      )
    ]

-- What get_next_executable does with a group that it found.
abbrev pub take_group : CallbackGroupType → ℕ → Flags → Flags
take_group mutually_exclusive g flags = store g false flags
take_group reentrant g flags = flags

abbrev pub mark_taken : Option CallbackGroup → Flags → Flags
mark_taken none flags = flags
mark_taken (some g) flags = take_group g.type g.address flags

-- One look for an executable, on success with its group marked.
abbrev pub marked :
    Executor → Bool × AnyExecutable × MemoryStrategy → Bool × AnyExecutable × Executor
marked ex (true, any_exec, m) = (
  true,
  any_exec,
  record ex {
    memory_strategy = m;
    can_be_taken_from = mark_taken any_exec.callback_group ex.can_be_taken_from;
  },
)
marked ex (false, any_exec, m) = (false, any_exec, record ex { memory_strategy = m })

unfoldable pub look : (ℕ → Bool) → Executor → Bool × AnyExecutable × Executor
look ready ex = marked ex (
    get_next_ready_executable ready ex.weak_nodes ex.can_be_taken_from new_any_executable
      ex.memory_strategy)

abbrev pub found : Bool × AnyExecutable × Executor → Result (Bool × AnyExecutable) × Executor
found (success, any_exec, ex) = (ok (success, any_exec), ex)

abbrev pub after_wait :
    Turn → AnyExecutable → Result (Unit {0}) × Executor → Result (Bool × AnyExecutable) × Executor
after_wait turn any_exec (err e, ex) = (err e, ex)
after_wait turn any_exec (ok _, ex) =
    if turn.spins_after_wait
    then found (look turn.timer_ready_after ex)
    else (ok (false, any_exec), ex)

abbrev pub after_look :
    Turn → Bool × AnyExecutable × Executor → Result (Bool × AnyExecutable) × Executor
after_look turn (true, any_exec, ex) = (ok (true, any_exec), ex)
after_look turn (false, any_exec, ex) = after_wait turn any_exec (wait_for_work turn ex)

unfoldable pub get_next_executable : Turn → Executor → Result (Bool × AnyExecutable) × Executor
unfolding look
get_next_executable turn ex = after_look turn (look turn.timer_ready ex)
