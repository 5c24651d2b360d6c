-- ===== src/Executor/Tests.antt =====
-- The theorems on executors at concrete executors.
use pmros.Base.{ℕ, Bool, true, false, ◌==◌, Option, none, some, [], ◌∷◌, ◌≡◌, inl, inr, refl, arith}
use pmros.Base.Results.{ok}
use pmros.Executor.{
  CallbackGroup, CallbackGroupType, mutually_exclusive, reentrant, SubscriptionBase, WeakNodeList,
  Flags, store, AnyExecutable, new_any_executable, new_callback_group, add_subscription, add_timer,
}
use pmros.Executor.Strategy.{MemoryStrategy}
use pmros.Executor.Run.{
  Turn, Executor, Callback, handled, get_next_ready_executable, get_next_timer,
}
use pmros.Executor.Spin.{spin_once, spin, spin_some}
use pmros.Executor.Priority.{IsSelected, get_next_ready_executable-IsSelected}
use pmros.Executor.Released.{IsReleased, spin-IsReleased}
use pmros.Executor.Threads.{
  System, selected, discarding, take, begin, finish, stop_spinning, Reach, start, later, init,
  holds, take_executable, begin_execution, finish_execution,
}
use pmros.Executor.Exclusion.{mutual_exclusion}
use pmros.Executor.Races.{cancelled, cancel_loses_group, drop_breaks_exclusion}

abbrev sub_1 : SubscriptionBase
sub_1 = record {
  address = 1;
  subscription_handle = 11;
  intra_process_subscription_handle = some 12;
}

abbrev sub_2 : SubscriptionBase
sub_2 = record { address = 2; subscription_handle = 21; intra_process_subscription_handle = none }

abbrev group_5 : CallbackGroup
group_5 = add_subscription sub_1 (add_timer 3 (new_callback_group 5 mutually_exclusive))

abbrev group_6 : CallbackGroup
group_6 = add_subscription sub_2 (new_callback_group 6 reentrant)

abbrev one_node : WeakNodeList
one_node =
    none
    ∷ some (record {
      address = 8;
      notify_guard_condition = 9;
      callback_groups = some group_5 ∷ none ∷ some group_6 ∷ [];
    })
    ∷ []

abbrev ready_handles : MemoryStrategy
ready_handles = record {
  guard_conditions = 9 ∷ [];
  subscription_handles = 99 ∷ 12 ∷ 21 ∷ [];
  service_handles = [];
  client_handles = [];
  timer_handles = [];
  waitable_handles = [];
}

-- The group of the first subscription is in use.
abbrev used_5 : Flags
used_5 = store 5 false (λ (g : ℕ). true)

get_next_ready_executable_example :
    IsSelected one_node used_5
      (λ (t : ℕ). true)
      ready_handles
      (get_next_ready_executable (λ (t : ℕ). true) one_node used_5 new_any_executable ready_handles)
get_next_ready_executable_example =
    get_next_ready_executable-IsSelected one_node used_5 (λ (t : ℕ). true) ready_handles

-- A timer that is due goes first, if its group can be taken from.
timer_first :
    let free : Flags = λ (g : ℕ). true in
    (get_next_ready_executable
      (λ (t : ℕ). true)
      one_node
      free
      new_any_executable
      ready_handles).1.timer
    ≡ some 3
unfolding get_next_ready_executable get_next_timer
timer_first = refl

abbrev idle_executor : Executor
idle_executor = record {
  weak_nodes = one_node;
  guard_conditions = 0 ∷ 9 ∷ [];
  memory_strategy = record ready_handles { subscription_handles = [] };
  can_be_taken_from = λ (g : ℕ). true;
  has_executor = λ (n : ℕ). n == 8;
  spinning = false;
  executed = [];
}

abbrev no_timer : ℕ → Bool
no_timer t = false

abbrev all_ready : Turn
all_ready = record {
  timer_ready = no_timer;
  wait_set = ok (record {
    subscriptions = true ∷ true ∷ true ∷ [];
    services = [];
    clients = [];
    timers = [];
  });
  waitable_ready = no_timer;
  spins_after_wait = true;
  timer_ready_after = no_timer;
  spins_at_execution = true;
  outcome = λ (c : Callback). handled;
  trigger_fails = false;
}

spin-IsReleased_example :
    IsReleased idle_executor (spin_once all_ready idle_executor)
    × IsReleased idle_executor (spin (all_ready ∷ all_ready ∷ []) idle_executor)
    × IsReleased idle_executor (spin_some (all_ready ∷ all_ready ∷ []) idle_executor)
spin-IsReleased_example =
    spin-IsReleased all_ready (all_ready ∷ all_ready ∷ []) idle_executor (λ g. refl)

abbrev exclusive : ℕ → CallbackGroupType
exclusive g = mutually_exclusive

abbrev of_group : CallbackGroup → Option ℕ → AnyExecutable
of_group g t = record new_any_executable { callback_group = some g; timer = t }

abbrev group_7 : CallbackGroup
group_7 = new_callback_group 7 mutually_exclusive

of_group-HasType :
    (c g : CallbackGroup) (t : Option ℕ)
    → c.type ≡ mutually_exclusive
    → (of_group c t).callback_group ≡ some g
    → g.type ≡ exclusive g.address
of_group-HasType c g t m e = cc (m, e)

-- Thread 0 has selected a timer of group 5, and thread 1 something of group 7.
abbrev two_selected :
    (s : System) × Reach exclusive false init s
    × (s.pc 0 ≡ selected (of_group group_5 (some 3)))
    × (s.pc 1 ≡ selected (of_group group_7 none))
unfolding take_executable
two_selected = (
  _,
  later
      (later start (
        take 0 (of_group group_5 (some 3)) refl refl (group_5, refl, refl)
          (λ g e. of_group-HasType group_5 g (some 3) refl e) (inl refl)))
      (take 1 (of_group group_7 none) refl refl (group_7, refl, refl)
        (λ g e. of_group-HasType group_7 g none refl e) (inl refl)),
  refl,
  refl,
)

mutual_exclusion_example : (◌≡◌ {A = ℕ} 0 0) × (two_selected.0.shared.can_be_taken_from 5 ≡ false)
unfolding take_executable
mutual_exclusion_example =
    mutual_exclusion exclusive 5 two_selected.0 refl two_selected.1 0 0 refl refl

abbrev stopped : (s : System) × Reach exclusive false init s × (s.shared.spinning ≡ false)
unfolding take_executable
stopped = (_, later two_selected.1 stop_spinning, refl)

cancel_loses_group_example :
    let after = cancelled 0 (of_group group_5 (some 3)) stopped.0 in
    Reach exclusive true stopped.0 after
    × (after.shared.can_be_taken_from 5 ≡ false)
    × ((j : ℕ) → holds 5 (after.pc j) ≡ false)
unfolding take_executable
cancel_loses_group_example =
    cancel_loses_group exclusive 5 stopped.0 0 (of_group group_5 (some 3))
      (cancelled 0 (of_group group_5 (some 3)) stopped.0) refl stopped.1 refl refl refl start

-- Thread 0 has executed the timer, and thread 1 drops it before thread 0 has ended its round.
abbrev dropped :
    (s : System) × Reach exclusive true init s
    × (s.pc 1 ≡ discarding (of_group group_5 (some 3)))
    × (s.shared.can_be_taken_from 5 ≡ true)
unfolding take_executable begin_execution finish_execution
dropped = (
  _,
  later
      (later
        (later
          (later start (
            take 0 (of_group group_5 (some 3)) refl refl (group_5, refl, refl)
              (λ g e. of_group-HasType group_5 g (some 3) refl e) (inl refl)))
          (begin 0 (of_group group_5 (some 3)) refl))
        (finish 0 (of_group group_5 (some 3)) refl))
      (take 1 (of_group group_5 (some 3)) refl refl (group_5, refl, refl)
        (λ g e. of_group-HasType group_5 g (some 3) refl e) (inr refl)),
  refl,
  refl,
)

drop_breaks_exclusion_example :
    (t : System) × Reach exclusive true dropped.0 t
    × (holds 5 (t.pc 2) ≡ true)
    × (holds 5 (t.pc 3) ≡ true)
unfolding take_executable begin_execution finish_execution
drop_breaks_exclusion_example =
    drop_breaks_exclusion exclusive group_5 dropped.0 1 2 3 (of_group group_5 (some 3))
      (of_group group_5 none) (of_group group_5 none) refl refl (omega arith) (omega arith)
      (omega arith) refl refl refl refl refl refl refl refl refl refl
