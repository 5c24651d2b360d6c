-- ===== src/Executor/Threads.antt =====
-- The threads of a multi-threaded executor (run of
-- rclcpp/rclcpp/src/rclcpp/executors/multi_threaded_executor.cpp, which calls get_next_executable and
-- execute_any_executable of rclcpp/rclcpp/src/rclcpp/executor.cpp), interleaved in any order. What
-- wait_mutex_ protects is one step: other threads can only set can_be_taken_from to true meanwhile. A
-- round without an executable changes nothing and is left out, and an exception in a thread ends the
-- process.
use pmros.Base.{
  ℕ, Bool, true, false, ◌==◌, if◌then◌else◌, Option, none, some, List, [], ◌∷◌, ◌≡◌, ◌⊎◌,
}
use pmros.Executor.{CallbackGroup, CallbackGroupType, Flags, AnyExecutable, release}
use pmros.Executor.Run.{mark_taken}
use pmros.Executor.Timers.{IsFree}

-- What the threads share.
pub record Shared : Type 0 where
  pub can_be_taken_from : Flags
  pub scheduled_timers : List ℕ
  pub spinning : Bool

-- Where a thread stands: at the head of the loop; before execute_any_executable; in the callback;
-- after execute_any_executable; and after `continue`, before the destructor of the executable.
pub data Pc : Type 0 where
  idle : Pc
  selected : AnyExecutable → Pc
  executing : AnyExecutable → Pc
  executed : AnyExecutable → Pc
  discarding : AnyExecutable → Pc

abbrev pub is_scheduled : ℕ → List ℕ → Bool
is_scheduled t [] = false
is_scheduled t (u ∷ us) = if u == t then true else is_scheduled t us

abbrev pub erase_timer : ℕ → List ℕ → List ℕ
erase_timer t [] = []
erase_timer t (u ∷ us) = if u == t then us else u ∷ erase_timer t us

abbrev pub is_scheduled_already : Option ℕ → List ℕ → Bool
is_scheduled_already none us = false
is_scheduled_already (some t) us = is_scheduled t us

abbrev pub schedule : Option ℕ → List ℕ → List ℕ
schedule none us = us
schedule (some t) us = t ∷ us

abbrev pub unschedule : Option ℕ → List ℕ → List ℕ
unschedule none us = us
unschedule (some t) us = erase_timer t us

-- The rest of the critical section, once get_next_executable has found `a`: the group is marked, and
-- the thread drops a timer that another thread is still executing.
unfoldable pub take_executable : AnyExecutable → Shared → Shared × Pc
take_executable a s =
    let marked = mark_taken a.callback_group s.can_be_taken_from in
    if is_scheduled_already a.timer s.scheduled_timers
    then (record s { can_be_taken_from = release a.callback_group marked }, discarding a)
    else (
      record s {
        can_be_taken_from = marked;
        scheduled_timers = schedule a.timer s.scheduled_timers;
      },
      selected a,
    )

-- execute_any_executable up to the callback: it returns at once if the executor no longer spins.
unfoldable pub begin_execution : AnyExecutable → Shared → Pc
begin_execution a s = if s.spinning then executing a else executed a

unfoldable pub finish_execution : AnyExecutable → Shared → Shared
finish_execution a s = record s { can_be_taken_from = release a.callback_group s.can_be_taken_from }

-- The timer is erased, and the executable forgets its group, so that its destructor does nothing.
unfoldable pub end_round : AnyExecutable → Shared → Shared
end_round a s = record s { scheduled_timers = unschedule a.timer s.scheduled_timers }

unfoldable pub destroy_executable : AnyExecutable → Shared → Shared
destroy_executable a s = record s {
  can_be_taken_from = release a.callback_group s.can_be_taken_from;
}

pub record System : Type 0 where
  pub shared : Shared
  pub pc : ℕ → Pc

abbrev pub update : (ℕ → Pc) → ℕ → Pc → ℕ → Pc
update pc i p j = if j == i then p else pc j

-- The type of a group does not change.
abbrev pub HasType : (ℕ → CallbackGroupType) → AnyExecutable → Type 0
HasType type_of a = (g : CallbackGroup) → a.callback_group ≡ some g → g.type ≡ type_of g.address

-- The steps, with timers that are dropped only if `drops` allows it.
pub data Step (type_of : ℕ → CallbackGroupType) (drops : Bool) (s : System) : System → Type 0 where
  take :
      (i : ℕ) (a : AnyExecutable)
      → s.pc i ≡ idle
      → s.shared.spinning ≡ true
      → IsFree s.shared.can_be_taken_from a
      → HasType type_of a
      → (is_scheduled_already a.timer s.shared.scheduled_timers ≡ false) ⊎ (drops ≡ true)
      → Step type_of drops s (record {
        shared = (take_executable a s.shared).0;
        pc = update s.pc i (take_executable a s.shared).1;
      })
  begin :
      (i : ℕ) (a : AnyExecutable)
      → s.pc i ≡ selected a
      → Step type_of drops s (record s { pc = update s.pc i (begin_execution a s.shared) })
  finish :
      (i : ℕ) (a : AnyExecutable)
      → s.pc i ≡ executing a
      → Step type_of drops s
          (record { shared = finish_execution a s.shared; pc = update s.pc i (executed a) })
  next_round :
      (i : ℕ) (a : AnyExecutable)
      → s.pc i ≡ executed a
      → Step type_of drops s (record { shared = end_round a s.shared; pc = update s.pc i idle })
  destroy :
      (i : ℕ) (a : AnyExecutable)
      → s.pc i ≡ discarding a
      → Step type_of drops s
          (record { shared = destroy_executable a s.shared; pc = update s.pc i idle })
  stop_spinning : Step type_of drops s (record s { shared = record s.shared { spinning = false } })
  spin_again :
      ((i : ℕ) → s.pc i ≡ idle)
      → Step type_of drops s (record s { shared = record s.shared { spinning = true } })

pub data Reach (type_of : ℕ → CallbackGroupType) (drops : Bool) (s : System) : System → Type 0 where
  start : Reach type_of drops s s
  later :
      {t u : System} → Reach type_of drops s t → Step type_of drops t u → Reach type_of drops s u

-- All groups can be taken from, and every thread is at the head of its loop.
abbrev pub init : System
init = record {
  shared = record { can_be_taken_from = λ g. true; scheduled_timers = []; spinning = true };
  pc = λ i. idle;
}

abbrev pub is_in : ℕ → Option CallbackGroup → Bool
is_in g none = false
is_in g (some c) = c.address == g

-- The thread has an executable of the group `g`, from the critical section to the end of its callback.
abbrev pub holds : ℕ → Pc → Bool
holds g idle = false
holds g (selected a) = is_in g a.callback_group
holds g (executing a) = is_in g a.callback_group
holds g (executed a) = false
holds g (discarding a) = false
