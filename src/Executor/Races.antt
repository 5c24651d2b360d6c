-- ===== src/Executor/Races.antt =====
-- Where a multi-threaded executor fails its mutually exclusive callback groups
-- (rclcpp/rclcpp/src/rclcpp/executors/multi_threaded_executor.cpp).
use pmros.Base.{ℕ, Bool, true, false, none, some, ◌≡◌, ◌≢◌, inl, refl, arith}
use pmros.Executor.{CallbackGroup, CallbackGroupType, mutually_exclusive, AnyExecutable}
use pmros.Executor.Threads.{
  Pc, idle, selected, discarding, take_executable, begin_execution, finish_execution, end_round,
  destroy_executable, System, update, Step, take, begin, finish, next_round, destroy, stop_spinning,
  spin_again, Reach, start, later, init, is_in, holds,
}
use pmros.Executor.Exclusion.{Reach-Inv}

-- No thread can release the group `g` any more, which cannot be taken from.
abbrev drops_group : ℕ → Pc → Bool
drops_group g (discarding a) = is_in g a.callback_group
drops_group g _ = false

record Lost (g : ℕ) (s : System) : Type 0 where
  taken : s.shared.can_be_taken_from g ≡ false
  unheld : (i : ℕ) → holds g (s.pc i) ≡ false
  undropped : (i : ℕ) → drops_group g (s.pc i) ≡ false

Step-Lost :
    {type_of : ℕ → CallbackGroupType} {g : ℕ} {s t : System}
    → Lost g s
    → Step type_of true s t
    → Lost g t
unfolding take_executable begin_execution finish_execution end_round destroy_executable
Step-Lost {type_of} {g} {s} v (begin i a e) = record {
  taken = v.taken;
  unheld = λ j. ground (arith, v.unheld j, v.unheld i);
  undropped = λ j. ground (arith, v.undropped j);
}
Step-Lost {type_of} {g} {s} v (finish i a e) = record {
  taken = ground (arith, v.taken, v.unheld i);
  unheld = λ j. ground (arith, v.unheld j);
  undropped = λ j. ground (arith, v.undropped j);
}
Step-Lost {type_of} {g} {s} v (next_round i a e) = record {
  taken = v.taken;
  unheld = λ j. ground (arith, v.unheld j);
  undropped = λ j. ground (arith, v.undropped j);
}
Step-Lost {type_of} {g} {s} v (destroy i a e) = record {
  taken = ground (arith, v.taken, v.undropped i);
  unheld = λ j. ground (arith, v.unheld j);
  undropped = λ j. ground (arith, v.undropped j);
}
Step-Lost v stop_spinning = record { taken = v.taken; unheld = v.unheld; undropped = v.undropped }
Step-Lost v (spin_again idle_all) = record {
  taken = v.taken;
  unheld = v.unheld;
  undropped = v.undropped;
}
Step-Lost {type_of} {g} {s} v (take i a e on (c, in_c, free) typed keeps) = record {
  taken = ground (arith, v.taken, in_c);
  unheld = λ j. ground (arith, v.taken, v.unheld j, in_c);
  undropped = λ j. ground (arith, v.taken, v.undropped j, in_c);
}

Reach-Lost :
    {type_of : ℕ → CallbackGroupType} {g : ℕ} {s t : System}
    → Lost g s
    → Reach type_of true s t
    → Lost g t
Reach-Lost v start = v
Reach-Lost v (later r st) = Step-Lost (Reach-Lost v r) st

-- The state after a thread that has selected `a` begins to execute it and ends its round.
abbrev pub cancelled : ℕ → AnyExecutable → System → System
cancelled i a s = record {
  shared = end_round a s.shared;
  pc = update (update s.pc i (begin_execution a s.shared)) i idle;
}

-- If an executor in which no thread has dropped a timer is cancelled between the selection of an
-- executable of a mutually exclusive group and its execution, the thread goes on without executing
-- it and without releasing the group: in every state that is reached from then on, also after the
-- executor spins again, the group cannot be taken from, and no thread has an executable of it.
pub cancel_loses_group :
    (type_of : ℕ → CallbackGroupType) (g : ℕ) (s : System) (i : ℕ) (a : AnyExecutable) (t : System)
    → type_of g ≡ mutually_exclusive
    → Reach type_of false init s
    → s.pc i ≡ selected a
    → is_in g a.callback_group ≡ true
    → s.shared.spinning ≡ false
    → Reach type_of true (cancelled i a s) t
    → Reach type_of true s (cancelled i a s)
      × (t.shared.can_be_taken_from g ≡ false)
      × ((j : ℕ) → holds g (t.pc j) ≡ false)
unfolding begin_execution end_round
cancel_loses_group type_of g s i a t m r e in_g off r' =
    let v = Reach-Inv g m r in
    let lost : Lost g (cancelled i a s) = record {
      taken = ground (arith, v.flagged i);
      unheld = λ j. ground (arith, v.unique j i);
      undropped = λ j. ground (arith, v.quiet j);
    } in
    let lost' = Reach-Lost lost r' in
    (later (later start (begin i a e)) (next_round i a (ground arith)), lost'.taken, lost'.unheld)

-- While the executor spins, let a thread have dropped a timer of a mutually exclusive group that
-- can be taken from, and not yet destroyed the executable. Then two other threads at the head of
-- their loops can both come to have executables of the group, none of them a timer: the destructor
-- releases the group once more after the first of them has taken it.
pub drop_breaks_exclusion :
    (type_of : ℕ → CallbackGroupType) (u : CallbackGroup) (s : System) (i j k : ℕ)
    (a b c : AnyExecutable)
    → u.type ≡ type_of u.address
    → u.type ≡ mutually_exclusive
    → i ≢ j
    → i ≢ k
    → j ≢ k
    → s.pc i ≡ discarding a
    → s.pc j ≡ idle
    → s.pc k ≡ idle
    → s.shared.spinning ≡ true
    → s.shared.can_be_taken_from u.address ≡ true
    → a.callback_group ≡ some u
    → b.callback_group ≡ some u
    → c.callback_group ≡ some u
    → b.timer ≡ none
    → c.timer ≡ none
    → (t : System) × Reach type_of true s t
      × (holds u.address (t.pc j) ≡ true)
      × (holds u.address (t.pc k) ≡ true)
unfolding take_executable destroy_executable
drop_breaks_exclusion type_of u s i j k a b c typed m ij ik jk di dj dk on free ga gb gc tb tc = (
  _,
  later
      (later
        (later start (take j b dj on (u, gb, free) (λ w q. cc (typed, gb, q)) (inl (rw tb refl))))
        (destroy i a (ground arith)))
      (take k c (ground arith) (ground arith) (u, gc, ground arith) (λ w q. cc (typed, gc, q))
        (inl (rw tc refl))),
  ground arith,
  ground arith,
)
