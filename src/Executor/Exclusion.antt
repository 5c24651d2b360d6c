-- ===== src/Executor/Exclusion.antt =====
-- What a multi-threaded executor promises of mutually exclusive callback groups, and where it fails
-- (rclcpp/rclcpp/src/rclcpp/executors/multi_threaded_executor.cpp).
use pmros.Base.{ℕ, Bool, true, false, ◌≡◌, inl, inr, refl, arith}
use pmros.Executor.{CallbackGroupType, mutually_exclusive}
use pmros.Executor.Threads.{
  Pc, discarding, take_executable, begin_execution, finish_execution, end_round, destroy_executable,
  System, Step, take, begin, finish, next_round, destroy, stop_spinning, spin_again, Reach, start,
  later, init, holds,
}

abbrev pub is_discarding : Pc → Bool
is_discarding (discarding a) = true
is_discarding _ = false

module _ (g : ℕ) where
  -- At most one thread has an executable of `g`, which cannot be taken from then, and no thread drops
  -- a timer.
  pub record Inv (s : System) : Type 0 where
    pub flagged : (i : ℕ) → holds g (s.pc i) ≡ true → s.shared.can_be_taken_from g ≡ false
    pub unique : (i j : ℕ) → holds g (s.pc i) ≡ true → holds g (s.pc j) ≡ true → i ≡ j
    pub quiet : (i : ℕ) → is_discarding (s.pc i) ≡ false

  Step-Inv :
      {type_of : ℕ → CallbackGroupType} {s t : System}
      → type_of g ≡ mutually_exclusive
      → Inv s
      → Step type_of false s t
      → Inv t
  unfolding take_executable begin_execution finish_execution end_round destroy_executable
  Step-Inv {type_of} {s} m v (begin i a e) = record {
    flagged = λ j h. ground (arith, v.flagged j, v.flagged i);
    unique = λ j k h l. ground (arith, v.unique j k, v.unique i k, v.unique j i);
    quiet = λ j. ground (arith, v.quiet j);
  }
  Step-Inv {type_of} {s} m v (finish i a e) = record {
    flagged = λ j h. ground (arith, v.flagged j, v.unique j i);
    unique = λ j k h l. ground (arith, v.unique j k);
    quiet = λ j. ground (arith, v.quiet j);
  }
  Step-Inv {type_of} {s} m v (next_round i a e) = record {
    flagged = λ j h. ground (arith, v.flagged j);
    unique = λ j k h l. ground (arith, v.unique j k);
    quiet = λ j. ground (arith, v.quiet j);
  }
  Step-Inv {type_of} {s} m v (destroy i a e) = absurd (ground (arith, v.quiet i))
  Step-Inv {type_of} {s} m v stop_spinning = record {
    flagged = v.flagged;
    unique = v.unique;
    quiet = v.quiet;
  }
  Step-Inv {type_of} {s} m v (spin_again idle_all) = record {
    flagged = v.flagged;
    unique = v.unique;
    quiet = v.quiet;
  }
  Step-Inv {type_of} {s} m v (take i a e on (c, in_c, free) typed (inr impossible)) =
      absurd (cc (impossible))
  Step-Inv {type_of} {s} m v (take i a e on (c, in_c, free) typed (inl keeps)) = record {
    flagged = λ j h. ground (arith, v.flagged j, typed c in_c, in_c, keeps);
    unique = λ j k h l. ground (arith, v.unique j k, v.flagged j, v.flagged k, in_c, keeps);
    quiet = λ j. ground (arith, v.quiet j, keeps);
  }

  init-Inv : Inv init
  init-Inv = record { flagged = λ i h. absurd cc; unique = λ i j h k. absurd cc; quiet = λ i. refl }

  pub Reach-Inv :
      {type_of : ℕ → CallbackGroupType} {s : System}
      → type_of g ≡ mutually_exclusive
      → Reach type_of false init s
      → Inv s
  Reach-Inv m start = init-Inv
  Reach-Inv m (later r st) = Step-Inv m (Reach-Inv m r) st

-- As long as no thread drops a timer that another thread is still executing, at most one thread has
-- an executable of a mutually exclusive callback group, in whatever order the threads run, are
-- cancelled and spin again; and while one has, the group cannot be taken from.
pub mutual_exclusion :
    (type_of : ℕ → CallbackGroupType) (g : ℕ) (s : System)
    → type_of g ≡ mutually_exclusive
    → Reach type_of false init s
    → (i j : ℕ) → holds g (s.pc i) ≡ true
    → holds g (s.pc j) ≡ true
    → (i ≡ j) × (s.shared.can_be_taken_from g ≡ false)
mutual_exclusion type_of g s m r i j h k =
    let v = Reach-Inv g m r in (v.unique i j h k, v.flagged i h)
