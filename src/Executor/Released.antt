-- ===== src/Executor/Released.antt =====
-- An executor with one thread leaves no callback group taken (rclcpp/rclcpp/src/rclcpp/executor.cpp
-- and executors/single_threaded_executor.cpp).
use pmros.Base.{
  ℕ, Bool, true, false, Option, none, some, List, [], ◌∷◌, ◌≡◌, ◌⊎◌, inl, inr, refl, arith,
  Bool-cases,
}
use pmros.Base.Results.{Result, ok, err, runtime_error}
use pmros.Executor.{
  CallbackGroup, CallbackGroupType, mutually_exclusive, reentrant, Flags, store, AnyExecutable,
  new_any_executable, release,
}
use pmros.Executor.Strategy.{MemoryStrategy}
use pmros.Executor.Run.{
  Turn, Executor, Callback, get_next_ready_executable, take_group, mark_taken, marked, found,
  after_wait, after_look, look, wait_for_work, get_next_executable,
}
use pmros.Executor.Spin.{
  after_search, destroy, after_callbacks, without_result, exclusively, callbacks_of, run_callbacks,
  execute_any_executable, run_turn, spin_once_impl, spin_once, spin_rounds, spin_some_rounds, spin,
  spin_some,
}

abbrev pub AllFree : Flags → Type 0
AllFree flags = (g : ℕ) → flags g ≡ true

-- All are free once the group of the executable is released.
abbrev Held : Option CallbackGroup → Flags → Type 0
Held c flags = AllFree (release c flags)

Held-free : (c : Option CallbackGroup) (flags : Flags) → AllFree flags → Held c flags
Held-free none flags h k = h k
Held-free (some g) flags h k = ground (arith, h k)

take_free :
    (t : CallbackGroupType) (g : ℕ) (flags : Flags)
    → AllFree flags
    → AllFree (store g true (take_group t g flags))
take_free mutually_exclusive g flags h k = ground (arith, h k)
take_free reentrant g flags h k = ground (arith, h k)

Held-taken :
    (c : Option CallbackGroup) (flags : Flags) → AllFree flags → Held c (mark_taken c flags)
Held-taken none flags h = h
Held-taken (some g) flags h = take_free g.type g.address flags h

wait_for_work_flags :
    (turn : Turn) (ex : Executor)
    → (wait_for_work turn ex).1.can_be_taken_from ≡ ex.can_be_taken_from
unfolding wait_for_work
wait_for_work_flags turn ex = ground arith

-- After one look for an executable, and after the whole search.
abbrev Looked : Bool × AnyExecutable × Executor → Type 0
Looked (true, a, ex) = Held a.callback_group ex.can_be_taken_from
Looked (false, a, ex) = AllFree ex.can_be_taken_from

abbrev Found : Result (Bool × AnyExecutable) × Executor → Type 0
Found (err e, ex) = AllFree ex.can_be_taken_from
Found (ok (success, a), ex) = Held a.callback_group ex.can_be_taken_from

look-Looked :
    (ready : ℕ → Bool) (ex : Executor) → AllFree ex.can_be_taken_from → Looked (look ready ex)
unfolding look
look-Looked ready ex h = go (
    get_next_ready_executable ready ex.weak_nodes ex.can_be_taken_from new_any_executable
      ex.memory_strategy)
  where
    go : (r : Bool × AnyExecutable × MemoryStrategy) → Looked (marked ex r)
    go (true, a, m) = Held-taken a.callback_group ex.can_be_taken_from h
    go (false, a, m) = h

after_look-Found :
    (turn : Turn) (r : Bool × AnyExecutable × Executor) → Looked r → Found (after_look turn r)
after_look-Found turn (true, a, ex) h = h
after_look-Found turn (false, a, ex) h =
    waited (wait_for_work turn ex) (rw (wait_for_work_flags turn ex) h)
  where
    looked : (r : Bool × AnyExecutable × Executor) → Looked r → Found (found r)
    looked (true, b, ex') l = l
    looked (false, b, ex') l = Held-free b.callback_group ex'.can_be_taken_from l

    waited :
        (r : Result (Unit {0}) × Executor)
        → AllFree r.1.can_be_taken_from
        → Found (after_wait turn a r)
    waited (err e, ex') w = w
    waited (ok u, ex') w = elim (Bool-cases turn.spins_after_wait) [
      | inl e ↦
          rw e (looked (look turn.timer_ready_after ex') (look-Looked turn.timer_ready_after ex' w))
      | inr e ↦ rw e (Held-free a.callback_group ex'.can_be_taken_from w)
    ]

execute-Held :
    (turn : Turn) (a : AnyExecutable) (ex : Executor)
    → Held a.callback_group ex.can_be_taken_from
    → Held a.callback_group (execute_any_executable turn a ex).1.can_be_taken_from
unfolding execute_any_executable
execute-Held turn a ex h = elim (Bool-cases turn.spins_at_execution) [
  | inl e ↦ rw e (go (run_callbacks turn.outcome (callbacks_of a) ex.executed))
  | inr e ↦ rw e h
]
  where
    go :
        (r : Result (Unit {0}) × List Callback)
        → Held a.callback_group (after_callbacks turn a ex r).1.can_be_taken_from
    go (err e, cs) = h
    go (ok u, cs) = Held-free a.callback_group (release a.callback_group ex.can_be_taken_from) h

run_turn-AllFree :
    (turn : Turn) (ex : Executor)
    → AllFree ex.can_be_taken_from
    → AllFree (run_turn turn ex).1.can_be_taken_from
unfolding run_turn get_next_executable
run_turn-AllFree turn ex h =
    go (after_look turn (look turn.timer_ready ex))
      (after_look-Found turn (look turn.timer_ready ex) (look-Looked turn.timer_ready ex h))
  where
    destroyed :
        (a : AnyExecutable) (b : Result Bool) (r : Result (Unit {0}) × Executor)
        → Held a.callback_group r.1.can_be_taken_from
        → AllFree (destroy a b r).1.can_be_taken_from
    destroyed a b (err e, ex') d = d
    destroyed a b (ok u, ex') d = d

    go :
        (r : Result (Bool × AnyExecutable) × Executor)
        → Found r
        → AllFree (after_search turn r).1.can_be_taken_from
    go (err e, ex') f = f
    go (ok (true, a), ex') f =
        destroyed a (ok true) (execute_any_executable turn a ex') (execute-Held turn a ex' f)
    go (ok (false, a), ex') f = f

spin_rounds-AllFree :
    (turns : List Turn) (ex : Executor)
    → AllFree ex.can_be_taken_from
    → AllFree (spin_rounds turns ex).1.can_be_taken_from
unfolding spin_rounds
spin_rounds-AllFree [] ex h = h
spin_rounds-AllFree (turn ∷ turns) ex h =
    go (run_turn turn ex) (run_turn-AllFree turn ex h) (spin_rounds-AllFree turns)
  where
    go :
        (r : Result Bool × Executor)
        → AllFree r.1.can_be_taken_from
        → ((ex' : Executor)
            → AllFree ex'.can_be_taken_from
            → AllFree (spin_rounds turns ex').1.can_be_taken_from)
        → AllFree
            (elim r.0 as (λ s. Result (Unit {0}) × Executor) [
              | err e ↦ (err e, r.1)
              | ok _ ↦ spin_rounds turns r.1
            ]).1.can_be_taken_from
    go (err e, ex') f rest = f
    go (ok b, ex') f rest = rest ex' f

spin_some_rounds-AllFree :
    (turns : List Turn) (ex : Executor)
    → AllFree ex.can_be_taken_from
    → AllFree (spin_some_rounds turns ex).1.can_be_taken_from
unfolding spin_some_rounds
spin_some_rounds-AllFree [] ex h = h
spin_some_rounds-AllFree (turn ∷ turns) ex h =
    go (run_turn turn ex) (run_turn-AllFree turn ex h) (spin_some_rounds-AllFree turns)
  where
    go :
        (r : Result Bool × Executor)
        → AllFree r.1.can_be_taken_from
        → ((ex' : Executor)
            → AllFree ex'.can_be_taken_from
            → AllFree (spin_some_rounds turns ex').1.can_be_taken_from)
        → AllFree
            (elim r.0 as (λ s. Result (Unit {0}) × Executor) [
              | err e ↦ (err e, r.1)
              | ok b ↦ elim b as (λ s. Result (Unit {0}) × Executor) [
                | false ↦ (ok tt, r.1)
                | true ↦ spin_some_rounds turns r.1
              ]
            ]).1.can_be_taken_from
    go (err e, ex') f rest = f
    go (ok true, ex') f rest = rest ex' f
    go (ok false, ex') f rest = f

spin_once_impl-AllFree :
    (turn : Turn) (ex : Executor)
    → AllFree ex.can_be_taken_from
    → AllFree (spin_once_impl turn ex).1.can_be_taken_from
unfolding spin_once_impl
spin_once_impl-AllFree turn ex h = go (run_turn turn ex) (run_turn-AllFree turn ex h)
  where
    go :
        (r : Result Bool × Executor)
        → AllFree r.1.can_be_taken_from
        → AllFree (without_result r).1.can_be_taken_from
    go (err e, ex') f = f
    go (ok b, ex') f = f

-- What is promised of a call that spins: it throws and changes nothing if the executor is spinning
-- already, and otherwise every group is free afterwards and the executor no longer spins.
abbrev pub IsReleased : Executor → Result (Unit {0}) × Executor → Type 0
IsReleased ex call =
    ((ex.spinning ≡ true) × (call ≡ (err runtime_error, ex)))
    ⊎ ((ex.spinning ≡ false) × AllFree call.1.can_be_taken_from × (call.1.spinning ≡ false))

exclusively-IsReleased :
    (body : Executor → Result (Unit {0}) × Executor) (ex : Executor)
    → AllFree (body (record ex { spinning = true })).1.can_be_taken_from
    → IsReleased ex (exclusively body ex)
exclusively-IsReleased body ex h = elim (Bool-cases ex.spinning) [
  | inl e ↦ inl (e, rw (e, exclusively) refl)
  | inr e ↦ inr (e, rw (e, exclusively) h, rw (e, exclusively) refl)
]

-- Where every callback group can be taken from, that is so again after spin_once, spin and spin_some,
-- whatever is ready, however the callbacks and the calls of rcl end, and whether or not another thread
-- cancels; and the executor no longer spins. A call while it spins throws and changes nothing.
pub spin-IsReleased :
    (turn : Turn) (turns : List Turn) (ex : Executor)
    → AllFree ex.can_be_taken_from
    → IsReleased ex (spin_once turn ex)
      × IsReleased ex (spin turns ex)
      × IsReleased ex (spin_some turns ex)
unfolding spin_once spin spin_some
spin-IsReleased turn turns ex h =
    let spinning = record ex { spinning = true } in
    (
      exclusively-IsReleased (spin_once_impl turn) ex (spin_once_impl-AllFree turn spinning h),
      exclusively-IsReleased (spin_rounds turns) ex (spin_rounds-AllFree turns spinning h),
      exclusively-IsReleased (spin_some_rounds turns) ex
          (spin_some_rounds-AllFree turns spinning h),
    )
