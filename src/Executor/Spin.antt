-- ===== src/Executor/Spin.antt =====
-- The execution of what an executor has chosen, and its loops
-- (rclcpp/rclcpp/src/rclcpp/executor.cpp, and spin of executors/single_threaded_executor.cpp).
use pmros.Base.{Bool, true, false, not, if◌then◌else◌, Option, none, some, List, [], ◌∷◌, ◌++◌}
use pmros.Base.Results.{Result, ok, err, runtime_error}
use pmros.Executor.{SubscriptionBase, Endpoint, AnyExecutable, release}
use pmros.Executor.Run.{
  Callback, timer_callback, subscription_callback, intra_process_callback, service_callback,
  client_callback, waitable_callback, Outcome, handled, not_taken, throws, Executor, Turn,
  get_next_executable,
}

abbrev pub with_address {ℓ} : {A : Type ℓ} → (A → Callback) → Option A → List Callback
with_address f none = []
with_address f (some a) = f a ∷ []

abbrev pub callbacks_of : AnyExecutable → List Callback
callbacks_of a =
    with_address timer_callback a.timer
    ++ (with_address (λ (s : SubscriptionBase). subscription_callback s.address) a.subscription
        ++ (with_address (λ (s : SubscriptionBase). intra_process_callback s.address)
              a.subscription_intra_process
            ++ (with_address (λ (e : Endpoint). service_callback e.address) a.service
                ++ (with_address (λ (e : Endpoint). client_callback e.address) a.client
                    ++ with_address waitable_callback a.waitable))))

-- Up to the first one that throws.
abbrev pub run_callbacks :
    (Callback → Outcome) → List Callback → List Callback → Result (Unit {0}) × List Callback
run_callbacks outcome [] executed = (ok tt, executed)
run_callbacks outcome (c ∷ cs) executed = elim (outcome c) [
  | handled ↦ run_callbacks outcome cs (executed ++ (c ∷ []))
  | not_taken ↦ run_callbacks outcome cs executed
  | throws e ↦ (err e, executed ++ (c ∷ []))
]

abbrev pub after_callbacks :
    Turn
    → AnyExecutable
    → Executor
    → Result (Unit {0}) × List Callback
    → Result (Unit {0}) × Executor
after_callbacks turn any_exec ex (err e, executed) = (err e, record ex { executed = executed })
after_callbacks turn any_exec ex (ok _, executed) = (
  if turn.trigger_fails then err runtime_error else ok tt,
  record ex {
    executed = executed;
    can_be_taken_from = release any_exec.callback_group ex.can_be_taken_from;
  },
)

unfoldable pub execute_any_executable :
    Turn → AnyExecutable → Executor → Result (Unit {0}) × Executor
execute_any_executable turn any_exec ex =
    if not turn.spins_at_execution
    then (ok tt, ex)
    else after_callbacks turn any_exec ex
        (run_callbacks turn.outcome (callbacks_of any_exec) ex.executed)

-- A round of the loops: whether there was an executable. The destructor of the executable runs at
-- the end, after an exception too.
abbrev pub destroy :
    AnyExecutable → Result Bool → Result (Unit {0}) × Executor → Result Bool × Executor
destroy any_exec result (err e, ex) =
    (err e, record ex { can_be_taken_from = release any_exec.callback_group ex.can_be_taken_from })
destroy any_exec result (ok _, ex) =
    (result, record ex { can_be_taken_from = release any_exec.callback_group ex.can_be_taken_from })

abbrev pub after_search : Turn → Result (Bool × AnyExecutable) × Executor → Result Bool × Executor
after_search turn (err e, ex) = (err e, ex)
after_search turn (ok (true, any_exec), ex) =
    destroy any_exec (ok true) (execute_any_executable turn any_exec ex)
after_search turn (ok (false, any_exec), ex) = destroy any_exec (ok false) (ok tt, ex)

unfoldable pub run_turn : Turn → Executor → Result Bool × Executor
run_turn turn ex = after_search turn (get_next_executable turn ex)

abbrev pub exclusively :
    (Executor → Result (Unit {0}) × Executor) → Executor → Result (Unit {0}) × Executor
exclusively body ex =
    let (done, ex') = body (record ex { spinning = true }) in
    if ex.spinning then (err runtime_error, ex) else (done, record ex' { spinning = false })

abbrev pub without_result : Result Bool × Executor → Result (Unit {0}) × Executor
without_result (err e, ex) = (err e, ex)
without_result (ok _, ex) = (ok tt, ex)

unfoldable pub spin_once_impl : Turn → Executor → Result (Unit {0}) × Executor
unfolding run_turn
spin_once_impl turn ex = without_result (run_turn turn ex)

unfoldable pub spin_once : Turn → Executor → Result (Unit {0}) × Executor
spin_once turn = exclusively (spin_once_impl turn)

-- The turns are the rounds in which the context is valid, nobody has cancelled, and spin_some still
-- has time. An exception ends the loop, and the lack of an executable that of spin_some.
unfoldable pub spin_rounds : List Turn → Executor → Result (Unit {0}) × Executor
spin_rounds [] ex = (ok tt, ex)
spin_rounds (turn ∷ turns) ex =
    let (done, ex') = run_turn turn ex in
    elim done [ err e ↦ (err e, ex') | ok _ ↦ spin_rounds turns ex' ]

unfoldable pub spin_some_rounds : List Turn → Executor → Result (Unit {0}) × Executor
spin_some_rounds [] ex = (ok tt, ex)
spin_some_rounds (turn ∷ turns) ex =
    let (done, ex') = run_turn turn ex in
    elim done [
      | err e ↦ (err e, ex')
      | ok success ↦ elim success [ false ↦ (ok tt, ex') | true ↦ spin_some_rounds turns ex' ]
    ]

unfoldable pub spin : List Turn → Executor → Result (Unit {0}) × Executor
spin turns = exclusively (spin_rounds turns)

unfoldable pub spin_some : List Turn → Executor → Result (Unit {0}) × Executor
spin_some turns = exclusively (spin_some_rounds turns)
