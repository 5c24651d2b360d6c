-- ===== src/Actions/Cancel.antt =====
-- Accepting goals and requests to cancel them (rcl/rcl_action/src/rcl_action/action_server.c).
use pmros.Base.{
  ℕ, ◌*◌, ◌^◌, ◌<◌, Bool, true, false, ◌&&◌, ◌||◌, if◌then◌else◌, List, [], ◌∷◌, ◌≡◌, ◌⊎◌, inl, inr,
  refl, arith, All, Bool-cases,
}
use pmros.Base.Bytes.{Bytes, eq_bytes}
use pmros.Base.Int.{ℤ, pos, ◌+ℤ◌, ◌≤ℤ◌, int64_max, leb_ℤ}
use pmros.Actions.{GoalInfo, GoalHandle, is_cancelable}
use pmros.Actions.Server.{
  goal_info_stamp_to_nanosec, nanosec_to_goal_info_stamp, find_goal, cancel_until,
  process_cancel_request, CancelResponse, error_none, zero_uuid, cancel_found,
}

-- A time that fits a message goes into the stamp of a goal and comes back.
pub stamp_round_trip :
    (n : ℕ) (info : GoalInfo)
    → n < 2 ^ 31 * 1000000000
    → goal_info_stamp_to_nanosec (nanosec_to_goal_info_stamp (pos n) info) ≡ pos n
unfolding goal_info_stamp_to_nanosec nanosec_to_goal_info_stamp ◌+ℤ◌
stamp_round_trip n info h = ground arith

abbrev pub cancelable_infos : List GoalHandle → List GoalInfo
cancelable_infos [] = []
cancelable_infos (g ∷ goals) =
    if is_cancelable g then g.info ∷ cancelable_infos goals else cancelable_infos goals

-- Every goal's stamp fits an int64_t.
abbrev pub Stamped : List GoalHandle → Type 0
Stamped goals = All (λ g. goal_info_stamp_to_nanosec g.info ≤ℤ pos int64_max) goals

and_true : (b : Bool) → (b && true) ≡ b
and_true true = refl
and_true false = refl

cancel_until_all :
    (uuid : Bytes) (goals : List GoalHandle)
    → Stamped goals
    → cancel_until (pos int64_max) uuid goals ≡ cancelable_infos goals
unfolding cancel_until
cancel_until_all uuid [] h = refl
cancel_until_all uuid (g ∷ goals) (l, h) =
    let e : leb_ℤ (goal_info_stamp_to_nanosec g.info) (pos int64_max) ≡ true = ground (arith, l) in
    rw (e, cancel_until_all uuid goals h, and_true (is_cancelable g)) refl

-- A request with a zero identity and a zero time lists every goal that can be canceled, in their
-- order, and no other, where the stamps of the goals fit an int64_t.
pub cancel_zero :
    (request : GoalInfo) (goals : List GoalHandle)
    → request.uuid ≡ zero_uuid
    → goal_info_stamp_to_nanosec request ≡ pos 0
    → Stamped goals
    → process_cancel_request request goals
      ≡ record { return_code = error_none; goals_canceling = cancelable_infos goals }
unfolding process_cancel_request
cancel_zero request goals u z h = rw (z, u, cancel_until_all zero_uuid goals h) refl

-- An info of a goal of the list that can be canceled.
abbrev pub Cancelable : List GoalHandle → GoalInfo → Type 0
Cancelable [] info = ⊥
Cancelable (g ∷ goals) info = ((is_cancelable g ≡ true) × (g.info ≡ info)) ⊎ Cancelable goals info

weaken-Cancelable :
    (g : GoalHandle) (goals : List GoalHandle) (infos : List GoalInfo)
    → All (Cancelable goals) infos
    → All (Cancelable (g ∷ goals)) infos
weaken-Cancelable g goals [] h = tt
weaken-Cancelable g goals (i ∷ infos) (p, h) = (inr p, weaken-Cancelable g goals infos h)

-- A list whose head stands under a test.
All-if {ℓ κ} :
    {A : Type ℓ} (P : A → Type κ) (b : Bool) (x : A) (xs : List A)
    → (b ≡ true → P x)
    → All P xs
    → All P (if b then x ∷ xs else xs)
All-if P true x xs p h = (p refl, h)
All-if P false x xs p h = h

and_left : (a b : Bool) → (a && b) ≡ true → a ≡ true
and_left a b h = ground arith

cancel_until-Cancelable :
    (t : ℤ) (uuid : Bytes) (goals : List GoalHandle)
    → All (Cancelable goals) (cancel_until t uuid goals)
unfolding cancel_until
cancel_until-Cancelable t uuid [] = tt
cancel_until-Cancelable t uuid (g ∷ goals) =
    let requested = leb_ℤ (goal_info_stamp_to_nanosec g.info) t || eq_bytes uuid g.info.uuid in
    All-if (Cancelable (g ∷ goals)) (is_cancelable g && requested) g.info
      (cancel_until t uuid goals) (λ e. inl (and_left (is_cancelable g) requested e, refl))
      (weaken-Cancelable g goals (cancel_until t uuid goals) (cancel_until-Cancelable t uuid goals))

found-Cancelable :
    (uuid : Bytes) (goals : List GoalHandle)
    → All (Cancelable goals) (cancel_found (find_goal uuid goals)).goals_canceling
unfolding find_goal
found-Cancelable uuid [] = tt
found-Cancelable uuid (g ∷ goals) = elim (Bool-cases (eq_bytes uuid g.info.uuid)) [
  | inl e ↦ elim (Bool-cases (is_cancelable g)) [
    | inl c ↦ rw e (rw c ((inl (c, refl)), tt))
    | inr c ↦ rw e (rw c tt)
  ]
  | inr e ↦ rw e (
      weaken-Cancelable g goals (cancel_found (find_goal uuid goals)).goals_canceling
        (found-Cancelable uuid goals))
]

-- One of two answers.
either :
    (goals : List GoalHandle) (b : Bool) (x y : CancelResponse)
    → All (Cancelable goals) x.goals_canceling
    → All (Cancelable goals) y.goals_canceling
    → All (Cancelable goals) (if b then x else y).goals_canceling
either goals true x y p q = p
either goals false x y p q = q

-- Every goal that the answer to a request lists can be canceled.
pub process_cancel_request-Cancelable :
    (request : GoalInfo) (goals : List GoalHandle)
    → All (Cancelable goals) (process_cancel_request request goals).goals_canceling
unfolding process_cancel_request
process_cancel_request-Cancelable request goals =
    either goals _ _ _ (found-Cancelable request.uuid goals)
      (cancel_until-Cancelable _ request.uuid goals)

-- Every goal that the answer to a request lists can be canceled; and a request with a zero identity
-- and a zero time lists all goals that can be canceled, in their order, where the stamps of the goals
-- fit an int64_t.
pub process_cancel_request_lem :
    (request all : GoalInfo) (goals : List GoalHandle)
    → all.uuid ≡ zero_uuid
    → goal_info_stamp_to_nanosec all ≡ pos 0
    → Stamped goals
    → All (Cancelable goals) (process_cancel_request request goals).goals_canceling
      × (process_cancel_request all goals
          ≡ record { return_code = error_none; goals_canceling = cancelable_infos goals })
process_cancel_request_lem request all goals u z h =
    (process_cancel_request-Cancelable request goals, cancel_zero all goals u z h)
