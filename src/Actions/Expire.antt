-- ===== src/Actions/Expire.antt =====
-- Goals that expire (rcl/rcl_action/src/rcl_action/action_server.c).
use pmros.Base.{
  ℕ, suc, ◌+◌, ◌≤◌, ◌<◌, Bool, true, false, ◌&&◌, not, if◌then◌else◌, Option, none, some, List, [],
  ◌∷◌, length, ◌≡◌, ◌≢◌, ◌⊎◌, inl, inr, refl, sym, subst, ap, ◌∙◌, arith, All, is_some, Bool-cases,
}
use pmros.Base.Int.{ltb_ℤ-cases, ℤ, pos, negsuc, ◌≤ℤ◌, ◌<ℤ◌, ◌+ℤ◌, ◌-ℤ◌, ◌*ℤ◌, ltb_ℤ, int_laws}
use pmros.Chrono.{s_to_ns}
use pmros.Actions.{
  GoalInfo, GoalHandle, GoalState, unknown, accepted, executing, canceling, succeeded, canceled,
  aborted, is_active,
}
use pmros.Actions.Server.{
  Expired, expire_loop, is_full, keep, write_if, is_expired, next_expiry,
  goal_info_stamp_to_nanosec,
}

and_left : (a b : Bool) → (a && b) ≡ true → a ≡ true
and_left a b h = ground arith

abbrev all_gone : ℕ → List (ℕ × GoalInfo) → Expired
all_gone n writes = record { kept = []; num_expired = n; writes = writes }

-- The goal is in none of the three states in which it runs.
abbrev pub HasEnded : GoalHandle → Type 0
HasEnded g = (g.state ≢ accepted) × (g.state ≢ executing) × (g.state ≢ canceling)

-- From the seconds and nanoseconds of the stamp to `now`, more than the timeout has passed.
abbrev pub IsOlder : ℤ → ℤ → GoalHandle → Type 0
IsOlder timeout now g =
    pos 1000000000 *ℤ g.info.stamp_sec +ℤ pos g.info.stamp_nanosec +ℤ timeout <ℤ now

-- A list of goals, what stays of it, and how many goals go.
pub data Swept (timeout now : ℤ) : List GoalHandle → List GoalHandle → ℕ → Type 0 where
  nothing : Swept timeout now [] [] 0
  goes_away :
      {g : GoalHandle} {goals rest : List GoalHandle} {n : ℕ}
      → HasEnded g
      → IsOlder timeout now g
      → Swept timeout now goals rest n
      → Swept timeout now (g ∷ goals) rest (suc n)
  stays :
      {g : GoalHandle} {goals rest : List GoalHandle} {n : ℕ}
      → (HasEnded g → IsOlder timeout now g → ⊥)
      → Swept timeout now goals rest n
      → Swept timeout now (g ∷ goals) (g ∷ rest) n

-- How the code tells whether a goal has ended.
state-cases :
    (i : GoalInfo) (s : GoalState)
    → let g : GoalHandle = record { info = i; state = s } in
      ((is_active g ≡ true) × (HasEnded g → ⊥)) ⊎ ((is_active g ≡ false) × HasEnded g)
unfolding is_active
state-cases i unknown = inr (refl, ((λ e. cc), (λ e. cc), (λ e. cc)))
state-cases i accepted = inl (refl, λ h. h.0 refl)
state-cases i executing = inl (refl, λ h. h.1 refl)
state-cases i canceling = inl (refl, λ h. h.2 refl)
state-cases i succeeded = inr (refl, ((λ e. cc), (λ e. cc), (λ e. cc)))
state-cases i canceled = inr (refl, ((λ e. cc), (λ e. cc), (λ e. cc)))
state-cases i aborted = inr (refl, ((λ e. cc), (λ e. cc), (λ e. cc)))

s_to_ns-*ℤ : (sec : ℤ) → s_to_ns sec ≡ pos 1000000000 *ℤ sec
unfolding ◌*ℤ◌
s_to_ns-*ℤ (pos n) = refl
s_to_ns-*ℤ (negsuc n) = ground arith

module _ (timeout now : ℤ) where
  abbrev pub goes : GoalHandle → Bool
  goes g = not (is_active g) && is_expired timeout now g

  abbrev pub staying : List GoalHandle → List GoalHandle
  staying [] = []
  staying (g ∷ goals) = if goes g then staying goals else g ∷ staying goals

  abbrev pub count_going : List GoalHandle → ℕ
  count_going [] = 0
  count_going (g ∷ goals) = if goes g then suc (count_going goals) else count_going goals

  expire_gone :
      (capacity : Option ℕ) (i n : ℕ) (g : GoalHandle) (goals : List GoalHandle)
      → is_full capacity i ≡ false
      → goes g ≡ true
      → expire_loop capacity timeout now i n (g ∷ goals)
        ≡ write_if (is_some capacity) n g.info (expire_loop capacity timeout now i (suc n) goals)
  unfolding expire_loop
  expire_gone capacity i n g goals f h =
      let a = and_left (not (is_active g)) (is_expired timeout now g) h in rw (f, h, a) refl

  expire_stay :
      (capacity : Option ℕ) (i n : ℕ) (g : GoalHandle) (goals : List GoalHandle)
      → is_full capacity i ≡ false
      → goes g ≡ false
      → expire_loop capacity timeout now i n (g ∷ goals)
        ≡ write_if
            (not (is_active g) && is_some capacity)
            n
            g.info
            (keep g (expire_loop capacity timeout now (suc i) n goals))
  unfolding expire_loop
  expire_stay capacity i n g goals f h = rw (f, h) refl

  -- There is room for the index of each goal.
  abbrev pub HasRoom : Option ℕ → ℕ → Type 0
  HasRoom none n = Unit {0}
  HasRoom (some capacity) n = n ≤ capacity

  room_not_full :
      (capacity : Option ℕ) (i n : ℕ) → HasRoom capacity (i + suc n) → is_full capacity i ≡ false
  room_not_full none i n h = refl
  room_not_full (some c) i n h = ground arith

  room_less :
      (capacity : Option ℕ) (i n : ℕ) → HasRoom capacity (i + suc n) → HasRoom capacity (i + n)
  room_less none i n h = tt
  room_less (some c) i n h = omega (arith, h)

  room_same :
      (capacity : Option ℕ) (i n : ℕ) → HasRoom capacity (i + suc n) → HasRoom capacity (suc i + n)
  room_same none i n h = tt
  room_same (some c) i n h = omega (arith, h)

  room_zero : (capacity : Option ℕ) (n : ℕ) → HasRoom capacity n → HasRoom capacity (0 + n)
  room_zero none n h = tt
  room_zero (some c) n h = omega (arith, h)

  expire_from :
      (capacity : Option ℕ) (i n : ℕ) (goals : List GoalHandle)
      → HasRoom capacity (i + length goals)
      → let e = expire_loop capacity timeout now i n goals in
        (e.kept ≡ staying goals) × (e.num_expired ≡ n + count_going goals)
  unfolding expire_loop
  expire_from capacity i n [] r = (refl, omega arith)
  expire_from capacity i n (g ∷ goals) r =
      let f = room_not_full capacity i (length goals) r in
      elim (Bool-cases (goes g)) [
        | inl h ↦
            let (k, c) =
              expire_from capacity i (suc n) goals (room_less capacity i (length goals) r) in
            rw (expire_gone capacity i n g goals f h, h) (k, omega (arith, c))
        | inr h ↦
            let (k, c) =
              expire_from capacity (suc i) n goals (room_same capacity i (length goals) r) in
            rw (expire_stay capacity i n g goals f h, h) (ap (λ gs. g ∷ gs) k, c)
      ]

  IsOlder-cases :
      (g : GoalHandle)
      → ((is_expired timeout now g ≡ true) × IsOlder timeout now g)
        ⊎ ((is_expired timeout now g ≡ false) × (IsOlder timeout now g → ⊥))
  unfolding is_expired goal_info_stamp_to_nanosec
  IsOlder-cases g =
      let seconds = s_to_ns-*ℤ g.info.stamp_sec in
      elim (ltb_ℤ-cases timeout (now -ℤ goal_info_stamp_to_nanosec g.info)) [
        | inl (e, l) ↦ inl (e, rw (← seconds) (omega (int_laws, l)))
        | inr (e, l) ↦ inr (e, rw (← seconds) (λ o. omega (int_laws, l, o)))
      ]

  staying-IsSwept :
      (goals : List GoalHandle) → Swept timeout now goals (staying goals) (count_going goals)
  staying-IsSwept [] = nothing
  staying-IsSwept (g ∷ goals) =
      let rest = staying-IsSwept goals in
      elim (state-cases g.info g.state) [
        | inl (a, h) ↦ rw a (stays (λ e o. h e) rest)
        | inr (a, h) ↦ elim (IsOlder-cases g) [
          | inl (e, o) ↦ rw (a, e) (goes_away h o rest)
          | inr (e, o) ↦ rw (a, e) (stays (λ h o'. o o') rest)
        ]
      ]

  -- Without an array for the expired goals, or with one that has a place for every goal, the loop
  -- removes exactly the goals that have ended and were stamped more than the timeout ago, keeps the
  -- others in their order, and counts those that it removes.
  pub expire_loop_lem :
      (capacity : Option ℕ) (goals : List GoalHandle)
      → HasRoom capacity (length goals)
      → let e = expire_loop capacity timeout now 0 0 goals in
        Swept timeout now goals e.kept e.num_expired
  expire_loop_lem capacity goals r =
      let (k, c) = expire_from capacity 0 0 goals (room_zero capacity (length goals) r) in
      let counted : (expire_loop capacity timeout now 0 0 goals).num_expired ≡ count_going goals =
        omega (arith, c) in
      rw (k, counted) (staying-IsSwept goals)

  abbrev pub numbered : ℕ → List GoalHandle → List (ℕ × GoalInfo)
  numbered n [] = []
  numbered n (g ∷ goals) = (n, g.info) ∷ numbered (suc n) goals

  overflow_from :
      (capacity i n : ℕ) (goals : List GoalHandle)
      → i < capacity
      → All (λ g. goes g ≡ true) goals
      → expire_loop (some capacity) timeout now i n goals
        ≡ record { kept = []; num_expired = n + length goals; writes = numbered n goals }
  unfolding expire_loop
  overflow_from capacity i n [] r h = ap (λ m. all_gone m []) (omega arith)
  overflow_from capacity i n (g ∷ goals) r (e, h) =
      let f : is_full (some capacity) i ≡ false = ground (arith, r) in
      rw (expire_gone (some capacity) i n g goals f e, overflow_from capacity i (suc n) goals r h)
        (ap (λ m. all_gone m ((n, g.info) ∷ numbered (suc n) goals)) (omega arith))

  -- The capacity of the array does not bound what is written: where all goals expire, one array of
  -- any positive capacity is written at every index below the number of goals.
  pub expire_overflow :
      (capacity : ℕ) (goals : List GoalHandle)
      → 0 < capacity
      → All (λ g. goes g ≡ true) goals
      → expire_loop (some capacity) timeout now 0 0 goals
        ≡ record { kept = []; num_expired = length goals; writes = numbered 0 goals }
  expire_overflow capacity goals r h =
      overflow_from capacity 0 0 goals r h ∙ ap (λ m. all_gone m (numbered 0 goals)) (omega arith)

abbrev pub time_left : ℤ → ℤ → GoalHandle → ℤ
time_left timeout now g = timeout -ℤ (now -ℤ goal_info_stamp_to_nanosec g.info)

module _ (timeout now : ℤ) (g : GoalHandle) (goals : List GoalHandle) (k : ℕ) (m : ℤ) where
  next_active :
      is_active g ≡ true
      → next_expiry timeout now (g ∷ goals) k m ≡ next_expiry timeout now goals k m
  unfolding next_expiry
  next_active a = rw (a, next_expiry) refl

  next_shorter :
      is_active g ≡ false
      → ltb_ℤ (time_left timeout now g) m ≡ true
      → next_expiry timeout now (g ∷ goals) k m
        ≡ next_expiry timeout now goals (suc k) (time_left timeout now g)
  unfolding next_expiry
  next_shorter a d = rw (a, next_expiry, d) refl

  next_longer :
      is_active g ≡ false
      → ltb_ℤ (time_left timeout now g) m ≡ false
      → next_expiry timeout now (g ∷ goals) k m ≡ next_expiry timeout now goals (suc k) m
  unfolding next_expiry
  next_longer a d = rw (a, next_expiry, d) refl

-- Neither the bound nor the time that a goal which is not active has left is below `shortest`.
abbrev pub IsLowest : ℤ → ℤ → ℤ → List GoalHandle → ℤ → Type 0
IsLowest timeout now bound goals shortest =
    (shortest ≤ℤ bound)
    × All (λ g. (is_active g ≡ true) ⊎ (shortest ≤ℤ time_left timeout now g)) goals

pub next_expiry-IsLowest :
    (timeout now : ℤ) (goals : List GoalHandle) (k : ℕ) (m : ℤ)
    → IsLowest timeout now m goals (next_expiry timeout now goals k m).1
unfolding next_expiry
next_expiry-IsLowest timeout now [] k m = (omega arith, tt)
next_expiry-IsLowest timeout now (g ∷ goals) k m =
    let Lowest = λ (r : ℕ × ℤ). IsLowest timeout now m (g ∷ goals) r.1 in
    elim (Bool-cases (is_active g)) [
      | inl a ↦
          let (l, h) = next_expiry-IsLowest timeout now goals k m in
          subst Lowest (sym (next_active timeout now g goals k m a)) (l, (inl a, h))
      | inr a ↦
          let left = time_left timeout now g in
          elim (ltb_ℤ-cases left m) [
            | inl (d, l) ↦
                let (p, h) = next_expiry-IsLowest timeout now goals (suc k) left in
                subst Lowest (sym (next_shorter timeout now g goals k m a d))
                  (omega (arith, p, l), (inr p, h))
            | inr (d, l) ↦
                let (p, h) = next_expiry-IsLowest timeout now goals (suc k) m in
                subst Lowest (sym (next_longer timeout now g goals k m a d))
                  (p, (inr (omega (arith, p, l)), h))
          ]
    ]
