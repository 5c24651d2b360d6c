-- ===== src/Actions/Accept.antt =====
-- The identities of the goals of an action server (rcl/rcl_action/src/rcl_action/action_server.c).
use pmros.Base.{
  ℕ, ◌*◌, ◌+◌, ◌/◌, ◌^◌, ◌<◌, true, false, Option, none, some, List, [], ◌∷◌, ◌++◌, All, ◌≡◌, ◌≢◌,
  ◌⊎◌, refl, sym, arith, Bool-cases, inl, inr,
}
use pmros.Base.Bytes.{Bytes, eq_bytes, eq_bytes_iff}
use pmros.Base.Int.{pos}
use pmros.Timer.{now_is}
use pmros.Actions.{GoalInfo, GoalHandle, goal_handle_init, accepted}
use pmros.Actions.Server.{ActionServer, goal_exists, accept_new_goal, nanosec_to_goal_info_stamp}

-- Some goal has the identity.
abbrev pub HasId : Bytes → List GoalHandle → Type 0
HasId uuid [] = ⊥
HasId uuid (g ∷ goals) = (g.info.uuid ≡ uuid) ⊎ HasId uuid goals

-- No goal has the identity.
abbrev pub IsNew : Bytes → List GoalHandle → Type 0
IsNew uuid = All (λ (g : GoalHandle). g.info.uuid ≢ uuid)

-- No two goals have the same identity.
abbrev pub Distinct : List GoalHandle → Type 0
Distinct [] = Unit {0}
Distinct (g ∷ goals) = IsNew g.info.uuid goals × Distinct goals

-- The goal has the identity of the request, is accepted, and has the time in seconds and nanoseconds
-- for its stamp.
abbrev pub IsAccepted : GoalInfo → ℕ → GoalHandle → Type 0
IsAccepted info now g =
    (g.info.uuid ≡ info.uuid)
    × (g.state ≡ accepted)
    × ((s : ℕ) × (g.info.stamp_sec ≡ pos s) × (s * 1000000000 + g.info.stamp_nanosec ≡ now))
    × (g.info.stamp_nanosec < 1000000000)

different : (s t : Bytes) → eq_bytes s t ≡ false → s ≢ t
different s t h e = absurd (cc (h, (eq_bytes_iff s t).1 e))

exists-cases :
    (info : GoalInfo) (goals : List GoalHandle)
    → ((goal_exists info goals ≡ true) × HasId info.uuid goals)
      ⊎ ((goal_exists info goals ≡ false) × IsNew info.uuid goals)
unfolding goal_exists
exists-cases info [] = inr (refl, tt)
exists-cases info (g ∷ goals) = elim (Bool-cases (eq_bytes g.info.uuid info.uuid)) [
  | inl e ↦ inl (rw e refl, inl ((eq_bytes_iff g.info.uuid info.uuid).0 e))
  | inr e ↦ elim (exists-cases info goals) [
    | inl (there, has) ↦ inl (rw (e, there) refl, inr has)
    | inr (nowhere, new) ↦ inr (rw (e, nowhere) refl, (different g.info.uuid info.uuid e, new))
  ]
]

append-IsNew :
    (uuid : Bytes) (goals : List GoalHandle) (g : GoalHandle)
    → IsNew uuid goals
    → g.info.uuid ≢ uuid
    → IsNew uuid (goals ++ (g ∷ []))
append-IsNew uuid [] g new d = (d, tt)
append-IsNew uuid (k ∷ goals) g (e, new) d = (e, append-IsNew uuid goals g new d)

append-Distinct :
    (goals : List GoalHandle) (g : GoalHandle)
    → Distinct goals
    → IsNew g.info.uuid goals
    → Distinct (goals ++ (g ∷ []))
append-Distinct [] g d h = (tt, tt)
append-Distinct (k ∷ goals) g (new, d) (e, h) =
    (append-IsNew k.info.uuid goals g new (λ q. e (sym q)), append-Distinct goals g d h)

stamped-IsAccepted :
    (info : GoalInfo) (now : ℕ)
    → now < 2 ^ 31 * 1000000000
    → IsAccepted info now (goal_handle_init (nanosec_to_goal_info_stamp (pos now) info))
unfolding goal_handle_init nanosec_to_goal_info_stamp
stamped-IsAccepted info now h =
    (refl, refl, (now / 1000000000, ground (arith, h), omega arith), omega arith)

-- Refused, for an identity that a goal has; or added, for one that no goal has.
abbrev pub IsAnswer : GoalInfo → ℕ → ActionServer → Option GoalHandle × ActionServer → Type 0
IsAnswer info now server (none, server') = HasId info.uuid server.goal_handles × (server' ≡ server)
IsAnswer info now server (some goal, server') =
    IsNew info.uuid server.goal_handles
    × IsAccepted info now goal
    × (server' ≡ record server { goal_handles = server.goal_handles ++ (goal ∷ []) })

-- At a time whose seconds fit an int32_t, a new goal is refused exactly where some goal has its
-- identity, and a refusal changes nothing; otherwise it comes last, with the identity, accepted and
-- stamped with the time; either way, where the identities were all different they stay so.
pub accept_new_goal-Distinct :
    (info : GoalInfo) (now : ℕ) (server : ActionServer)
    → now < 2 ^ 31 * 1000000000
    → Distinct server.goal_handles
    → Distinct (accept_new_goal info (now_is (pos now)) server).1.goal_handles
      × IsAnswer info now server (accept_new_goal info (now_is (pos now)) server)
unfolding accept_new_goal
accept_new_goal-Distinct info now server h d = elim (exists-cases info server.goal_handles) [
  | inl (e, has) ↦ rw e (d, (has, refl))
  | inr (e, new) ↦
      let goal = goal_handle_init (nanosec_to_goal_info_stamp (pos now) info) in
      let stamped = stamped-IsAccepted info now h in
      rw e (append-Distinct server.goal_handles goal d (rw stamped.0 new), (new, stamped, refl))
]
