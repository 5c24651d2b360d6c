-- ===== src/Executor/Timers.antt =====
-- Which timer an executor selects (get_next_timer of rclcpp/rclcpp/src/rclcpp/executor.cpp).
use pmros.Base.{
  ap, ℕ, Bool, true, false, if◌then◌else◌, Option, none, some, List, [], ◌∷◌, ◌≡◌, ◌⊎◌, inl, inr,
  ◌∙◌, arith, Bool-cases, Option-cases,
}
use pmros.Executor.{CallbackGroup, WeakNodeList, Flags, AnyExecutable, new_any_executable, NodeBase}
use pmros.Executor.Lookup.{first_of}
use pmros.Executor.Run.{due_timer}

-- The callback group of the executable could be taken from.
abbrev pub IsFree : Flags → AnyExecutable → Type 0
IsFree flags a = (g : CallbackGroup) × (a.callback_group ≡ some g) × (flags g.address ≡ true)

-- All that a list of weak pointers still reaches.
abbrev pub AllLocked {ℓ κ} : {A : Type ℓ} → (A → Type κ) → List (Option A) → Type κ
AllLocked P [] = Unit
AllLocked P (none ∷ ws) = AllLocked P ws
AllLocked P (some a ∷ ws) = P a × AllLocked P ws

first_of-none {ℓ κ} :
    {A : Type ℓ} {B : Type κ} (f : A → Option B) (ws : List (Option A))
    → first_of f ws ≡ none
    → AllLocked (λ (a : A). f a ≡ none) ws
first_of-none f [] h = tt
first_of-none f (none ∷ ws) h = first_of-none f ws h
first_of-none f (some a ∷ ws) h = elim (Option-cases (f a)) [
  | inl e ↦ (e, first_of-none f ws (rw (e, first_of) at h))
  | inr (b, e) ↦ absurd (cc (rw (e, first_of) at h))
]

-- Something that a list of weak pointers still reaches.
abbrev pub AnyLocked {ℓ} : {A : Type ℓ} → (A → Type 0) → List (Option A) → Type 0
AnyLocked P [] = ⊥
AnyLocked P (none ∷ ws) = AnyLocked P ws
AnyLocked P (some a ∷ ws) = P a ⊎ AnyLocked P ws

AllLocked-map {ℓ κ μ} :
    {A : Type ℓ} {P : A → Type κ} {Q : A → Type μ} (ws : List (Option A))
    → ((a : A) → P a → Q a)
    → AllLocked P ws
    → AllLocked Q ws
AllLocked-map [] f h = tt
AllLocked-map (none ∷ ws) f h = AllLocked-map ws f h
AllLocked-map (some a ∷ ws) f (p, h) = (f a p, AllLocked-map ws f h)

-- No timer that is due stands in a group that can be taken from.
abbrev pub NoTimerDue : (ℕ → Bool) → WeakNodeList → Flags → Type 0
NoTimerDue ready nodes flags =
    AllLocked
      (λ (n : NodeBase).
        AllLocked
          (λ (g : CallbackGroup).
            flags g.address ≡ true → AllLocked (λ (t : ℕ). ready t ≡ false) g.timer_ptrs)
          n.callback_groups)
      nodes

due_timer-none :
    (ready : ℕ → Bool) (g : CallbackGroup)
    → due_timer ready g ≡ none
    → AllLocked (λ (t : ℕ). ready t ≡ false) g.timer_ptrs
due_timer-none ready g h =
    AllLocked-map g.timer_ptrs (λ t q. ground arith)
      (first_of-none (λ (t : ℕ). if ready t then some (t, g) else none) g.timer_ptrs h)

abbrev pub group_timer : (ℕ → Bool) → Flags → CallbackGroup → Option (ℕ × CallbackGroup)
group_timer ready flags g = if flags g.address then due_timer ready g else none

abbrev pub node_timer : (ℕ → Bool) → Flags → NodeBase → Option (ℕ × CallbackGroup)
node_timer ready flags n = first_of (group_timer ready flags) n.callback_groups

pub no_timer_due :
    (ready : ℕ → Bool) (nodes : WeakNodeList) (flags : Flags)
    → first_of (node_timer ready flags) nodes ≡ none
    → NoTimerDue ready nodes flags
no_timer_due ready nodes flags h =
    AllLocked-map nodes
      (λ n q.
        AllLocked-map n.callback_groups (λ g k free. due_timer-none ready g (rw free at k))
          (first_of-none (group_timer ready flags) n.callback_groups q))
      (first_of-none (node_timer ready flags) nodes h)

first_of-some {ℓ κ} :
    {A : Type ℓ} {B : Type κ} {P : A → Type 0} (f : A → Option B) (b : B)
    → ((a : A) → f a ≡ some b → P a)
    → (ws : List (Option A)) → first_of f ws ≡ some b
    → AnyLocked P ws
first_of-some f b p [] h = absurd cc
first_of-some f b p (none ∷ ws) h = first_of-some f b p ws h
first_of-some f b p (some a ∷ ws) h = elim (Option-cases (f a)) [
  | inl e ↦ inr (first_of-some f b p ws (rw (e, first_of) at h))
  | inr (c, e) ↦ inl (p a (e ∙ (rw (e, first_of) at h)))
]

-- The executable is for a timer that is due, in a group that can be taken from.
abbrev pub IsDueTimer : (ℕ → Bool) → WeakNodeList → Flags → AnyExecutable → Type 0
IsDueTimer ready nodes flags a =
    AnyLocked
      (λ (n : NodeBase).
        AnyLocked
          (λ (g : CallbackGroup).
            (flags g.address ≡ true)
            × AnyLocked
                (λ (t : ℕ).
                  (ready t ≡ true)
                  × (a ≡ record new_any_executable { timer = some t; callback_group = some g }))
                g.timer_ptrs)
          n.callback_groups)
      nodes

abbrev due : (ℕ → Bool) → CallbackGroup → ℕ → Option (ℕ × CallbackGroup)
due ready k s = if ready s then some (s, k) else none

timer_in :
    (ready : ℕ → Bool) (k g : CallbackGroup) (t s : ℕ)
    → due ready k s ≡ some (t, g)
    → (ready s ≡ true)
      × (record new_any_executable { timer = some t; callback_group = some g }
          ≡ record new_any_executable { timer = some s; callback_group = some k })
timer_in ready k g t s h = elim (Bool-cases (ready s)) [
  | inl e ↦
      let q : ◌≡◌ {A = Option (ℕ × CallbackGroup)} (some (s, k)) (some (t, g)) = rw e at h in
      (e, cc (q))
  | inr e ↦ absurd (cc (rw e at h))
]

pub timer_found :
    (ready : ℕ → Bool) (nodes : WeakNodeList) (flags : Flags) (t : ℕ) (g : CallbackGroup)
    → first_of (node_timer ready flags) nodes ≡ some (t, g)
    → IsDueTimer ready nodes flags
        (record new_any_executable { timer = some t; callback_group = some g })
timer_found ready nodes flags t g =
    first_of-some (node_timer ready flags) (t, g)
      (λ n h.
        first_of-some (group_timer ready flags) (t, g)
          (λ k h'. elim (Bool-cases (flags k.address)) [
            | inl free ↦ (
              free,
              first_of-some (due ready k) (t, g) (λ s h''. timer_in ready k g t s h'') k.timer_ptrs
                  (rw free at h'),
            )
            | inr used ↦ absurd (cc (rw used at h'))
          ])
          n.callback_groups h)
      nodes

AnyLocked_elim {ℓ} :
    {A : Type ℓ} {P : A → Type 0} {Q : Type 0} (ws : List (Option A))
    → ((a : A) → P a → Q)
    → AnyLocked P ws
    → Q
AnyLocked_elim [] f h = absurd h
AnyLocked_elim (none ∷ ws) f h = AnyLocked_elim ws f h
AnyLocked_elim (some a ∷ ws) f (inl p) = f a p
AnyLocked_elim (some a ∷ ws) f (inr h) = AnyLocked_elim ws f h

pub IsDueTimer-IsFree :
    (ready : ℕ → Bool) (nodes : WeakNodeList) (flags : Flags) (a : AnyExecutable)
    → IsDueTimer ready nodes flags a
    → IsFree flags a
IsDueTimer-IsFree ready nodes flags a = AnyLocked_elim nodes (λ n.
    AnyLocked_elim n.callback_groups (λ g (free, h).
      AnyLocked_elim g.timer_ptrs
        (λ t (due_now, e). (g, ap (λ (x : AnyExecutable). x.callback_group) e, free)) h))
