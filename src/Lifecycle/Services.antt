-- ===== src/Lifecycle/Services.antt =====
-- The services of a lifecycle node that only read (lifecycle_node_interface_impl.hpp). Their loops
-- count in a uint8_t, and take fuel.
use pmros.Base.{
  ℕ, zero, suc, ◌+◌, ◌%◌, ◌≤◌, ◌<◌, Bool, true, false, if◌then◌else◌, Option, none, some, List, [],
  ◌∷◌, get_elem?, length, ◌≡◌, refl, arith, drop, Option-cases, leb-cases, inl, inr, leb, drop_end,
  drop-get_elem?,
}
use mathlib.Core.Option
use pmros.Base.Bytes.{Bytes}
use pmros.Base.Results.{Result, ok, err, runtime_error}
use pmros.Lifecycle.{StateId, TransitionId, Transition, State, TransitionMap, state_at, valid}
use pmros.Lifecycle.Node.{Node, is_initialized, map_list}

-- for (uint8_t i = 0; i < size; ++i) result.push_back(array[i])
unfoldable pub collect {ℓ} : {A : Type ℓ} → ℕ → ℕ → List A → Option (List A)
collect zero i xs = none
collect (suc fuel) i xs =
    let rest = collect fuel ((i + 1) % 256) xs in
    elim (get_elem? xs i) [ none ↦ some [] | some x ↦ Option.map (λ ys. x ∷ ys) rest ]

-- One round of the loop, where the list goes on and where it is over.
collect-some {ℓ} :
    {A : Type ℓ} (fuel i : ℕ) (xs : List A) (x : A)
    → get_elem? xs i ≡ some x
    → collect (suc fuel) i xs ≡ Option.map (λ ys. x ∷ ys) (collect fuel ((i + 1) % 256) xs)
unfolding collect
collect-some fuel i xs x h = rw (h, collect) refl

collect-none {ℓ} :
    {A : Type ℓ} (fuel i : ℕ) (xs : List A)
    → get_elem? xs i ≡ none
    → collect (suc fuel) i xs ≡ some []
unfolding collect
collect-none fuel i xs h = rw (h, collect) refl

collect-drop {ℓ} :
    {A : Type ℓ} (fuel i : ℕ) (xs : List A)
    → length xs ≤ 255
    → length xs < i + fuel
    → i ≤ length xs
    → collect fuel i xs ≡ some (drop i xs)
collect-drop zero i xs short h b = absurd (omega (arith, short, h, b))
collect-drop (suc fuel) i xs short h b = elim (Option-cases (get_elem? xs i)) [
  | inl e ↦ rw (collect-none fuel i xs e, (drop_end xs i e).0) refl
  | inr (x, e) ↦
      let (d, l) = drop-get_elem? xs i x e in
      let next : (i + 1) % 256 ≡ suc i = omega (arith, l, short) in
      let ih = collect-drop fuel (suc i) xs short (omega (arith, h)) (omega (arith, l)) in
      rw (collect-some fuel i xs x e, next, ih, d) refl
]

collect_never {ℓ} :
    {A : Type ℓ} (fuel i : ℕ) (xs : List A) → 256 ≤ length xs → i < 256 → collect fuel i xs ≡ none
unfolding collect
collect_never zero i xs long h = refl
collect_never (suc fuel) i xs long h = elim (Option-cases (get_elem? xs i)) [
  | inl e ↦ absurd (omega (arith, (drop_end xs i e).1, long, h))
  | inr (x, e) ↦
      rw (collect-some fuel i xs x e, collect_never fuel ((i + 1) % 256) xs long (omega arith)) refl
]

-- Over at most 255 elements the loop ends within one round more than there are elements; over more
-- it never ends.
pub collect_lem {ℓ} :
    {A : Type ℓ} (fuel : ℕ) (xs : List A)
    → length xs < fuel
    → collect fuel 0 xs ≡ (if leb (length xs) 255 then some xs else none)
collect_lem fuel xs h = elim (leb-cases (length xs) 255) [
  | inl (e, l) ↦ rw (e, collect-drop fuel 0 xs l (omega (arith, h)) (omega arith)) refl
  | inr (e, l) ↦ rw (e, collect_never fuel 0 xs (omega (arith, l)) (omega arith)) refl
]

pub record TransitionDescription : Type 0 where
  pub id : TransitionId
  pub label : Bytes
  pub start_state : Option (StateId × Bytes)
  pub goal_state : Option (StateId × Bytes)

abbrev describe_state : State → StateId × Bytes
describe_state s = (s.id, s.label)

abbrev describe : TransitionMap → Transition → TransitionDescription
describe map t = record {
  id = t.id;
  label = t.label;
  start_state = Option.map describe_state (state_at map t.start);
  goal_state = Option.map describe_state (state_at map t.goal);
}

abbrev if_initialized {ℓ} : {A : Type ℓ} → Node → A → Result A
if_initialized n a = if is_initialized n then ok a else err runtime_error

unfoldable pub on_get_state : Node → Result (Option (StateId × Bytes))
on_get_state n = if_initialized n (
    Option.map describe_state
      (state_at n.state_machine.transition_map n.state_machine.current_state))

-- `none` where the loop has not ended within the fuel.
unfoldable pub on_get_available_states : ℕ → Node → Result (Option (List (StateId × Bytes)))
on_get_available_states fuel n =
    if_initialized n
      (Option.map (map_list describe_state) (collect fuel 0 n.state_machine.transition_map.states))

unfoldable pub on_get_available_transitions :
    ℕ → Node → Result (Option (List TransitionDescription))
on_get_available_transitions fuel n = if_initialized n (
    Option.map (map_list (describe n.state_machine.transition_map))
      (collect fuel 0 (valid n.state_machine)))

unfoldable pub on_get_transition_graph : ℕ → Node → Result (Option (List TransitionDescription))
on_get_transition_graph fuel n = if_initialized n (
    Option.map (map_list (describe n.state_machine.transition_map))
      (collect fuel 0 n.state_machine.transition_map.transitions))

abbrev pub described_states : List State → Option (List (StateId × Bytes))
described_states states =
    if leb (length states) 255 then some (map_list describe_state states) else none

abbrev pub described_transitions :
    TransitionMap → List Transition → Option (List TransitionDescription)
described_transitions map ts =
    if leb (length ts) 255 then some (map_list (describe map) ts) else none

map_if {ℓ κ} :
    {A : Type ℓ} {B : Type κ} (f : A → B) (b : Bool) (x : A)
    → Option.map f (if b then some x else none) ≡ (if b then some (f x) else none)
map_if f true x = refl
map_if f false x = refl

-- With more rounds than there are states and transitions, the services of an initialised node answer
-- all states, all transitions of the current state and all transitions, each in the order in which
-- it was registered, where there are at most 255 of them; over more the loop never ends.
pub services_lem :
    (fuel : ℕ) (n : Node)
    → is_initialized n ≡ true
    → length n.state_machine.transition_map.states < fuel
    → length (valid n.state_machine) < fuel
    → length n.state_machine.transition_map.transitions < fuel
    → let map = n.state_machine.transition_map in
      (on_get_available_states fuel n ≡ ok (described_states map.states))
      × (on_get_available_transitions fuel n
          ≡ ok (described_transitions map (valid n.state_machine)))
      × (on_get_transition_graph fuel n ≡ ok (described_transitions map map.transitions))
unfolding on_get_available_states on_get_available_transitions on_get_transition_graph
services_lem fuel n i s v t =
    let map = n.state_machine.transition_map in
    (
      rw
          (
            i,
            collect_lem fuel map.states s,
            map_if (map_list describe_state) (leb (length map.states) 255) map.states,
          )
          refl,
      rw
          (
            i,
            collect_lem fuel (valid n.state_machine) v,
            map_if (map_list (describe map)) (leb (length (valid n.state_machine)) 255)
                (valid n.state_machine),
          )
          refl,
      rw
          (
            i,
            collect_lem fuel map.transitions t,
            map_if (map_list (describe map)) (leb (length map.transitions) 255) map.transitions,
          )
          refl,
    )
