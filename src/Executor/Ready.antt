-- ===== src/Executor/Ready.antt =====
-- What an executor finds: the loop of the memory strategy and get_next_ready_executable of
-- rclcpp/rclcpp/src/rclcpp/executor.cpp.
use pmros.Base.{
  ℕ, Bool, true, false, if◌then◌else◌, Option, none, some, is_some, List, [], ◌∷◌, ◌++◌, ◌≡◌, inl,
  inr, refl, ap, All, Bool-cases, Option-cases,
}
use pmros.Executor.{CallbackGroup, Flags}
use pmros.Executor.Strategy.{next_handle}

module _ {E : Type 0} (lookup : ℕ → Option E) (group_of : E → Option CallbackGroup)
    (flags : Flags) where
  -- What becomes of a handle: whether it is valid, and its group if that can be taken from.
  abbrev pub group_of_handle : ℕ → Option CallbackGroup
  group_of_handle h = elim (lookup h) [ none ↦ none | some e ↦ group_of e ]

  abbrev pub stays : ℕ → Bool
  stays h = is_some (group_of_handle h)

  abbrev pub InUse : ℕ → Type 0
  InUse h = (g : CallbackGroup) → group_of_handle h ≡ some g → flags g.address ≡ false

  abbrev pub valid_handles : List ℕ → List ℕ
  valid_handles [] = []
  valid_handles (h ∷ hs) = if stays h then h ∷ valid_handles hs else valid_handles hs

  -- The first handle that can be serviced is returned, those before it that are valid stay, and those
  -- behind it are not looked at.
  abbrev pub IsNext : List ℕ → Option (ℕ × E × CallbackGroup) × List ℕ → Type 0
  IsNext hs (none, rest) = All InUse hs × (rest ≡ valid_handles hs)
  IsNext hs (some (h, e, g), rest) =
      (before : List ℕ) × (after : List ℕ) × (hs ≡ before ++ (h ∷ after))
      × All InUse before
      × (rest ≡ valid_handles before ++ after)
      × (lookup h ≡ some e)
      × (group_of e ≡ some g)
      × (flags g.address ≡ true)

  skip_invalid :
      (h : ℕ) (hs : List ℕ) (r : Option (ℕ × E × CallbackGroup) × List ℕ)
      → group_of_handle h ≡ none
      → IsNext hs r
      → IsNext (h ∷ hs) r
  skip_invalid h hs (none, rest) e (used, r) = ((λ g q. absurd cc, used), rw e r)
  skip_invalid h hs (some (i, x, g), rest) e (before, after, s, used, r, l, k, f) =
      (h ∷ before, after, ap (λ (xs : List ℕ). h ∷ xs) s, (λ g q. absurd cc, used), rw e r, l, k, f)

  skip_used :
      (h : ℕ) (hs : List ℕ) (g : CallbackGroup) (r : Option (ℕ × E × CallbackGroup) × List ℕ)
      → group_of_handle h ≡ some g
      → flags g.address ≡ false
      → IsNext hs r
      → IsNext (h ∷ hs) (r.0, h ∷ r.1)
  skip_used h hs g (none, rest) e f (used, r) = ((λ g' q. cc (e, q, f), used), rw (e, r) refl)
  skip_used h hs g (some (i, x, k), rest) e f (before, after, s, used, r, l, m, n) = (
    h ∷ before,
    after,
    ap (λ (xs : List ℕ). h ∷ xs) s,
    (λ g' q. cc (e, q, f), used),
    rw (e, r) refl,
    l,
    m,
    n,
  )

  pub next_handle-IsNext : (hs : List ℕ) → IsNext hs (next_handle lookup group_of flags hs)
  unfolding next_handle
  next_handle-IsNext [] = (tt, refl)
  next_handle-IsNext (h ∷ hs) = elim (Option-cases (lookup h)) [
    | inl none_there ↦
        rw (none_there, next_handle)
          (skip_invalid h hs (next_handle lookup group_of flags hs)
            (rw (none_there, group_of_handle) refl) (next_handle-IsNext hs))
    | inr (e, there) ↦ elim (Option-cases (group_of e)) [
      | inl no_group ↦
          rw (there, no_group, next_handle)
            (skip_invalid h hs (next_handle lookup group_of flags hs)
              (rw (there, group_of_handle) no_group) (next_handle-IsNext hs))
      | inr (g, group) ↦ elim (Bool-cases (flags g.address)) [
        | inl free ↦
            rw (there, group, free, next_handle) ([], hs, refl, tt, refl, there, group, free)
        | inr used ↦
            rw (there, group, used, next_handle)
              (skip_used h hs g (next_handle lookup group_of flags hs)
                (rw (there, group_of_handle) group) used (next_handle-IsNext hs))
      ]
    ]
  ]
