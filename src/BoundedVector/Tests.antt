-- ===== src/BoundedVector/Tests.antt =====
-- The theorem on bounded vectors at a concrete one.
use pmros.Base.{ℕ, List, [], ◌∷◌, ◌^◌, ◌-◌, ◌≤◌, ◌≡◌, refl, arith, length, replicate}
use pmros.Base.Results.{ok, err, length_error}
use pmros.BoundedVector.{
  Operation, push_back_call, insert_n_call, insert_list_call, erase_call, pop_back_call,
  construct_n, construct_list, construct_range, max_size, apply, apply_all,
}
use pmros.BoundedVector.Unbounded.{unbounded, size_after}
use pmros.BoundedVector.Bounds.{calls-fit, if_fits}

abbrev three : List ℕ
three = 1 ∷ 2 ∷ 3 ∷ []

abbrev seven : ℕ
seven = 7

abbrev most : ℕ
most = 2 ^ 63 - 1

runs :
    (apply 4 most (push_back_call 7) three ≡ ok (1 ∷ 2 ∷ 3 ∷ 7 ∷ []))
    × (apply 3 most (push_back_call 7) three ≡ err length_error)
    × (apply 5 most (insert_n_call 1 2 7) three ≡ ok (1 ∷ 7 ∷ 7 ∷ 2 ∷ 3 ∷ []))
    × (apply 5 most (insert_list_call 1 three) three ≡ err length_error)
    × (apply_all 4 most (push_back_call 7 ∷ push_back_call 8 ∷ erase_call 0 2 ∷ []) three
        ≡ 3 ∷ 7 ∷ [])
unfolding apply apply_all
runs = (refl, refl, refl, refl, refl)

at_most : 3 ≤ max_size 4 most
unfolding max_size
at_most = omega arith

-- A number of elements that wraps around the sum of the sizes.
calls-fit_example :
    let huge : Operation ℕ = insert_n_call 1 (2 ^ 64 - 2) 7 in
    (apply 4 most huge three ≡ if_fits 4 most (size_after huge three) (unbounded huge three))
    × (construct_n 4 most 5 seven ≡ if_fits 4 most 5 (replicate 5 seven))
    × (construct_list 4 most three ≡ if_fits 4 most 3 three)
    × (construct_range 4 most three ≡ if_fits 4 most 3 three)
    × (length (apply_all 4 most (push_back_call 7 ∷ push_back_call 8 ∷ pop_back_call ∷ []) three)
        ≤ max_size 4 most)
calls-fit_example =
    calls-fit 4 most (insert_n_call 1 (2 ^ 64 - 2) 7)
      (push_back_call 7 ∷ push_back_call 8 ∷ pop_back_call ∷ []) three 5 seven three (omega arith)
      (omega arith) at_most (omega arith) (tt, (tt, (tt, tt)))
