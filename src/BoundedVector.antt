-- ===== src/BoundedVector.antt =====
-- The vectors with an upper bound of generated messages
-- (rosidl/rosidl_generator_cpp/include/rosidl_generator_cpp/bounded_vector.hpp) over std::vector. A
-- vector is the list of its elements, an iterator its position, and a range the list of what it goes
-- over. A call returns the vector that it leaves, or its exception, after which the vector is as before.
-- Sizes are a size_t.
pub mod Unbounded
pub mod Bounds
mod Tests
use pmros.Base.{
  ℕ, zero, suc, ◌+◌, ◌-◌, ◌%◌, ◌^◌, Bool, ltb, leb, if◌then◌else◌, List, [], ◌∷◌, ◌++◌, length,
  drop, replicate,
}
use pmros.Base.Results.{Result, ok, err, length_error, throw_if, ◌>>=◌, ◌>>◌}

abbrev pub take {ℓ} : {A : Type ℓ} → ℕ → List A → List A
take zero v = []
take (suc n) [] = []
take (suc n) (x ∷ v) = x ∷ take n v

abbrev pub without_last {ℓ} : {A : Type ℓ} → List A → List A
without_last [] = []
without_last (x ∷ []) = []
without_last (x ∷ y ∷ v) = x ∷ without_last (y ∷ v)

-- The calls that change a vector. `resize` with one argument appends default values. The two
-- overloads of push_back, and the two of insert for one element, differ in how they take it. Positions
-- are not behind the end, and pop_back and erase are of an element that is there.
pub data Operation {ℓ} (A : Type ℓ) : Type ℓ where
  assign_call : ℕ → A → Operation A
  assign_range_call assign_list_call assign_from_call : List A → Operation A
  resize_call : ℕ → A → Operation A
  reserve_call : ℕ → Operation A
  push_back_call : A → Operation A
  emplace_call insert_call : ℕ → A → Operation A
  insert_n_call : ℕ → ℕ → A → Operation A
  insert_list_call insert_range_call : ℕ → List A → Operation A
  erase_call : ℕ → ℕ → Operation A
  pop_back_call clear_call : Operation A

module _ {ℓ} {A : Type ℓ} (base_max : ℕ) where
  -- std::vector throws if it would have more than max_size elements.
  abbrev pub base_assign : List A → Result (List A)
  base_assign xs = throw_if (ltb base_max (length xs)) length_error >> ok xs

  abbrev pub base_resize : ℕ → A → List A → Result (List A)
  base_resize n x v =
      throw_if (ltb base_max n) length_error
      >> ok (if leb n (length v) then take n v else v ++ replicate (n - length v) x)

  abbrev pub base_insert : ℕ → List A → List A → Result (List A)
  base_insert p xs v =
      throw_if (ltb (base_max - length v) (length xs)) length_error
      >> ok (take p v ++ (xs ++ drop p v))

  abbrev pub base_push_back : A → List A → Result (List A)
  base_push_back x v = throw_if (leb base_max (length v)) length_error >> ok (v ++ (x ∷ []))

abbrev pub exceeds : ℕ → ℕ → Result (Unit {0})
exceeds upper_bound n = throw_if (ltb upper_bound n) length_error

abbrev pub is_full {ℓ} : {A : Type ℓ} → ℕ → List A → Result (Unit {0})
is_full upper_bound v = throw_if (leb upper_bound (length v)) length_error

unfoldable pub max_size : ℕ → ℕ → ℕ
max_size upper_bound base_max = if leb upper_bound base_max then upper_bound else base_max

-- A call as a statement: an exception leaves the vector as it was.
abbrev pub kept {ℓ} : {A : Type ℓ} → List A → Result (List A) → List A
kept v (ok w) = w
kept v (err e) = v

module _ {ℓ} {A : Type ℓ} (upper_bound base_max : ℕ) where
  -- The constructors make the vector and then look at its size.
  unfoldable pub construct_n : ℕ → A → Result (List A)
  construct_n n x = base_assign base_max (replicate n x) >>= (λ v. exceeds upper_bound n >> ok v)

  unfoldable pub construct_list : List A → Result (List A)
  construct_list l = base_assign base_max l >>= (λ v. exceeds upper_bound (length l) >> ok v)

  unfoldable pub construct_range : List A → Result (List A)
  construct_range xs = base_assign base_max xs >>= (λ v. exceeds upper_bound (length v) >> ok v)

  abbrev pub assign : ℕ → A → List A → Result (List A)
  assign n x v = exceeds upper_bound n >> base_assign base_max (replicate n x)

  abbrev pub assign_range : List A → List A → Result (List A)
  assign_range xs v = exceeds upper_bound (length xs) >> base_assign base_max xs

  abbrev pub assign_list : List A → List A → Result (List A)
  assign_list l v = exceeds upper_bound (length l) >> base_assign base_max l

  abbrev pub assign_from : List A → List A → Result (List A)
  assign_from l v = exceeds upper_bound (length l) >> base_assign base_max l

  abbrev pub resize : ℕ → A → List A → Result (List A)
  resize n x v = exceeds upper_bound n >> base_resize base_max n x v

  abbrev pub reserve : ℕ → List A → Result (List A)
  reserve n v = exceeds upper_bound n >> (throw_if (ltb base_max n) length_error >> ok v)

  abbrev pub push_back : A → List A → Result (List A)
  push_back x v = is_full upper_bound v >> base_push_back base_max x v

  abbrev pub emplace : ℕ → A → List A → Result (List A)
  emplace p x v = is_full upper_bound v >> base_insert base_max p (x ∷ []) v

  abbrev pub insert : ℕ → A → List A → Result (List A)
  insert p x v = is_full upper_bound v >> base_insert base_max p (x ∷ []) v

  abbrev pub insert_n : ℕ → ℕ → A → List A → Result (List A)
  insert_n p n x v =
      exceeds upper_bound ((length v + n) % 2 ^ 64) >> base_insert base_max p (replicate n x) v

  abbrev pub insert_list : ℕ → List A → List A → Result (List A)
  insert_list p l v =
      exceeds upper_bound ((length v + length l) % 2 ^ 64) >> base_insert base_max p l v

  abbrev pub insert_range : ℕ → List A → List A → Result (List A)
  insert_range p xs v =
      exceeds upper_bound ((length v + length xs) % 2 ^ 64) >> base_insert base_max p xs v

  abbrev pub erase : ℕ → ℕ → List A → Result (List A)
  erase p q v = ok (take p v ++ drop q v)

  abbrev pub pop_back : List A → Result (List A)
  pop_back v = ok (without_last v)

  abbrev pub clear : List A → Result (List A)
  clear v = ok []

  unfoldable pub apply : Operation A → List A → Result (List A)
  apply (assign_call n x) v = assign n x v
  apply (assign_range_call xs) v = assign_range xs v
  apply (assign_list_call l) v = assign_list l v
  apply (assign_from_call l) v = assign_from l v
  apply (resize_call n x) v = resize n x v
  apply (reserve_call n) v = reserve n v
  apply (push_back_call x) v = push_back x v
  apply (emplace_call p x) v = emplace p x v
  apply (insert_call p x) v = insert p x v
  apply (insert_n_call p n x) v = insert_n p n x v
  apply (insert_list_call p l) v = insert_list p l v
  apply (insert_range_call p xs) v = insert_range p xs v
  apply (erase_call p q) v = erase p q v
  apply pop_back_call v = pop_back v
  apply clear_call v = clear v

  unfoldable pub apply_all : List (Operation A) → List A → List A
  unfolding apply
  apply_all [] v = v
  apply_all (op ∷ ops) v = apply_all ops (kept v (apply op v))
