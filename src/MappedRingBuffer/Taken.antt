-- ===== src/MappedRingBuffer/Taken.antt =====
-- What `get` and `pop` return and leave
-- (rclcpp/rclcpp/include/rclcpp/mapped_ring_buffer.hpp), each of their forms.
use pmros.Base.{
  ℕ, suc, true, false, ◌==◌, if◌then◌else◌, Option, none, some, set, length-set, arith, ◌≡◌, refl,
}
use mathlib.Core.Option
use pmros.Base.Results.{ok}
use pmros.MappedRingBuffer.{
  Ptr, Element, MappedRingBuffer, Outcome, get_iterator_of_key, get_unique, get_shared, pop_unique,
  pop_shared,
}
use pmros.MappedRingBuffer.Find.{
  find-set_kept, find-set_released, Distinct-set_kept, Distinct-set_released,
}
use pmros.MappedRingBuffer.Invariant.{
  IsValid, Keeps, stored, payload, owned, owned-set, absent, unique, shared, find_cases,
}

module _ {ℓ} {A : Type ℓ} where
  -- The map without a key.
  abbrev pub without : ℕ → (ℕ → Option A) → ℕ → Option A
  without key m j = if key == j then none else m j

  unchanged : (b : MappedRingBuffer A) → IsValid b → Keeps b b (λ j. stored j b)
  unchanged b v = record { valid = v; size = refl; contents = λ j. refl }

  not_there :
      (key : ℕ) (b : MappedRingBuffer A)
      → IsValid b
      → get_iterator_of_key key b.elements ≡ none
      → Keeps b b (without key (λ j. stored j b))
  not_there key b v h = record { valid = v; size = refl; contents = λ j. ground (arith, h) }

  -- The element that was found, rewritten with its key, its object and one owner.
  kept :
      (key : ℕ) (b : MappedRingBuffer A) (i : ℕ) (e new : Element A)
      → IsValid b
      → get_iterator_of_key key b.elements ≡ some (i, e)
      → new.key ≡ key
      → new.in_use ≡ true
      → owned new ≡ true
      → payload (some (i, new)) ≡ payload (some (i, e))
      → Keeps b (record b { elements = set b.elements i new }) (λ j. stored j b)
  kept key b i e new v h hk hu ho same = record {
    valid = record {
      in_range = rw (length-set b.elements i new) v.in_range;
      owners = owned-set b.elements i new v.owners ho;
      distinct = Distinct-set_kept key b.elements i e new v.distinct h hk hu;
    };
    size = length-set b.elements i new;
    contents = λ j. ground (arith, find-set_kept key j b.elements i e new h hk hu, same);
  }

  -- The element that was found, taken out of use.
  released :
      (key : ℕ) (b : MappedRingBuffer A) (i next : ℕ) (e new : Element A)
      → IsValid b
      → get_iterator_of_key key b.elements ≡ some (i, e)
      → new.in_use ≡ false
      → Keeps b
          (record b { elements = set b.elements i new; next_address = next })
          (without key (λ j. stored j b))
  released key b i next e new v h hu = record {
    valid = record {
      in_range = rw (length-set b.elements i new) v.in_range;
      owners = owned-set b.elements i new v.owners (rw hu refl);
      distinct = Distinct-set_released key b.elements i e new v.distinct h hu;
    };
    size = length-set b.elements i new;
    contents = λ j. ground (arith, find-set_released key j b.elements i e new v.distinct h hu);
  }

  -- The object that `pop` leaves in a shared_ptr that held `before`.
  abbrev pub or_before : Option (Ptr A) → Option A → Option A
  or_before before (some x) = some x
  or_before before none = Option.map (λ p. p.value) before

  -- What a call returns and does, where it does not throw.
  pub record Gives (b : MappedRingBuffer A) (call : Outcome A) (object : Option A)
      (after : ℕ → Option A) : Type ℓ where
    pub value : Option (Ptr A)
    pub buffer : MappedRingBuffer A
    pub returned : call ≡ ok (value, buffer)
    pub same_object : Option.map (λ p. p.value) value ≡ object
    pub keeps : Keeps b buffer after

  -- `get` into a unique_ptr
  pub get_unique_lem :
      (key : ℕ) (b : MappedRingBuffer A)
      → IsValid b
      → Gives b (get_unique key b) (stored key b) (λ j. stored j b)
  unfolding get_unique
  get_unique_lem key b v = elim (find_cases key b v) [
    | absent h ↦ record {
      value = none;
      buffer = b;
      returned = ground arith;
      same_object = ground arith;
      keeps = unchanged b v;
    }
    | unique i e p h hk hu p1 p2 ↦ record {
      value = some (record p { address = b.next_address });
      buffer = record b { next_address = suc b.next_address };
      returned = ground arith;
      same_object = ground arith;
      keeps = record {
        valid = record { in_range = v.in_range; owners = v.owners; distinct = v.distinct };
        size = refl;
        contents = λ j. refl;
      };
    }
    | shared i e p h hk hu p1 p2 ↦ record {
      value = some (record p { address = b.next_address });
      buffer = record b { next_address = suc b.next_address };
      returned = ground arith;
      same_object = ground arith;
      keeps = record {
        valid = record { in_range = v.in_range; owners = v.owners; distinct = v.distinct };
        size = refl;
        contents = λ j. refl;
      };
    }
  ]

  -- `get` into a shared_ptr
  pub get_shared_lem :
      (key : ℕ) (b : MappedRingBuffer A)
      → IsValid b
      → Gives b (get_shared key b) (stored key b) (λ j. stored j b)
  unfolding get_shared
  get_shared_lem key b v = elim (find_cases key b v) [
    | absent h ↦ record {
      value = none;
      buffer = b;
      returned = ground arith;
      same_object = ground arith;
      keeps = unchanged b v;
    }
    | unique i e p h hk hu p1 p2 ↦ record {
      value = some p;
      buffer = record b {
        elements = set b.elements i (record e { unique_value = none; shared_value = some p });
      };
      returned = ground arith;
      same_object = ground arith;
      keeps =
          kept key b i e (record e { unique_value = none; shared_value = some p }) v h hk hu
            (ground arith) (ground arith);
    }
    | shared i e p h hk hu p1 p2 ↦ record {
      value = some p;
      buffer = b;
      returned = ground arith;
      same_object = ground arith;
      keeps = unchanged b v;
    }
  ]

  -- `pop` into a unique_ptr
  pub pop_unique_lem :
      (key : ℕ) (b : MappedRingBuffer A)
      → IsValid b
      → Gives b (pop_unique key b) (stored key b) (without key (λ j. stored j b))
  unfolding pop_unique
  pop_unique_lem key b v = elim (find_cases key b v) [
    | absent h ↦ record {
      value = none;
      buffer = b;
      returned = ground arith;
      same_object = ground arith;
      keeps = not_there key b v h;
    }
    | unique i e p h hk hu p1 p2 ↦ record {
      value = some p;
      buffer = record b {
        elements = set b.elements i (record e { unique_value = none; in_use = false });
      };
      returned = ground arith;
      same_object = ground arith;
      keeps =
          released key b i b.next_address e (record e { unique_value = none; in_use = false }) v h
            refl;
    }
    | shared i e p h hk hu p1 p2 ↦ record {
      value = some (record p { address = b.next_address });
      buffer = record b {
        elements = set b.elements i (record e { shared_value = none; in_use = false });
        next_address = suc b.next_address;
      };
      returned = ground arith;
      same_object = ground arith;
      keeps =
          released key b i (suc b.next_address) e (record e { shared_value = none; in_use = false })
            v h refl;
    }
  ]

  -- `pop` into a shared_ptr that held `before`
  pub pop_shared_lem :
      (key : ℕ) (before : Option (Ptr A)) (b : MappedRingBuffer A)
      → IsValid b
      → Gives b
          (pop_shared key before b)
          (or_before before (stored key b))
          (without key (λ j. stored j b))
  unfolding pop_shared
  pop_shared_lem key before b v = elim (find_cases key b v) [
    | absent h ↦ record {
      value = before;
      buffer = b;
      returned = ground arith;
      same_object = ground arith;
      keeps = not_there key b v h;
    }
    | unique i e p h hk hu p1 p2 ↦ record {
      value = some p;
      buffer = record b {
        elements = set b.elements i (record e { unique_value = none; in_use = false });
      };
      returned = ground arith;
      same_object = ground arith;
      keeps =
          released key b i b.next_address e (record e { unique_value = none; in_use = false }) v h
            refl;
    }
    | shared i e p h hk hu p1 p2 ↦ record {
      value = some p;
      buffer = record b {
        elements = set b.elements i (record e { shared_value = none; in_use = false });
      };
      returned = ground arith;
      same_object = ground arith;
      keeps =
          released key b i b.next_address e (record e { shared_value = none; in_use = false }) v h
            refl;
    }
  ]
