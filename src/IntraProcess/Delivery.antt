-- ===== src/IntraProcess/Delivery.antt =====
-- A stored message and the calls that take it, one after another.
use pmros.Base.{
  ℕ, true, Option, some, List, [], ◌∷◌, All, ◌≡◌, ◌≢◌, ◌⊎◌, inl, inr, refl, sym, subst,
}
use mathlib.Core.Bool.{false≢true}
use pmros.Base.Maps.{erase, nat_key}
use pmros.Base.Results.{Result, ok}
use pmros.MappedRingBuffer.{Ptr}
use pmros.IntraProcess.{IdSet, has_id, Manager, take_unique, take_shared}
use pmros.IntraProcess.Take.{Holds, Released, Taken, take_unique-Taken, take_shared-Taken}

-- A call that takes a message, by the subscription that makes it.
pub data Taker : Type 0 where
  by_unique_ptr : ℕ → Taker
  by_shared_ptr : ℕ → Taker

abbrev pub subscription : Taker → ℕ
subscription (by_unique_ptr sub) = sub
subscription (by_shared_ptr sub) = sub

-- Each one is among those that have not had their turn.
abbrev pub AreInTurn : List Taker → IdSet → Type 0
AreInTurn [] subs = Unit {0}
AreInTurn (t ∷ ts) subs =
    (has_id (subscription t) subs ≡ true) × AreInTurn ts (erase (subscription t) subs)

abbrev pub left_after : List Taker → IdSet → IdSet
left_after [] subs = subs
left_after (t ∷ ts) subs = left_after ts (erase (subscription t) subs)

module _ {ℓ} {A : Type ℓ} (id seq : ℕ) where
  abbrev pub take_by : Taker → Manager A → Result (Option (Ptr A)) × Manager A
  take_by (by_unique_ptr sub) m = take_unique id seq sub m
  take_by (by_shared_ptr sub) m = take_shared id seq sub m

  pub take_all : List Taker → Manager A → List (Result (Option (Ptr A))) × Manager A
  take_all [] m = ([], m)
  take_all (t ∷ ts) m = let (r, m') = take_by t m in let (rs, m'') = take_all ts m' in (r ∷ rs, m'')

  take_by-Taken :
      (t : Taker) (m : Manager A) (x : A) (subs : IdSet)
      → Holds m id seq x subs
      → has_id (subscription t) subs ≡ true
      → Taken (take_by t m) id seq (subscription t) x subs
  take_by-Taken (by_unique_ptr sub) m x subs h member =
      take_unique-Taken m id seq sub x subs h member
  take_by-Taken (by_shared_ptr sub) m x subs h member =
      take_shared-Taken m id seq sub x subs h member

  -- A call that got a pointer to `x`.
  abbrev pub Got : A → Result (Option (Ptr A)) → Type ℓ
  Got x result = (p : Ptr A) × (result ≡ ok (some p)) × (p.value ≡ x)

  -- Every one of the results is the message. The object is gone exactly if no subscription is left.
  pub record Delivered (results : List (Result (Option (Ptr A))) × Manager A) (x : A) (left : IdSet)
      : Type ℓ where
    pub everyone : All (Got x) results.0
    pub after :
        ((left ≡ []) × Released results.1 id seq) ⊎ ((left ≢ []) × Holds results.1 id seq x left)

  -- Nobody is in turn once all have had the message.
  done :
      (ts : List Taker) (m : Manager A) (x : A) (subs : IdSet)
      → AreInTurn ts subs
      → subs ≡ []
      → Released m id seq
      → Delivered (take_all ts m) x (left_after ts subs)
  unfolding take_all
  done [] m x subs turn e r = record { everyone = tt; after = inl (e, r) }
  done (t ∷ ts) m x subs (member, turn) e r = absurd (false≢true (rw e at member))

  step :
      (ts : List Taker) (x : A) (left : IdSet) (c : Result (Option (Ptr A)) × Manager A)
      → Got x c.0
      → Delivered (take_all ts c.1) x left
      → Delivered (c.0 ∷ (take_all ts c.1).0, (take_all ts c.1).1) x left
  step ts x left c got d = record { everyone = (got, d.everyone); after = d.after }

  -- Let a message be held for some subscriptions. Those of them that take it, each once, in any
  -- order, by unique_ptr or by shared_ptr, all get it. While some are left, it stays held for just
  -- these; with the last one it leaves the ring buffer.
  pub take_all-Delivered :
      (ts : List Taker) (m : Manager A) (x : A) (subs : IdSet)
      → Holds m id seq x subs
      → subs ≢ []
      → AreInTurn ts subs
      → Delivered (take_all ts m) x (left_after ts subs)
  unfolding take_all
  take_all-Delivered [] m x subs h ne turn = record { everyone = tt; after = inr (ne, h) }
  take_all-Delivered (t ∷ ts) m x subs h ne (member, turn) =
      let taken = take_by-Taken t m x subs h member in
      let left = left_after ts (erase (subscription t) subs) in
      let rest : Delivered (take_all ts taken.manager) x left = elim taken.left [
        | inl (e, released) ↦ done ts taken.manager x (erase (subscription t) subs) turn e released
        | inr (more, held) ↦
            take_all-Delivered ts taken.manager x (erase (subscription t) subs) held more turn
      ] in
      subst (λ c. Delivered (c.0 ∷ (take_all ts c.1).0, (take_all ts c.1).1) x left)
        (sym taken.returned)
        (step ts x left (ok (some taken.pointer), taken.manager)
          (taken.pointer, refl, taken.same_object) rest)
