-- ===== src/IntraProcess/Take.antt =====
-- Taking a message: who gets it, and what is left.
use pmros.Base.{
  ℕ, true, Option, none, some, [], ◌∷◌, length, arith, ◌≡◌, ◌≢◌, ◌⊎◌, inl, inr, refl, ◌∙◌, ap,
  subst,
}
use mathlib.Core.Option
use pmros.Base.Maps.{find, insert, erase, nat_key, find-insert, beq_refl}
use pmros.Base.Results.{Result, ok}
use pmros.MappedRingBuffer.{
  Ptr, MappedRingBuffer, Outcome, get_unique, get_shared, pop_unique, pop_shared,
}
use pmros.MappedRingBuffer.Invariant.{IsValid, stored}
use pmros.MappedRingBuffer.Taken.{
  Gives, without, or_before, get_unique_lem, get_shared_lem, pop_unique_lem, pop_shared_lem,
}
use pmros.IntraProcess.{
  IdSet, has_id, PublisherInfo, Manager, take_from_publisher, take_unique, take_shared,
  update_publisher, after_buffer, deliver,
}

module _ {ℓ} {A : Type ℓ} where
  -- The manager holds the object `x` under the publisher `id` and the number `seq`, for `subs`.
  pub record Holds (m : Manager A) (id seq : ℕ) (x : A) (subs : IdSet) : Type ℓ where
    pub info : PublisherInfo A
    pub buffer : MappedRingBuffer A
    pub entry : find id m.publishers ≡ some info
    pub has_buffer : info.buffer ≡ some buffer
    pub valid : IsValid buffer
    pub object : stored seq buffer ≡ some x
    pub targets : find seq info.target_subscriptions_by_message_sequence ≡ some subs

  -- The publisher's buffer is valid and lacks the object, and nobody is to get it.
  pub record Released (m : Manager A) (id seq : ℕ) : Type ℓ where
    pub info : PublisherInfo A
    pub buffer : MappedRingBuffer A
    pub entry : find id m.publishers ≡ some info
    pub has_buffer : info.buffer ≡ some buffer
    pub valid : IsValid buffer
    pub object : stored seq buffer ≡ none
    pub targets : find seq info.target_subscriptions_by_message_sequence ≡ some []

  -- The subscription got a pointer to `x`. The object stays while others are to get it, and
  -- leaves the buffer with the last one.
  pub record Taken (call : Result (Option (Ptr A)) × Manager A) (id seq sub : ℕ) (x : A)
      (subs : IdSet) : Type ℓ where
    pub pointer : Ptr A
    pub manager : Manager A
    pub returned : call ≡ (ok (some pointer), manager)
    pub same_object : pointer.value ≡ x
    pub left :
        ((erase sub subs ≡ []) × Released manager id seq)
        ⊎ ((erase sub subs ≢ []) × Holds manager id seq x (erase sub subs))

  pointer_to :
      (v : Option (Ptr A)) (x : A)
      → Option.map (λ p. p.value) v ≡ some x
      → (p : Ptr A) × (v ≡ some p) × (p.value ≡ x)
  pointer_to none x h = absurd (ground arith)
  pointer_to (some p) x h = (p, refl, ground arith)

  module _ (m : Manager A) (id seq sub : ℕ) (x : A) (subs : IdSet) (h : Holds m id seq x subs)
      (member : has_id sub subs ≡ true) where
    abbrev info' : PublisherInfo A
    info' = record h.info {
      buffer = some h.buffer;
      target_subscriptions_by_message_sequence =
          insert seq (erase sub subs) h.info.target_subscriptions_by_message_sequence;
    }

    asked : take_from_publisher m id seq sub ≡ some (length (erase sub subs), info')
    unfolding take_from_publisher
    asked = ground (arith, h.entry, h.targets, h.has_buffer)

    -- The entry after the call, with the buffer `b`.
    abbrev taken_info : MappedRingBuffer A → PublisherInfo A
    taken_info b = record info' { buffer = some b }

    abbrev taken : MappedRingBuffer A → Manager A
    taken b = update_publisher id (taken_info b) m

    entry_taken : (b : MappedRingBuffer A) → find id (taken b).publishers ≡ some (taken_info b)
    entry_taken b = find-insert id id (taken_info b) m.publishers ∙ rw (beq_refl id) refl

    targets_taken :
        (b : MappedRingBuffer A)
        → find seq (taken_info b).target_subscriptions_by_message_sequence ≡ some (erase sub subs)
    targets_taken b =
        find-insert seq seq (erase sub subs) h.info.target_subscriptions_by_message_sequence
        ∙ rw (beq_refl seq) refl

    module _ (get : MappedRingBuffer A → Outcome A) (pop : MappedRingBuffer A → Outcome A)
        (got : Gives h.buffer (get h.buffer) (some x) (λ j. stored j h.buffer))
        (popped : Gives h.buffer
          (pop h.buffer)
          (some x)
          (without seq (λ j. stored j h.buffer))) where
      last_Taken :
          erase sub subs ≡ [] → Taken (after_buffer m id info' (pop h.buffer)) id seq sub x subs
      last_Taken e =
          let (p, is_p, same) = pointer_to popped.value x popped.same_object in
          record {
            pointer = p;
            manager = taken popped.buffer;
            returned =
                ap (after_buffer m id info') popped.returned
                ∙ ap (λ v. (ok v, taken popped.buffer)) is_p;
            same_object = same;
            left = inl (
              e,
              record {
                info = taken_info popped.buffer;
                buffer = popped.buffer;
                entry = entry_taken popped.buffer;
                has_buffer = refl;
                valid = popped.keeps.valid;
                object = popped.keeps.contents seq ∙ rw (beq_refl seq) refl;
                targets = targets_taken popped.buffer ∙ ap some e;
              },
            );
          }

      other_Taken :
          erase sub subs ≢ [] → Taken (after_buffer m id info' (get h.buffer)) id seq sub x subs
      other_Taken ne =
          let (p, is_p, same) = pointer_to got.value x got.same_object in
          record {
            pointer = p;
            manager = taken got.buffer;
            returned =
                ap (after_buffer m id info') got.returned ∙ ap (λ v. (ok v, taken got.buffer)) is_p;
            same_object = same;
            left = inr (
              ne,
              record {
                info = taken_info got.buffer;
                buffer = got.buffer;
                entry = entry_taken got.buffer;
                has_buffer = refl;
                valid = got.keeps.valid;
                object = got.keeps.contents seq ∙ h.object;
                targets = targets_taken got.buffer;
              },
            );
          }

      delivered :
          (rest : IdSet)
          → erase sub subs ≡ rest
          → Taken
              (deliver get pop m id (length (erase sub subs)) info' info'.buffer)
              id
              seq
              sub
              x
              subs
      delivered [] e =
          subst (λ call. Taken call id seq sub x subs) (ap (after_buffer m id info') (ground arith))
            (last_Taken e)
      delivered (y ∷ rest) e =
          subst (λ call. Taken call id seq sub x subs) (ap (after_buffer m id info') (ground arith))
            (other_Taken (λ none_left. cc))

    -- Into a unique_ptr.
    pub take_unique-Taken : Taken (take_unique id seq sub m) id seq sub x subs
    unfolding take_unique
    take_unique-Taken =
        rw (asked, take_unique)
          (delivered (get_unique seq) (pop_unique seq)
            (subst (λ o. Gives h.buffer (get_unique seq h.buffer) o (λ j. stored j h.buffer))
              h.object (get_unique_lem seq h.buffer h.valid))
            (subst
              (λ o.
                Gives h.buffer (pop_unique seq h.buffer) o (without seq (λ j. stored j h.buffer)))
              h.object (pop_unique_lem seq h.buffer h.valid))
            (erase sub subs) refl)

    -- Into a shared_ptr.
    pub take_shared-Taken : Taken (take_shared id seq sub m) id seq sub x subs
    unfolding take_shared
    take_shared-Taken =
        rw (asked, take_shared)
          (delivered (get_shared seq) (pop_shared seq none)
            (subst (λ o. Gives h.buffer (get_shared seq h.buffer) o (λ j. stored j h.buffer))
              h.object (get_shared_lem seq h.buffer h.valid))
            (subst
              (λ o.
                Gives h.buffer (pop_shared seq none h.buffer) o
                  (without seq (λ j. stored j h.buffer)))
              (ap (or_before none) h.object) (pop_shared_lem seq none h.buffer h.valid))
            (erase sub subs) refl)
