-- ===== src/IntraProcess/Once.antt =====
-- Who does not get a message: the subscriptions that it is not for, and those that had it already.
use pmros.Base.{ℕ, false, ◌==◌, if◌then◌else◌, Option, none, some, arith, ◌≡◌, refl}
use pmros.Base.Maps.{find, erase, nat_key, find-insert, find-erase}
use pmros.Base.Results.{ok, err}
use pmros.MappedRingBuffer.{
  MappedRingBuffer, Outcome, get_unique, get_shared, pop_unique, pop_shared,
}
use pmros.IntraProcess.{
  IdSet, has_id, PublisherInfo, Manager, take_from_publisher, take_unique, take_shared,
  update_publisher, after_buffer, deliver,
}
use pmros.IntraProcess.Take.{Holds}

module _ {ℓ} {A : Type ℓ} where
  -- Nobody else gets anything, and the call changes nothing.
  module _ (m : Manager A) (id seq sub : ℕ) where
    pub refused :
        take_from_publisher m id seq sub ≡ none
        → (take_unique id seq sub m ≡ (ok none, m)) × (take_shared id seq sub m ≡ (ok none, m))
    unfolding take_unique take_shared
    refused h = (rw (h, take_unique) refl, rw (h, take_shared) refl)

    -- The publisher's entry after the subscription was taken off.
    abbrev Struck : PublisherInfo A → Type 0
    Struck info =
        (subs : IdSet) × (find seq info.target_subscriptions_by_message_sequence
          ≡ some (erase sub subs))

    Struck-none :
        (info : PublisherInfo A)
        → Struck info
        → take_from_publisher (update_publisher id info m) id seq sub ≡ none
    unfolding take_from_publisher
    Struck-none info (subs, e) =
        ground (arith, find-insert id id info m.publishers, e, find-erase sub sub subs)

    after_buffer-none :
        (info : PublisherInfo A) (outcome : Outcome A)
        → Struck info
        → take_from_publisher (after_buffer m id info outcome).1 id seq sub ≡ none
    after_buffer-none info (ok (v, b)) h = Struck-none (record info { buffer = some b }) h
    after_buffer-none info (err e) h = Struck-none info h

    deliver-none :
        (get pop : MappedRingBuffer A → Outcome A) (size : ℕ) (info : PublisherInfo A)
        (b : Option (MappedRingBuffer A))
        → Struck info
        → take_from_publisher (deliver get pop m id size info b).1 id seq sub ≡ none
    deliver-none get pop size info none h = Struck-none info h
    deliver-none get pop size info (some b) h =
        after_buffer-none info (if size == 0 then pop b else get b) h

    remaining-Struck :
        (old : Option (PublisherInfo A)) (subs : Option IdSet)
        → find id m.publishers ≡ old
        → (elim old [ none ↦ none | some i ↦ find seq i.target_subscriptions_by_message_sequence ])
          ≡ subs
        → (size : ℕ) (info : PublisherInfo A) → take_from_publisher m id seq sub ≡ some (size, info)
        → Struck info
    unfolding take_from_publisher
    remaining-Struck none subs e f size info h = absurd (ground arith)
    remaining-Struck (some old) none e f size info h = absurd (ground arith)
    remaining-Struck (some old) (some subs) e f size info h = (
      subs,
      ground (
        arith,
        find-insert seq seq (erase sub subs) old.target_subscriptions_by_message_sequence,
      ),
    )

    once :
        (asked : Option (ℕ × PublisherInfo A))
        → take_from_publisher m id seq sub ≡ asked
        → (take_from_publisher (take_unique id seq sub m).1 id seq sub ≡ none)
          × (take_from_publisher (take_shared id seq sub m).1 id seq sub ≡ none)
    unfolding take_unique take_shared
    once none e = (rw (e, take_unique) e, rw (e, take_shared) e)
    once (some (size, info)) e =
        let struck = remaining-Struck (find id m.publishers) _ refl refl size info e in
        (
          rw (e, take_unique)
              (deliver-none (get_unique seq) (pop_unique seq) size info info.buffer struck),
          rw (e, take_shared)
              (deliver-none (get_shared seq) (pop_shared seq none) size info info.buffer struck),
        )

  -- Whatever the state, and also where the first call throws: after a call that takes a message, of
  -- either form, a second one for the same subscription returns a null pointer and changes nothing.
  pub take_once :
      (m : Manager A) (id seq sub : ℕ)
      → let u = (take_unique id seq sub m).1 in
        let s = (take_shared id seq sub m).1 in
        ((take_unique id seq sub u ≡ (ok none, u)) × (take_shared id seq sub u ≡ (ok none, u)))
        × ((take_unique id seq sub s ≡ (ok none, s)) × (take_shared id seq sub s ≡ (ok none, s)))
  take_once m id seq sub =
      let (u, s) = once m id seq sub (take_from_publisher m id seq sub) refl in
      (
        refused (take_unique id seq sub m).1 id seq sub u,
        refused (take_shared id seq sub m).1 id seq sub s,
      )

  -- A subscription that a message is not held for gets a null pointer, and nothing changes.
  pub take_others :
      (m : Manager A) (id seq sub : ℕ) (x : A) (subs : IdSet)
      → Holds m id seq x subs
      → has_id sub subs ≡ false
      → (take_unique id seq sub m ≡ (ok none, m)) × (take_shared id seq sub m ≡ (ok none, m))
  unfolding take_from_publisher
  take_others m id seq sub x subs h other =
      refused m id seq sub (ground (arith, h.entry, h.targets))
