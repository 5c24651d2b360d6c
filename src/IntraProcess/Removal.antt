-- ===== src/IntraProcess/Removal.antt =====
-- A subscription that is removed gets nothing more, and takes nothing from the others.
use pmros.Base.{
  ℕ, false, ◌==◌, if◌then◌else◌, Option, none, some, List, [], ◌∷◌, arith, ◌≡◌, refl, ◌∙◌, ap,
  Option-cases, inl, inr, All,
}
use mathlib.Core.Option
use pmros.Base.Maps.{Key, find, erase, nat_key, find-erase}
use pmros.Base.Results.{ok}
use pmros.IntraProcess.{
  IdSet, has_id, Manager, PublisherInfo, erase_from_all, erase_from_targets, remove_subscription,
  take_from_publisher, take_unique, take_shared,
}
use pmros.IntraProcess.Take.{Holds}
use pmros.IntraProcess.Once.{refused}

find-erase_from_all {κ} :
    {K : Type κ} ⦃e : Key K⦄ (sub : ℕ) (k : K) (m : List (K × IdSet))
    → find k (erase_from_all sub m) ≡ Option.map (erase sub) (find k m)
find-erase_from_all sub k [] = refl
find-erase_from_all ⦃e⦄ sub k ((j, s) ∷ m) = ground (arith, find-erase_from_all sub k m)

-- A message that is held, with the subscriptions that it is held for.
pub record HeldMessage {ℓ} {A : Type ℓ} (m : Manager A) : Type ℓ where
  pub id : ℕ
  pub sequence_number : ℕ
  pub object : A
  pub targets : IdSet
  pub holds : Holds m id sequence_number object targets

module _ {ℓ} {A : Type ℓ} (sub : ℕ) where
  abbrev strike : PublisherInfo A → PublisherInfo A
  strike info = record info {
    target_subscriptions_by_message_sequence =
        erase_from_all sub info.target_subscriptions_by_message_sequence;
  }

  find-erase_from_targets :
      (id : ℕ) (ps : List (ℕ × PublisherInfo A))
      → find id (erase_from_targets sub ps) ≡ Option.map strike (find id ps)
  find-erase_from_targets id [] = refl
  find-erase_from_targets id ((j, info) ∷ ps) = ground (arith, find-erase_from_targets id ps)

  module _ (m : Manager A) (id seq : ℕ) where
    targets_removed :
        (o : Option (PublisherInfo A))
        → find id m.publishers ≡ o
        → take_from_publisher (remove_subscription sub m) id seq sub ≡ none
    unfolding take_from_publisher remove_subscription
    targets_removed none e = ground (arith, find-erase_from_targets id m.publishers)
    targets_removed (some info) e =
        let targets = info.target_subscriptions_by_message_sequence in
        elim (Option-cases (find seq targets)) [
          | inl f ↦
              ground (
                arith,
                find-erase_from_targets id m.publishers,
                find-erase_from_all sub seq targets,
              )
          | inr (subs, f) ↦ ground (
            arith,
            find-erase_from_targets id m.publishers,
            find-erase_from_all sub seq targets,
            find-erase sub sub subs,
          )
        ]

    removed-none : take_from_publisher (remove_subscription sub m) id seq sub ≡ none
    removed-none = targets_removed (find id m.publishers) refl

  still_held :
      (m : Manager A) (id seq : ℕ) (x : A) (subs : IdSet)
      → Holds m id seq x subs
      → Holds (remove_subscription sub m) id seq x (erase sub subs)
  unfolding remove_subscription
  still_held m id seq x subs h = record {
    info = strike h.info;
    buffer = h.buffer;
    entry = find-erase_from_targets id m.publishers ∙ ap (Option.map strike) h.entry;
    has_buffer = h.has_buffer;
    valid = h.valid;
    object = h.object;
    targets =
        find-erase_from_all sub seq h.info.target_subscriptions_by_message_sequence
        ∙ ap (Option.map (erase sub)) h.targets;
  }

  -- It is still held, for those of its subscriptions that are not removed.
  abbrev pub StaysHeld : (m : Manager A) → HeldMessage m → Type ℓ
  StaysHeld m h =
      Holds (remove_subscription sub m) h.id h.sequence_number h.object (erase sub h.targets)
      × ((j : ℕ)
          → has_id j (erase sub h.targets) ≡ (if sub == j then false else has_id j h.targets))

  All-StaysHeld : (m : Manager A) (messages : List (HeldMessage m)) → All (StaysHeld m) messages
  All-StaysHeld m [] = tt
  All-StaysHeld m (h ∷ messages) = (
    (
      still_held m h.id h.sequence_number h.object h.targets h.holds,
      λ j. ground (arith, find-erase sub j h.targets),
    ),
    All-StaysHeld m messages,
  )

  -- After a subscription was removed, each call for it returns a null pointer and changes nothing,
  -- whatever the manager, and the publisher and the sequence number that the call names. Of any
  -- messages that were held, none or more, each stays held for exactly its other subscriptions.
  pub remove_subscription_lem :
      (m : Manager A) (id seq : ℕ) (messages : List (HeldMessage m))
      → (take_unique id seq sub (remove_subscription sub m) ≡ (ok none, remove_subscription sub m))
        × (take_shared id seq sub (remove_subscription sub m)
            ≡ (ok none, remove_subscription sub m))
        × All (StaysHeld m) messages
  remove_subscription_lem m id seq messages =
      let (u, s) = refused (remove_subscription sub m) id seq sub (removed-none m id seq) in
      (u, s, All-StaysHeld m messages)
