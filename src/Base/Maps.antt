-- ===== src/Base/Maps.antt =====
-- std::map and std::unordered_map as association lists over a key type with decidable order.
-- A new key goes before the first larger one, so a map that grows by `insert` is sorted, as the
-- iteration over a std::map is. The laws below hold of every list of entries.
use pmros.Base.Tests.{if◌then◌else◌, ◌==◌, ltb, ==_iff}
use Prim.Native.Nat.{ℕ}
use mathlib.Core.Path.{◌≡◌, refl}
use mathlib.Core.Logic.{◌↔◌}
use mathlib.Core.Bool.{Bool, true, false}
use mathlib.Core.Option.{Option, none, some}
use mathlib.Core.List.{List, [], ◌∷◌}
use native.Mathlib.Omega.{arith}

pub record Key {ℓ} (K : Type ℓ) : Type ℓ where
  pub beq : K → K → Bool
  pub blt : K → K → Bool
  pub beq_iff : (a b : K) → (beq a b ≡ true) ↔ (a ≡ b)

instance abbrev pub nat_key : Key ℕ
nat_key = record { beq = ◌==◌; blt = ltb; beq_iff = ==_iff }

module _ {ℓ} {K : Type ℓ} ⦃k : Key K⦄ where
  pub beq_refl : (a : K) → k.beq a a ≡ true
  beq_refl a = (k.beq_iff a a).1 refl

  module _ {κ} {V : Type κ} where
    abbrev pub find : K → List (K × V) → Option V
    find a [] = none
    find a ((b, v) ∷ m) = if k.beq b a then some v else find a m

    abbrev pub insert : K → V → List (K × V) → List (K × V)
    insert a v [] = (a, v) ∷ []
    insert a v ((b, w) ∷ m) =
        if k.beq b a
        then (a, v) ∷ m
        else if k.blt a b
        then (a, v) ∷ (b, w) ∷ m
        else (b, w) ∷ insert a v m

    abbrev pub erase : K → List (K × V) → List (K × V)
    erase a [] = []
    erase a ((b, w) ∷ m) = if k.beq b a then erase a m else (b, w) ∷ erase a m

    pub find-insert :
        (a c : K) (v : V) (m : List (K × V))
        → find c (insert a v m) ≡ (if k.beq a c then some v else find c m)
    find-insert a c v [] = refl
    find-insert a c v ((b, w) ∷ m) =
        ground (arith, k.beq_iff a c, k.beq_iff b a, k.beq_iff b c, find-insert a c v m)

    pub find-erase :
        (a c : K) (m : List (K × V)) → find c (erase a m) ≡ (if k.beq a c then none else find c m)
    find-erase a c [] = ground arith
    find-erase a c ((b, w) ∷ m) =
        ground (arith, k.beq_iff a c, k.beq_iff b a, k.beq_iff b c, find-erase a c m)

    pub find-insert_same : (a : K) (v : V) (m : List (K × V)) → find a (insert a v m) ≡ some v
    find-insert_same a v m = ground (arith, find-insert a a v m, beq_refl a)

    pub find-insert_other :
        (a c : K) (v : V) (m : List (K × V)) → k.beq a c ≡ false → find c (insert a v m) ≡ find c m
    find-insert_other a c v m h = ground (arith, find-insert a c v m, h)

    pub find-erase_other :
        (a c : K) (m : List (K × V)) → k.beq a c ≡ false → find c (erase a m) ≡ find c m
    find-erase_other a c m h = ground (arith, find-erase a c m, h)
