-- ===== src/Base/Bytes.antt =====
-- std::string as the list of its bytes.
use pmros.Base.Tests.{if◌then◌else◌, ◌==◌, ltb}
use pmros.Base.Maps.{Key}
use Prim.Native.Nat.{ℕ}
use Prim.Native.Char.{code}
use Prim.Native.String.{String}
use mathlib.Core.Path.{◌≡◌}
use mathlib.Core.Logic.{◌↔◌}
use mathlib.Core.Bool.{Bool, true, false, ◌&&◌}
use mathlib.Core.List.{List, [], ◌∷◌}
use native.Mathlib.Omega.{arith}

abbrev pub Bytes : Type 0
Bytes = List ℕ

abbrev pub codes : String → Bytes
codes String.[] = []
codes (String.◌∷◌ c s) = code c ∷ codes s

abbrev pub eq_bytes : Bytes → Bytes → Bool
eq_bytes [] [] = true
eq_bytes [] (c ∷ t) = false
eq_bytes (b ∷ s) [] = false
eq_bytes (b ∷ s) (c ∷ t) = b == c && eq_bytes s t

-- std::less<std::string>
abbrev pub lt_bytes : Bytes → Bytes → Bool
lt_bytes s [] = false
lt_bytes [] (c ∷ t) = true
lt_bytes (b ∷ s) (c ∷ t) = if b == c then lt_bytes s t else ltb b c

pub eq_bytes_iff : (s t : Bytes) → (eq_bytes s t ≡ true) ↔ (s ≡ t)
eq_bytes_iff [] [] = ground arith
eq_bytes_iff [] (c ∷ t) = ground arith
eq_bytes_iff (b ∷ s) [] = ground arith
eq_bytes_iff (b ∷ s) (c ∷ t) = ground (arith, eq_bytes_iff s t)

instance abbrev pub bytes_key : Key Bytes
bytes_key = record { beq = eq_bytes; blt = lt_bytes; beq_iff = eq_bytes_iff }
