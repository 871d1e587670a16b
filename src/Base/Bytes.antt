-- ===== src/Base/Bytes.antt =====
-- Go's comparisons of byte strings: `==`, `HasPrefix` and `HasSuffix`.
use Prim.Native.Nat.{ℕ}
use mathlib.Core.Path.{◌≡◌, refl}
use mathlib.Core.Bool.{Bool, true, false, ◌&&◌}
use mathlib.Core.List.{List, [], ◌∷◌}
use native.Mathlib.Omega.{arith}
use didem.Base.Tests.{◌==◌, nat_eq, beq_refl}

abbrev pub same_bytes : List ℕ → List ℕ → Bool
same_bytes [] [] = true
same_bytes (a ∷ l) (b ∷ m) = a == b && same_bytes l m
same_bytes _ _ = false

abbrev pub starts_with : List ℕ → List ℕ → Bool
starts_with [] l = true
starts_with (a ∷ p) [] = false
starts_with (a ∷ p) (b ∷ l) = a == b && starts_with p l

-- the last byte, for a suffix of one byte
abbrev pub ends_with : ℕ → List ℕ → Bool
ends_with b [] = false
ends_with b (a ∷ []) = a == b
ends_with b (_ ∷ a ∷ l) = ends_with b (a ∷ l)

pub same_bytes_refl : (l : List ℕ) → same_bytes l l ≡ true
same_bytes_refl [] = refl
same_bytes_refl (a ∷ l) = rw (beq_refl a) (same_bytes_refl l)

pub same_bytes_eq : (l m : List ℕ) → same_bytes l m ≡ true → l ≡ m
same_bytes_eq [] [] h = refl
same_bytes_eq [] (b ∷ m) h = cc
same_bytes_eq (a ∷ l) [] h = cc
same_bytes_eq (a ∷ l) (b ∷ m) h = ground (arith, same_bytes_eq l m)
