-- ===== src/Base/Maps.antt =====
-- A hash map from numbers as a list of its insertions, the newest first.
use Prim.Native.Nat.{ℕ}
use mathlib.Core.Path.{◌≡◌}
use mathlib.Core.Bool.{false}
use mathlib.Core.Option.{Option, none, some}
use mathlib.Core.List.{List, [], ◌∷◌}
use native.Mathlib.Omega.{arith}
use m_emu.Base.Tests.{◌==◌, if◌then◌else◌}

unfoldable pub find_key : ℕ → List (ℕ × ℕ) → Option ℕ
find_key k [] = none
find_key k ((a, h) ∷ rest) = let later = find_key k rest in if a == k then some h else later

unfoldable pub erase_key : ℕ → List (ℕ × ℕ) → List (ℕ × ℕ)
erase_key k [] = []
erase_key k ((a, h) ∷ rest) =
    let later = erase_key k rest in if a == k then later else (a, h) ∷ later

-- What an erased map still holds.
pub find_key-erase_key :
    (k j i : ℕ) (m : List (ℕ × ℕ))
    → find_key j (erase_key k m) ≡ some i
    → ((j == k) ≡ false) × (find_key j m ≡ some i)
unfolding find_key erase_key
find_key-erase_key k j i [] e = absurd (grind arith)
find_key-erase_key k j i ((a, h) ∷ rest) e = grind (arith, find_key-erase_key k j i rest)
