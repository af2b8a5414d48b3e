-- ===== src/Core/Equations.antt =====
-- How an action goes on once its first part is known to return.
use m_emu.Base.{◌≡◌, refl, ap, Option, some}
use m_emu.Rv64.{Rv64Core}
use m_emu.Core.Exec.{
  Hart, Action, pure, checked, checked_at, gets, change, changed, mmu, accessed, ◌>>=◌, continue,
}

abbrev pub at_core : {S : Type 0} → Rv64Core → Hart S → Hart S
at_core s h = record { core = s; mem = h.mem }

module _ {S A B : Type 0} where
  pub bind-returns :
      (m : Action S A) (g : A → Action S B) (h t : Hart S) (a : A)
      → m h ≡ some (t, a)
      → (m >>= g) h ≡ g a t
  unfolding ◌>>=◌
  bind-returns m g h t a e = ap (continue g) e

module _ {S : Type 0} where
  pub change-returns :
      (f : Rv64Core → Option Rv64Core) (h : Hart S) (s : Rv64Core)
      → f h.core ≡ some s
      → change f h ≡ some (at_core s h, tt)
  unfolding change
  change-returns f h s e = ap (changed h.mem) e

module _ {S F A : Type 0} where
  pub mmu-returns :
      (f : Rv64Core → S → Option (Rv64Core × S × F × A)) (h t : Hart S) (x : F) (a : A)
      → f h.core h.mem ≡ some (t.core, t.mem, x, a)
      → mmu f h ≡ some (t, (x, a))
  unfolding mmu
  mmu-returns f h t x a e = ap accessed e

module _ {S A : Type 0} where
  pub checked-returns : (o : Option A) (h : Hart S) (a : A) → o ≡ some a → checked o h ≡ some (h, a)
  unfolding checked
  checked-returns o h a e = ap (checked_at h) e

  pub gets-returns : (f : Rv64Core → A) (h : Hart S) → gets f h ≡ some (h, f h.core)
  unfolding gets
  gets-returns f h = refl

  pub pure-returns : (a : A) (h : Hart S) → pure a h ≡ some (h, a)
  unfolding pure
  pure-returns a h = refl
