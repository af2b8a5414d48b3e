-- ===== src/Intc/HartLines.antt =====
-- The interrupt lines of the two harts, and calls in a row.
use m_emu.Rv64.{IntStatus}
use m_emu.Device.{Access, done, failed, fault}

pub record Lines : Type 0 where
  pub core0 : IntStatus
  pub core1 : IntStatus

module _ {A B : Type 0} where
  infixl 10 ◌>>=◌
  abbrev pub ◌>>=◌ : Access A → (A → Access B) → Access B
  done a >>= k = k a
  failed >>= k = failed
  fault >>= k = fault
