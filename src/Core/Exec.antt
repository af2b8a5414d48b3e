-- ===== src/Core/Exec.antt =====
-- Actions of a hart: code of RV64Core that changes the state of the hart and of the system behind
-- its bus, and may fail an assertion (`none`). The primitives are the members of RV64Core
-- (modules/core/rv64/include/RV64Core.h) that an instruction calls.
use m_emu.Base.{ℕ, Option, none, some}
use m_emu.Rv64.{Rv64Core, ExecFeedback}
use m_emu.Rv64.Reset.{gpr_at, set_gpr, write_program_counter}
use m_emu.Trap.{exception, raise_trap}

pub record Hart (S : Type 0) : Type 0 where
  pub core : Rv64Core
  pub mem : S

abbrev pub Action : Type 0 → Type 0 → Type 0
Action S A = Hart S → Option (Hart S × A)

-- What an instruction leaves to the end of the step: nothing, is_new_pc_set or is_instr_illegal.
pub data Outcome : Type 0 where
  sequential jumped illegal : Outcome

module _ {S A : Type 0} where
  unfoldable pub pure : A → Action S A
  pure a h = some (h, a)

  -- A computation that may fail an assertion.
  abbrev pub checked_at : Hart S → Option A → Option (Hart S × A)
  checked_at h none = none
  checked_at h (some a) = some (h, a)

  unfoldable pub checked : Option A → Action S A
  checked o h = checked_at h o

  -- A value read from the hart.
  unfoldable pub gets : (Rv64Core → A) → Action S A
  gets f h = some (h, f h.core)

module _ {S : Type 0} where
  abbrev pub changed : S → Option Rv64Core → Option (Hart S × Unit {0})
  changed mem none = none
  changed mem (some s) = some (record { core = s; mem = mem }, tt)

  -- A change of the hart alone.
  unfoldable pub change : (Rv64Core → Option Rv64Core) → Action S (Unit {0})
  change f h = changed h.mem (f h.core)

  -- A call that changes the hart or returns false.
  abbrev pub attempted : Hart S → Option Rv64Core → Option (Hart S × Outcome)
  attempted h none = some (h, Outcome.illegal)
  attempted h (some s) = some (record h { core = s }, Outcome.sequential)

  unfoldable pub or_illegal : (Rv64Core → Option Rv64Core) → Action S Outcome
  or_illegal f h = attempted h (f h.core)

module _ {S F A : Type 0} where
  abbrev pub accessed : Option (Rv64Core × S × F × A) → Option (Hart S × (F × A))
  accessed none = none
  accessed (some (s, mem, f, a)) = some (record { core = s; mem = mem }, (f, a))

  -- A call of the MMU, with its feedback and its result.
  unfoldable pub mmu : (Rv64Core → S → Option (Rv64Core × S × F × A)) → Action S (F × A)
  mmu f h = accessed (f h.core h.mem)

module _ {S A B : Type 0} where
  abbrev pub continue : (A → Action S B) → Option (Hart S × A) → Option (Hart S × B)
  continue f none = none
  continue f (some (h, a)) = f a h

  infixl 10 ◌>>=◌
  unfoldable pub ◌>>=◌ : Action S A → (A → Action S B) → Action S B
  ◌>>=◌ first then_do hart = continue then_do (first hart)

  -- The value of the first action is dropped.
  infixl 10 ◌>>◌
  abbrev pub ◌>>◌ : Action S A → Action S B → Action S B
  first >> second = first >>= λ dropped. second

module _ {S : Type 0} where
  -- GPR[i]
  abbrev pub gpr : ℕ → Action S ℕ
  gpr i = gets (λ s. gpr_at s i)

  abbrev pub set_register : ℕ → ℕ → Action S (Unit {0})
  set_register i v = change (set_gpr i v)

  abbrev pub pc : Action S ℕ
  pc = gets (λ s. s.current_program_counter)

  abbrev pub set_pc : ℕ → Action S (Unit {0})
  set_pc v = change (λ s. some (write_program_counter v s))

  abbrev pub raise : ExecFeedback → ℕ → Action S (Unit {0})
  raise e tval = change (raise_trap (exception e) tval)
