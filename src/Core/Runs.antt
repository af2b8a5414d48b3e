-- ===== src/Core/Runs.antt =====
-- What a step does with the instruction it fetched.
use m_emu.Base.{
  ℕ, ◌%◌, ◌≡◌, refl, ap, ◌∙◌, Bool, true, false, not, Option, none, some, List, arith, ◌==◌,
  if◌then◌else◌,
}
use m_emu.Words.{from_le}
use m_emu.Rv64.{Rv64Core}
use m_emu.Trap.{pre_exec}
use m_emu.Mmu.{SysBus, Feedback, vaddr_inst_fetch}
use m_emu.Core.Exec.{Hart, Action, Outcome, pure, gets, change, mmu, ◌>>=◌, continue, pc}
use m_emu.Core.Step.{Ran, execute, fetch_execute, after_check, finish, step}
use m_emu.Core.Equations.{at_core, bind-returns, change-returns, mmu-returns, gets-returns}

-- The hart is about to run `inst`: no interrupt is taken, the program counter is even, and the
-- fetch leaves the hart `ready`.
pub record Fetches {S : Type 0} (bus : SysBus S) (h ready : Hart S) (inst : ℕ) : Type 0 where
  pub checked_core : Rv64Core
  pub bytes : List ℕ
  pub check : pre_exec h.core ≡ some checked_core
  pub no_trap : checked_core.need_trap ≡ false
  pub even : checked_core.current_program_counter % 2 ≡ 0
  pub fetch :
      vaddr_inst_fetch bus checked_core.current_program_counter 4 checked_core h.mem
      ≡ some (ready.core, ready.mem, Feedback.access_ok, bytes)
  pub word : from_le bytes ≡ inst

module _ {S : Type 0} where
  -- The rest of a step once an instruction is fetched.
  abbrev pub run : SysBus S → ℕ → Action S (Unit {0})
  run bus inst = execute bus inst >>= λ outcome. finish (inst, outcome)

  pair_then :
      (m : Action S Outcome) (inst : ℕ) (h : Hart S)
      → ((m >>= λ outcome. pure (inst, outcome)) >>= finish) h
        ≡ (m >>= λ outcome. finish (inst, outcome)) h
  unfolding ◌>>=◌ pure
  pair_then m inst h = go (m h)
    where
      go :
          (o : Option (Hart S × Outcome))
          → continue finish (continue (λ outcome. pure (inst, outcome)) o)
            ≡ continue (λ outcome. finish (inst, outcome)) o
      go none = refl
      go (some (t, outcome)) = refl

  else_branch :
      (b : Bool) (m n : Action S Ran) (h : Hart S) → b ≡ true → (if not b then m else n) h ≡ n h
  else_branch true m n h e = refl
  else_branch false m n h e = cc

  fetch_execute-returns :
      (bus : SysBus S) (h ready : Hart S) (bytes : List ℕ)
      → h.core.current_program_counter % 2 ≡ 0
      → vaddr_inst_fetch bus h.core.current_program_counter 4 h.core h.mem
        ≡ some (ready.core, ready.mem, Feedback.access_ok, bytes)
      → fetch_execute bus h
        ≡ (execute bus (from_le bytes) >>= λ outcome. pure (from_le bytes, outcome)) ready
  unfolding fetch_execute
  fetch_execute-returns bus h ready bytes even e =
      let is_even : (h.core.current_program_counter % 2 == 0) ≡ true = ground arith in
      bind-returns pc _ h h h.core.current_program_counter (gets-returns _ h)
      ∙ else_branch _ _ _ h is_even
      ∙ bind-returns (mmu (vaddr_inst_fetch bus h.core.current_program_counter 4)) _ h ready
          (Feedback.access_ok, bytes) (mmu-returns _ h ready Feedback.access_ok bytes e)

  fetching :
      (bus : SysBus S) (h ready : Hart S) (bytes : List ℕ)
      → h.core.current_program_counter % 2 ≡ 0
      → vaddr_inst_fetch bus h.core.current_program_counter 4 h.core h.mem
        ≡ some (ready.core, ready.mem, Feedback.access_ok, bytes)
      → (after_check bus false >>= λ ran. finish ran) h ≡ run bus (from_le bytes) ready
  unfolding after_check ◌>>=◌
  fetching bus h ready bytes even e =
      ap (continue finish) (fetch_execute-returns bus h ready bytes even e)
      ∙ pair_then (execute bus (from_le bytes)) (from_le bytes) ready

  pub step-run :
      (bus : SysBus S) (h ready : Hart S) (inst : ℕ)
      → Fetches bus h ready inst
      → step bus h ≡ run bus inst ready
  unfolding step
  step-run bus h ready inst f =
      let s1 = f.checked_core in
      let h1 = at_core s1 h in
      bind-returns (change pre_exec) _ h h1 tt (change-returns pre_exec h s1 f.check)
      ∙ bind-returns (gets (λ s. s.need_trap)) _ h1 h1 s1.need_trap (gets-returns _ h1)
      ∙ ap (λ b. (after_check bus b >>= λ ran. finish ran) h1) f.no_trap
      ∙ fetching bus h1 ready f.bytes f.even f.fetch
      ∙ ap (λ w. (execute bus w >>= λ outcome. finish (w, outcome)) ready) f.word
