-- ===== src/Core/StepLegal.antt =====
-- A step keeps the CSRs legal and the blank bits of mstatus clear: its five assertions hold.
use m_emu.Base.{ℕ, ◌≡◌, subst, some, arith}
use m_emu.Rv64.{Rv64Core}
use m_emu.Rv64.Reset.{set_gpr, write_program_counter}
use m_emu.Csr.{to_csr_addr}
use m_emu.Csr.Legal.{IsLegal, csr_write-IsLegal, Writes}
use m_emu.Trap.{CsRegCause, raise_trap, trap_to_s, trap_to_m, mret, sret}
use m_emu.Trap.Check.{pre_exec-IsLegal}
use m_emu.Mmu.{SysBus}
use m_emu.Core.Exec.{Hart, Outcome}
use m_emu.Core.Step.{retire, step}
use m_emu.Core.Maintains.{Stable}
use m_emu.Core.PreservesCompressed.{step-Maintains}
use m_emu.Core.Invariants.{after_step}

set_gpr-IsLegal : (i v : ℕ) (s t : Rv64Core) → set_gpr i v s ≡ some t → IsLegal s → IsLegal t
unfolding set_gpr
set_gpr-IsLegal i v s t e h = ground (arith, h)

raise_trap-IsLegal :
    (c : CsRegCause) (v : ℕ) (s t : Rv64Core) → raise_trap c v s ≡ some t → IsLegal s → IsLegal t
unfolding raise_trap trap_to_s trap_to_m
raise_trap-IsLegal c v s t e h = ground (arith, h)

mret-IsLegal : (s t : Rv64Core) → mret s ≡ some t → IsLegal s → IsLegal t
unfolding mret
mret-IsLegal s t e h = ground (arith, h)

sret-IsLegal : (s t : Rv64Core) → sret s ≡ some t → IsLegal s → IsLegal t
unfolding sret
sret-IsLegal s t e h = ground (arith, h)

retire-IsLegal : (o : Outcome) (inst : ℕ) (s : Rv64Core) → IsLegal s → IsLegal (retire o inst s)
unfolding retire
retire-IsLegal o inst s h = ground (arith, h)

pc-IsLegal : (v : ℕ) (s : Rv64Core) → IsLegal s → IsLegal (write_program_counter v s)
unfolding write_program_counter
pc-IsLegal v s h = ground (arith, h)

IsLegal-Stable : Stable IsLegal
IsLegal-Stable = record {
  ignores_mmu = record { at = λ s m h. search h };
  on_gpr = set_gpr-IsLegal;
  on_pc = pc-IsLegal;
  on_trap = raise_trap-IsLegal;
  on_csr = λ i v s t p e h. subst (Writes IsLegal) e (csr_write-IsLegal (to_csr_addr i) v s h);
  on_mret = mret-IsLegal;
  on_sret = sret-IsLegal;
  on_retire = retire-IsLegal;
}

-- A step that returns keeps the CSRs legal, whatever instruction it runs.
pub step-IsLegal :
    {S : Type 0} (bus : SysBus S) (h : Hart S) {t : Hart S}
    → IsLegal h.core
    → step bus h ≡ some (t, tt)
    → IsLegal t.core
step-IsLegal bus h v e =
    after_step IsLegal _ e
      (step-Maintains bus IsLegal-Stable IsLegal (λ s t e h. pre_exec-IsLegal s h e) h v)
