-- ===== src/Core/Interrupted.antt =====
-- A step of a hart in user mode with an interrupt pending and enabled.
use m_emu.Base.{
  ◌%◌, ◌^◌, ◌+◌, ◌≡◌, ◌≢◌, refl, sym, ◌∙◌, ap, true, false, some, arith, if◌then◌else◌,
}
use m_emu.Words.{test_bit}
use m_emu.Rv64.{PrivMode, IntType, int_num, Rv64Core}
use m_emu.Csr.Legal.{IsLegal}
use m_emu.Trap.{interrupt, delegated, trap_to_s, trap_to_m, trap_vector, update_csrs, pre_exec}
use m_emu.Trap.Check.{Checked, idle, trap_s, trap_m}
use m_emu.Trap.Policy.{int_bits}
use m_emu.Trap.Taken.{pre_exec-Taken}
use m_emu.Trap.Entry.{Enters, enter_s-EntersS, enter_m-EntersM}
use m_emu.Mmu.{SysBus}
use m_emu.Core.Exec.{Hart, Outcome, pure, gets, change, ◌>>=◌}
use m_emu.Core.Step.{retire, after_check, trap_illegal, step}
use m_emu.Core.Equations.{at_core, bind-returns, change-returns, gets-returns, pure-returns}
use m_emu.Core.StepUnchecked.{IsBlank, finish_unchecked, step_unchecked, step-step_unchecked}

-- The hart after the trap for an interrupt that was pending and enabled: S_MODE takes it if it is
-- delegated, M_MODE otherwise; the cause has its top bit set, the address to return to is that of
-- the instruction that did not run, interrupts of that mode are disabled with the bit and the mode
-- from before in mstatus, and nothing is retired.
pub record TakesInterrupt (s t : Rv64Core) : Type 0 where
  pub irq : IntType
  pub pending : test_bit (update_csrs s).csr_int_pending (int_num irq) ≡ true
  pub enabled : test_bit s.csr_int_enable (int_num irq) ≡ true
  pub to_vector : t.current_program_counter ≡ (
      if test_bit s.csr_m_int_delegation (int_num irq)
      then trap_vector s.csr_s_trap_vec_base_addr (int_num irq)
      else trap_vector s.csr_m_trap_vec_base_addr (int_num irq))
  pub to_mode :
      t.next_priv_mode
      ≡ (if test_bit s.csr_m_int_delegation (int_num irq) then PrivMode.s_mode else PrivMode.m_mode)
  pub cause :
      (if test_bit s.csr_m_int_delegation (int_num irq)
        then t.csr_supervisor_cause
        else t.csr_machine_cause)
      ≡ int_num irq + 2 ^ 63
  pub address :
      (if test_bit s.csr_m_int_delegation (int_num irq)
        then t.csr_s_exception_pc
        else t.csr_m_exception_pc)
      ≡ s.current_program_counter
  pub status :
      Enters (test_bit s.csr_m_int_delegation (int_num irq)) PrivMode.u_mode s.status t.status
  pub retired : t.minstret ≡ s.minstret
  pub settled : t.need_trap ≡ false

small : (i : IntType) → int_num i % 2 ^ 63 ≡ int_num i
small i = ground arith

is_delegated :
    (i : IntType) (s : Rv64Core)
    → s.next_priv_mode ≡ PrivMode.u_mode
    → delegated (interrupt i) (update_csrs s) ≡ test_bit s.csr_m_int_delegation (int_num i)
unfolding delegated update_csrs
is_delegated i s user = ground arith

Checked-TakesInterrupt :
    (s t : Rv64Core)
    → s.next_priv_mode ≡ PrivMode.u_mode
    → Checked (update_csrs s) t
    → t.need_trap ≡ true
    → TakesInterrupt s (retire Outcome.sequential 0 t)
unfolding update_csrs trap_to_s trap_to_m retire
Checked-TakesInterrupt s t user idle n = cc
Checked-TakesInterrupt s t user (trap_s i p e d) n =
    let own : test_bit s.csr_m_int_delegation (int_num i) ≡ true =
      sym (is_delegated i s user) ∙ d in
    record {
      irq = i;
      pending = p;
      enabled = e;
      to_vector = rw own (ap (trap_vector s.csr_s_trap_vec_base_addr) (small i));
      to_mode = rw own refl;
      cause = rw own (ground (arith, small i));
      address = rw own refl;
      status = rw (own, sym user) (enter_s-EntersS s.next_priv_mode s.status);
      retired = refl;
      settled = refl;
    }
Checked-TakesInterrupt s t user (trap_m i p e d) n =
    let own : test_bit s.csr_m_int_delegation (int_num i) ≡ false =
      sym (is_delegated i s user) ∙ d in
    record {
      irq = i;
      pending = p;
      enabled = e;
      to_vector = rw own (ap (trap_vector s.csr_m_trap_vec_base_addr) (small i));
      to_mode = rw own refl;
      cause = rw own (ground (arith, small i));
      address = rw own refl;
      status = rw (own, sym user) (enter_m-EntersM s.next_priv_mode s.status);
      retired = refl;
      settled = refl;
    }

module _ {S : Type 0} (bus : SysBus S) where
  trap_returns :
      (h : Hart S) (t : Rv64Core)
      → pre_exec h.core ≡ some t
      → t.need_trap ≡ true
      → step_unchecked bus h ≡ some (at_core (retire Outcome.sequential 0 t) h, tt)
  unfolding step_unchecked after_check finish_unchecked
  trap_returns h t e n =
      let u = at_core t h in
      bind-returns (change pre_exec) _ h u tt (change-returns pre_exec h t e)
      ∙ bind-returns (gets (λ s. s.need_trap)) _ u u t.need_trap (gets-returns _ u)
      ∙ ap (λ b. (after_check bus b >>= finish_unchecked) u) n
      ∙ bind-returns (pure (0, Outcome.sequential)) _ u u (0, Outcome.sequential)
          (pure-returns (0, Outcome.sequential) u)
      ∙ bind-returns (trap_illegal (0, Outcome.sequential)) _ u u tt (pure-returns tt u)
      ∙ change-returns (λ s. some (retire Outcome.sequential 0 s)) u _ refl

  -- A hart in user mode with legal CSRs, clear blank fields in mstatus and an interrupt pending
  -- and enabled takes a trap at its next step: the step returns, the memory is as before, and
  -- the hart is at the trap vector of the mode that takes the trap, for an interrupt that is
  -- pending and enabled, with the interrupt bit of that mode cleared in mstatus.
  pub step-interrupt :
      (h : Hart S)
      → IsLegal h.core
      → IsBlank h.core
      → h.core.next_priv_mode ≡ PrivMode.u_mode
      → int_bits h.core ≢ 0
      → (t : Hart S) × (step bus h ≡ some (t, tt)) × (t.mem ≡ h.mem) × TakesInterrupt h.core t.core
  step-interrupt h legal blank user some_bit =
      let (t, e, c, n) = pre_exec-Taken h.core legal user some_bit in
      (
        at_core (retire Outcome.sequential 0 t) h,
        step-step_unchecked bus h blank ∙ trap_returns h t e n,
        refl,
        Checked-TakesInterrupt h.core t user c n,
      )
