-- ===== src/Platform/Timer.antt =====
-- A timer that is due, from the comparator to the trap of the hart.
use m_emu.Base.{
  ℕ, ◌==◌, ◌+◌, ◌%◌, ◌^◌, ◌<◌, ◌≡◌, ◌≢◌, refl, ap, ◌∙◌, true, some, length, get_or, arith,
}
use m_emu.Words.{
  field, get_field, get-set_apart, get-set_self, test_bit, test_bit-and, test_bit-zero_word,
}
use m_emu.Rv64.{Rv64Core, IntStatus, PrivMode}
use m_emu.Csr.Legal.{IsLegal}
use m_emu.Clint.{tick, m_s_irq, m_t_irq}
use m_emu.Trap.{bit_of, pending_lines, update_csrs}
use m_emu.Trap.Policy.{int_bits}
use m_emu.Intc.{Lines}
use m_emu.Intc.ClintAdapter.{CemuClintAdapter}
use m_emu.Intc.Poll.{AllFit}
use m_emu.Intc.Driven.{update_int_state-Driven}
use m_emu.Core.StepUnchecked.{IsBlank}
use m_emu.Core.Interrupted.{TakesInterrupt, step-interrupt}
use m_emu.Platform.Valid.{int_status-IsLegal}
use m_emu.Platform.Loop.{
  Machine, DefaultPlatform, set_lines, then_do, update_clint, plic_updated, update_plic, stepped0,
  step_core0,
}

-- The timer line is bit 7 of mip.
pending_lines-mtip : (l : IntStatus) (w : ℕ) → l.mtip ≡ true → test_bit (pending_lines l w) 7 ≡ true
pending_lines-mtip l w up =
    let e : get_field (field 7 1) (pending_lines l w) ≡ 1 =
      unfold pending_lines in
      get-set_apart (field 9 1) (field 7 1) _ _ refl
      ∙ get-set_self (field 7 1) _ _
      ∙ ap (λ b. bit_of b % 2) up in
    unfold test_bit get_field in ap (λ (t : ℕ). t == 1) e

pub timer_waits :
    (s : Rv64Core) → s.int_status.mtip ≡ true → test_bit s.csr_int_enable 7 ≡ true → int_bits s ≢ 0
unfolding update_csrs
timer_waits s up on none_set = ground (
  arith,
  pending_lines-mtip s.int_status s.csr_int_pending up,
  test_bit-and (pending_lines s.int_status s.csr_int_pending) s.csr_int_enable 7,
  test_bit-zero_word 7,
)

-- The two controllers stand apart in what the bus leads to.
pub record Laws {S : Type 0} (machine : Machine S) : Type 0 where
  pub plic-set_clint :
      (a : CemuClintAdapter) (s : S) → machine.plic (machine.set_clint a s) ≡ machine.plic s

module _ {S : Type 0} (machine : Machine S) where
  -- The lines of the harts after the first controller.
  timer_line :
      (p : DefaultPlatform S)
      → get_or (machine.clint p.mem).int_ctrl.mtimecmp 0 0
        < ((machine.clint p.mem).int_ctrl.mtime + 1) % 2 ^ 64
      → (l : Lines) × (update_clint machine p
          ≡ some (
              set_lines l (record p {
                mem =
                    machine.set_clint
                      (record (machine.clint p.mem) {
                        int_ctrl = tick (machine.clint p.mem).int_ctrl;
                      })
                      p.mem;
              })))
        × (l.core0.mtip ≡ true)
  unfolding update_clint m_emu.Intc.ClintAdapter.update_int_state m_s_irq m_t_irq tick
  timer_line p due = (_, refl, ground arith)

  -- The lines of the harts after both.
  lines_updated :
      (p : DefaultPlatform S)
      → Laws machine
      → AllFit (length (machine.plic p.mem).int_ctrl.pending) (machine.plic p.mem).int_dev_map
      → get_or (machine.clint p.mem).int_ctrl.mtimecmp 0 0
        < ((machine.clint p.mem).int_ctrl.mtime + 1) % 2 ^ 64
      → (q : DefaultPlatform S) × (then_do (update_plic machine) (update_clint machine p) ≡ some q)
        × (q.core0 ≡ record p.core0 { int_status = q.core0.int_status })
        × (q.core0.int_status.mtip ≡ true)
  unfolding update_plic
  lines_updated p laws fit due =
      let (l, e, up) = timer_line p due in
      let mem : S =
        machine.set_clint
          (record (machine.clint p.mem) { int_ctrl = tick (machine.clint p.mem).int_ctrl }) p.mem in
      let fit_there : AllFit (length (machine.plic mem).int_ctrl.pending)
          (machine.plic mem).int_dev_map =
        rw (laws.plic-set_clint _ p.mem) fit in
      let (polled, a, after, done_e, _, driven) =
        update_int_state-Driven (machine.get_irq_status mem) (machine.plic mem) l fit_there in
      (
        _,
        ap (then_do (update_plic machine)) e
            ∙ ap (plic_updated machine (set_lines l (record p { mem = mem }))) done_e,
        refl,
        driven.core0_mtip ∙ up,
      )

  -- On a platform whose two controllers stand apart and whose map of devices fits the external
  -- one: when the next tick of the time passes the comparator of hart 0, which runs in user
  -- mode with its timer interrupt enabled, legal CSRs and clear blank fields in mstatus, the
  -- controllers are updated without a failed assertion and change only the lines of the hart;
  -- the next step of hart 0 returns, and in it the hart takes a trap for an interrupt that is
  -- pending and enabled.
  pub step_core0-due :
      (p : DefaultPlatform S)
      → Laws machine
      → AllFit (length (machine.plic p.mem).int_ctrl.pending) (machine.plic p.mem).int_dev_map
      → get_or (machine.clint p.mem).int_ctrl.mtimecmp 0 0
        < ((machine.clint p.mem).int_ctrl.mtime + 1) % 2 ^ 64
      → IsLegal p.core0
      → IsBlank p.core0
      → p.core0.next_priv_mode ≡ PrivMode.u_mode
      → test_bit p.core0.csr_int_enable 7 ≡ true
      → (q r : DefaultPlatform S) × (then_do (update_plic machine) (update_clint machine p)
          ≡ some q)
        × (step_core0 machine q ≡ some r)
        × TakesInterrupt q.core0 r.core0
        × (q.core0 ≡ record p.core0 { int_status = q.core0.int_status })
  unfolding step_core0 IsBlank
  step_core0-due p laws fit due legal blank user on =
      let (q, e, same, up) = lines_updated p laws fit due in
      let taken =
        step-interrupt machine.sys_bus (record { core = q.core0; mem = q.mem })
          (rw same (int_status-IsLegal p.core0 _ legal)) (rw same blank) (rw same user)
          (timer_waits q.core0 up (rw same on)) in
      (q, _, e, ap (stepped0 machine q) taken.1, taken.3, same)
