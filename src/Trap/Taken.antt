-- ===== src/Trap/Taken.antt =====
-- When the interrupt check of a hart in user mode takes a trap.
use m_emu.Base.{◌≡◌, ◌≢◌, ◌∙◌, refl, true, false, Bool-cases, inl, inr, some, arith}
use m_emu.Rv64.{PrivMode, IntType, bits_to_int_type, Rv64Core, m_mode_int_mask}
use m_emu.Csr.Legal.{IsLegal}
use m_emu.Trap.Raise.{raise_trap, trap_to_s, trap_to_m}
use m_emu.Trap.Interrupt.{
  interrupt, update_csrs, no_interrupt, check_interrupts, interrupt_lower, pre_exec,
}
use m_emu.Trap.Total.{no_interrupt-zero}
use m_emu.Trap.Check.{Checked, raise-Checked, and-IsSource, within_and, raise_interrupt}
use m_emu.Trap.Policy.{int_bits}

raise_interrupt-need_trap :
    (i : IntType) (s : Rv64Core) {t : Rv64Core}
    → no_interrupt i ≡ false
    → s.need_trap ≡ false
    → raise_trap (interrupt i) 0 s ≡ some t
    → t.need_trap ≡ true
unfolding trap_to_s trap_to_m
raise_interrupt-need_trap i s h n e = ground (arith, raise_interrupt i s h n)

user_raises :
    (s : Rv64Core)
    → s.next_priv_mode ≡ PrivMode.u_mode
    → no_interrupt (bits_to_int_type (int_bits s)) ≡ false
    → pre_exec s ≡ raise_trap (interrupt (bits_to_int_type (int_bits s))) 0 (update_csrs s)
unfolding pre_exec check_interrupts interrupt_lower update_csrs
user_raises s user found = ground arith

-- In user mode, with an interrupt pending and enabled, the check takes a trap.
pub pre_exec-Taken :
    (s : Rv64Core)
    → IsLegal s
    → s.next_priv_mode ≡ PrivMode.u_mode
    → int_bits s ≢ 0
    → (t : Rv64Core) × (pre_exec s ≡ some t) × Checked (update_csrs s) t × (t.need_trap ≡ true)
unfolding update_csrs
pre_exec-Taken s legal user some_bit =
    let u : Rv64Core = update_csrs s in
    let n : u.need_trap ≡ false = unfold update_csrs in refl in
    let found : no_interrupt (bits_to_int_type (int_bits s)) ≡ false =
      elim (Bool-cases (no_interrupt (bits_to_int_type (int_bits s)))) [
        | inl nothing ↦ absurd (
            some_bit (
              no_interrupt-zero _
                (within_and u.csr_int_pending s.csr_int_enable m_mode_int_mask legal.mie) nothing))
        | inr e ↦ e
      ] in
    let (t, e, c) = raise-Checked (int_bits s) u n (and-IsSource u) found in
    (t, user_raises s user found ∙ e, c, raise_interrupt-need_trap _ u found n e)
