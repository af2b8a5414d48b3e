-- ===== src/Core/System.antt =====
-- The SYSTEM instructions of modules/core/rv64/src/rv64_exec.cpp.
use m_emu.Base.{
  ℕ, ◌%◌, ◌^◌, Bool, true, not, ◌&&◌, Option, none, some, bit_and, bit_or, ◌==◌, if◌then◌else◌,
}
use m_emu.Words.{Field, get_field, bit_not, field}
use m_emu.Rv64.{Rv64Core}
use m_emu.Rv64.Reset.{set_gpr}
use m_emu.Csr.{
  to_csr_addr, CsrOutcome, written, refused, aborted, csr_read, csr_write, csr_op_permission_check,
}
use m_emu.Trap.{ecall, ebreak, mret, sret}
use m_emu.Mmu.{sfence_vma}
use m_emu.Core.Inst
use m_emu.Core.Functs.{
  funct3_priv, funct3_csrrw, funct3_csrrs, funct3_csrrc, funct3_csrrwi, funct3_csrrsi,
  funct3_csrrci, funct7_ecall_ebreak, funct7_sret_wfi, funct7_mret, funct7_sfence_vma,
}
use m_emu.Core.Exec.{Hart, Action, Outcome, pure, change, or_illegal, ◌>>=◌, ◌>>◌, gpr}

-- What an access to a CSR does with the value read and the operand.
pub data CsrOp : Type 0 where
  csr_swap csr_set csr_clear : CsrOp

abbrev pub csr_new : CsrOp → ℕ → ℕ → ℕ
csr_new CsrOp.csr_swap old operand = operand
csr_new CsrOp.csr_set old operand = bit_or old operand
csr_new CsrOp.csr_clear old operand = bit_and old (bit_not operand)

-- A swap always writes, the others only if the field rs1 is not 0.
abbrev pub writes : CsrOp → ℕ → Bool
writes CsrOp.csr_swap source = true
writes _ source = not (source == 0)

-- The read value goes to a register, except to x0.
abbrev pub keep_csr : ℕ → ℕ → Rv64Core → Option Rv64Core
keep_csr dest old s = if dest == 0 then some s else set_gpr dest old s

-- What an instruction may leave of the hart alone; `none` is a failed assertion.
abbrev pub Effect : Type 0
Effect = Option (Rv64Core × Outcome)

abbrev pub done : Option Rv64Core → Effect
done none = none
done (some t) = some (t, Outcome.sequential)

abbrev pub csr_written : ℕ → ℕ → Rv64Core → CsrOutcome → Effect
csr_written dest old s (written t) = done (keep_csr dest old t)
csr_written dest old s refused = some (s, Outcome.illegal)
csr_written dest old s aborted = none

-- A CSR access after the permission check.
abbrev pub csr_permitted : CsrOp → ℕ → ℕ → ℕ → ℕ → Rv64Core → Option ℕ → Effect
csr_permitted kind index dest source operand s none = some (s, Outcome.illegal)
csr_permitted kind index dest source operand s (some old) = csr_written dest old s (
    if writes kind source
    then csr_write (to_csr_addr index) (csr_new kind old operand) s
    else written s)

-- The part that the six cases from CSRRW to CSRRCI share: the permission check, the read, the
-- write, the register.
unfoldable pub csr_access : CsrOp → ℕ → ℕ → ℕ → ℕ → Rv64Core → Effect
csr_access kind index dest source operand s =
    if csr_op_permission_check index (writes kind source) s
    then csr_permitted kind index dest source operand s (csr_read (to_csr_addr index) s)
    else some (s, Outcome.illegal)

-- inst.i_type.imm12 & ((1 << 12) - 1)
abbrev pub csr_field : Field
csr_field = field 20 12

-- rs1 and rd are 0.
abbrev pub no_registers : ℕ → Bool
no_registers inst = get_field Inst.rs1 inst == 0 && get_field Inst.rd inst == 0

module _ {S : Type 0} where
  abbrev pub effect_at : S → Effect → Option (Hart S × Outcome)
  effect_at mem none = none
  effect_at mem (some (s, o)) = some (record { core = s; mem = mem }, o)

  unfoldable pub access_csr : CsrOp → ℕ → ℕ → Action S Outcome
  access_csr kind inst operand h = effect_at h.mem (
      csr_access kind (get_field csr_field inst) (get_field Inst.rd inst) (get_field Inst.rs1 inst)
        operand h.core)

  -- CSRRW, CSRRS and CSRRC: the operand is a register.
  unfoldable pub csr_register : CsrOp → ℕ → Action S Outcome
  csr_register kind inst = do operand ← gpr (get_field Inst.rs1 inst); access_csr kind inst operand

  -- CSRRWI, CSRRSI and CSRRCI: the operand is the field rs1.
  unfoldable pub csr_immediate : CsrOp → ℕ → Action S Outcome
  csr_immediate kind inst = access_csr kind inst (get_field Inst.rs1 inst)

  unfoldable pub ecall_ebreak : ℕ → Action S Outcome
  ecall_ebreak inst =
      if not (no_registers inst)
      then pure Outcome.illegal
      else if get_field Inst.rs2 inst == 0
      then (do change ecall; pure Outcome.sequential)
      else if get_field Inst.rs2 inst == 1
      then (do change ebreak; pure Outcome.sequential)
      else pure Outcome.illegal

  -- With a register that is not x0 nothing is done.
  unfoldable pub sret_wfi : ℕ → Action S Outcome
  sret_wfi inst =
      if not (no_registers inst)
      then pure Outcome.sequential
      else if get_field Inst.rs2 inst == 2
      then or_illegal sret
      else if get_field Inst.rs2 inst == 5
      then pure Outcome.sequential
      else pure Outcome.illegal

  unfoldable pub privileged : ℕ → Action S Outcome
  privileged inst =
      let code = get_field Inst.funct7 inst in
      if code == funct7_ecall_ebreak
      then ecall_ebreak inst
      else if code == funct7_sret_wfi
      then sret_wfi inst
      else if code == funct7_mret
      then (if get_field Inst.rs2 inst == 2 && no_registers inst
          then or_illegal mret
          else pure Outcome.illegal)
      else if code == funct7_sfence_vma
      then (do
        vaddr ← gpr (get_field Inst.rs1 inst)
        asid ← gpr (get_field Inst.rs2 inst)
        or_illegal (sfence_vma vaddr (asid % 2 ^ 16)))
      else pure Outcome.illegal

  unfoldable pub system : ℕ → Action S Outcome
  system inst =
      let code = get_field Inst.funct3 inst in
      if code == funct3_priv
      then privileged inst
      else if code == funct3_csrrw
      then csr_register CsrOp.csr_swap inst
      else if code == funct3_csrrs
      then csr_register CsrOp.csr_set inst
      else if code == funct3_csrrc
      then csr_register CsrOp.csr_clear inst
      else if code == funct3_csrrwi
      then csr_immediate CsrOp.csr_swap inst
      else if code == funct3_csrrsi
      then csr_immediate CsrOp.csr_set inst
      else if code == funct3_csrrci
      then csr_immediate CsrOp.csr_clear inst
      else pure Outcome.illegal
