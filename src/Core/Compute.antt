-- ===== src/Core/Compute.antt =====
-- OPIMM, OPIMM32, OP and OP32 of modules/core/rv64/src/rv64_exec.cpp.
use m_emu.Base.{
  ℕ, ◌/◌, ◌%◌, ◌^◌, Bool, true, false, not, ◌&&◌, ◌||◌, Option, none, some, leb, ltb, ◌==◌,
  if◌then◌else◌,
}
use m_emu.Words.{get_field}
use m_emu.Core.Alu.{AluOp, alu_exec}
use m_emu.Core.Inst
use m_emu.Core.Functs.{
  funct3_add_sub, funct3_sll, funct3_slt, funct3_sltu, funct3_xor, funct3_srl_sra, funct3_or,
  funct3_and, funct3_mul, funct3_mulh, funct3_mulhsu, funct3_mulhu, funct3_div, funct3_divu,
  funct3_rem, funct3_remu, funct7_normal, funct7_sub_sra, funct7_mul, funct6_normal, funct6_sra,
}
use m_emu.Core.Exec.{Action, Outcome, pure, checked, ◌>>=◌, ◌>>◌, gpr, set_register}

-- imm >= 64 for an int64_t
abbrev pub at_least_64 : ℕ → Bool
at_least_64 imm = leb 64 imm && ltb imm (2 ^ 63)

-- The operation and its second operand; `none` is an illegal instruction.
unfoldable pub opimm_decode : ℕ → Option (AluOp × ℕ)
opimm_decode inst =
    let code = get_field Inst.funct3 inst in
    let imm = Inst.i_immediate inst in
    let fun6 = get_field Inst.funct7 inst / 2 in
    if code == funct3_add_sub
    then some (AluOp.alu_add, imm)
    else if code == funct3_slt
    then some (AluOp.alu_slt, imm)
    else if code == funct3_sltu
    then some (AluOp.alu_sltu, imm)
    else if code == funct3_xor
    then some (AluOp.alu_xor, imm)
    else if code == funct3_or
    then some (AluOp.alu_or, imm)
    else if code == funct3_and
    then some (AluOp.alu_and, imm)
    else if code == funct3_sll
    then (if at_least_64 imm then none else some (AluOp.alu_sll, imm))
    else if not (fun6 == funct6_normal) && not (fun6 == funct6_sra)
    then none
    else some (if fun6 == funct6_sra then AluOp.alu_sra else AluOp.alu_srl, imm % 2 ^ 6)

unfoldable pub opimm32_decode : ℕ → Option (AluOp × ℕ)
opimm32_decode inst =
    let code = get_field Inst.funct3 inst in
    let imm = Inst.i_immediate inst in
    let fun7 = get_field Inst.funct7 inst in
    if code == funct3_add_sub
    then some (AluOp.alu_add, imm)
    else if code == funct3_sll
    then (if at_least_64 imm || not (fun7 == funct7_normal)
        then none
        else some (AluOp.alu_sll, imm))
    else if code == funct3_srl_sra
    then (if not (fun7 == funct7_normal) && not (fun7 == funct7_sub_sra)
        then none
        else some (if fun7 == funct7_sub_sra then AluOp.alu_sra else AluOp.alu_srl, imm % 2 ^ 6))
    else none

-- The eight operations of FUNCT7_NORMAL.
abbrev pub op_normal : ℕ → AluOp
op_normal code =
    if code == funct3_add_sub
    then AluOp.alu_add
    else if code == funct3_sll
    then AluOp.alu_sll
    else if code == funct3_slt
    then AluOp.alu_slt
    else if code == funct3_sltu
    then AluOp.alu_sltu
    else if code == funct3_xor
    then AluOp.alu_xor
    else if code == funct3_srl_sra
    then AluOp.alu_srl
    else if code == funct3_or
    then AluOp.alu_or
    else AluOp.alu_and

-- The two of FUNCT7_SUB_SRA.
abbrev pub op_sub_sra : ℕ → Option AluOp
op_sub_sra code =
    if code == funct3_add_sub
    then some AluOp.alu_sub
    else if code == funct3_srl_sra
    then some AluOp.alu_sra
    else none

-- The eight of FUNCT7_MUL.
abbrev pub op_mul : ℕ → AluOp
op_mul code =
    if code == funct3_mul
    then AluOp.alu_mul
    else if code == funct3_mulh
    then AluOp.alu_mulh
    else if code == funct3_mulhsu
    then AluOp.alu_mulhsu
    else if code == funct3_mulhu
    then AluOp.alu_mulhu
    else if code == funct3_div
    then AluOp.alu_div
    else if code == funct3_divu
    then AluOp.alu_divu
    else if code == funct3_rem
    then AluOp.alu_rem
    else AluOp.alu_remu

unfoldable pub op_decode : ℕ → Option AluOp
op_decode inst =
    let code = get_field Inst.funct3 inst in
    let fun7 = get_field Inst.funct7 inst in
    if fun7 == funct7_normal
    then some (op_normal code)
    else if fun7 == funct7_sub_sra
    then op_sub_sra code
    else if fun7 == funct7_mul
    then some (op_mul code)
    else none

abbrev pub op32_normal : ℕ → Option AluOp
op32_normal code =
    if code == funct3_add_sub
    then some AluOp.alu_add
    else if code == funct3_sll
    then some AluOp.alu_sll
    else if code == funct3_srl_sra
    then some AluOp.alu_srl
    else none

abbrev pub op32_mul : ℕ → Option AluOp
op32_mul code =
    if code == funct3_mul
    then some AluOp.alu_mul
    else if code == funct3_div
    then some AluOp.alu_div
    else if code == funct3_divu
    then some AluOp.alu_divu
    else if code == funct3_rem
    then some AluOp.alu_rem
    else if code == funct3_remu
    then some AluOp.alu_remu
    else none

unfoldable pub op32_decode : ℕ → Option AluOp
op32_decode inst =
    let code = get_field Inst.funct3 inst in
    let fun7 = get_field Inst.funct7 inst in
    if fun7 == funct7_normal
    then op32_normal code
    else if fun7 == funct7_sub_sra
    then op_sub_sra code
    else if fun7 == funct7_mul
    then op32_mul code
    else none

module _ {S : Type 0} where
  -- setGPR(dest, alu_exec(a, b, op, op_32))
  unfoldable pub compute : ℕ → ℕ → ℕ → AluOp → Bool → Action S (Unit {0})
  compute dest a b op op_32 = do result ← checked (alu_exec a b op op_32); set_register dest result

  abbrev pub with_immediate : ℕ → Bool → Option (AluOp × ℕ) → Action S Outcome
  with_immediate inst op_32 none = pure Outcome.illegal
  with_immediate inst op_32 (some (op, imm)) = do
    a ← gpr (get_field Inst.rs1 inst)
    compute (get_field Inst.rd inst) a imm op op_32
    pure Outcome.sequential

  abbrev pub with_registers : ℕ → Bool → Option AluOp → Action S Outcome
  with_registers inst op_32 none = pure Outcome.illegal
  with_registers inst op_32 (some op) = do
    a ← gpr (get_field Inst.rs1 inst)
    b ← gpr (get_field Inst.rs2 inst)
    compute (get_field Inst.rd inst) a b op op_32
    pure Outcome.sequential

  unfoldable pub opimm : ℕ → Action S Outcome
  opimm inst = with_immediate inst false (opimm_decode inst)

  unfoldable pub opimm32 : ℕ → Action S Outcome
  opimm32 inst = with_immediate inst true (opimm32_decode inst)

  unfoldable pub op : ℕ → Action S Outcome
  op inst = with_registers inst false (op_decode inst)

  unfoldable pub op32 : ℕ → Action S Outcome
  op32 inst = with_registers inst true (op32_decode inst)
