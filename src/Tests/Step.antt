-- ===== src/Tests/Step.antt =====
-- The theorems on the execution of instructions at concrete inputs.
use m_emu.Base.{
  if◌then◌else◌, ℕ, ◌+◌, ◌*◌, ◌%◌, ◌^◌, ◌<◌, ◌≡◌, ◌≢◌, refl, inl, true, false, some, List, ◌∷◌,
  arith, replicate,
}
use m_emu.Words.{le_bytes, get_field, set_field, test_bit, from_le, sign_extend, extend_128}
use m_emu.Rv64.{Rv64Core, PrivMode, bits_to_int_type}
use m_emu.Rv64.Reset.{gpr_at, GprIsValid, reset}
use m_emu.Csr.Legal.{IsLegal, reset-IsLegal}
use m_emu.Trap.{pre_exec, update_csrs, pending_lines, check_interrupts, no_interrupt}
use m_emu.Mmu.{SysBus, vaddr_inst_fetch, fetch_part}
use m_emu.Core.{AluOp, Hart, step, branch_taken, op_decode, alu_exec, is_compressed}
use m_emu.Core.Inst
use m_emu.Core.Branches.{Branched, step-branch}
use m_emu.Core.AluLaws.{alu_exec-div_rem, alu_exec-mul_mulh, IsSignedDivision}
use m_emu.Core.AluTotal.{alu_exec-returns}
use m_emu.Core.Invariants.{step-GprIsValid}
use m_emu.Core.StepLegal.{step-IsLegal}
use m_emu.Core.StepUnchecked.{IsBlank, step_unchecked, step-step_unchecked}
use m_emu.Core.StepIsolation.{SameConfiguration, step-SameConfiguration}
use m_emu.Core.Runs.{Fetches}
use m_emu.Core.RegisterOps.{Retired, step-register_op}
use m_emu.Core.Illegal.{TakesIllegal, is_known_opcode, step-unknown_opcode}
use m_emu.Tests.Samples.{raw_core}

-- A memory of the four bytes at the program counter.
abbrev pub cell_bus : SysBus (List ℕ)
cell_bus = record { read = λ addr size m. (m, some m); write = λ addr bytes m. (bytes, true) }

-- A hart in user mode with 5 in x1 and 3 in x3, with every CSR as it is after reset.
abbrev pub user_hart : Rv64Core
user_hart = record (reset raw_core) {
  gpr = 0 ∷ 5 ∷ 0 ∷ 3 ∷ replicate 28 0;
  status = 0;
  current_program_counter = 0x80000000;
  current_priv_mode = PrivMode.u_mode;
  next_priv_mode = PrivMode.u_mode;
}

-- Before the instruction `inst`.
abbrev before : ℕ → Hart (List ℕ)
before inst = record { core = user_hart; mem = le_bytes 4 inst }

-- After its fetch.
abbrev ready : ℕ → Hart (List ℕ)
ready inst = record { core = update_csrs user_hart; mem = le_bytes 4 inst }

checks : pre_exec user_hart ≡ some (update_csrs user_hart)
unfolding pre_exec check_interrupts update_csrs pending_lines get_field set_field bits_to_int_type
    test_bit no_interrupt reset
checks = refl

-- add x1, x1, x3
abbrev add_inst : ℕ
add_inst = 0x003080b3

add_inst-Fetches : Fetches cell_bus (before add_inst) (ready add_inst) add_inst
unfolding update_csrs vaddr_inst_fetch fetch_part get_field reset le_bytes from_le
add_inst-Fetches = record {
  checked_core = update_csrs user_hart;
  bytes = le_bytes 4 add_inst;
  check = checks;
  no_trap = refl;
  even = refl;
  fetch = refl;
  word = refl;
}

user_hart-GprIsValid : GprIsValid (update_csrs user_hart)
unfolding update_csrs
user_hart-GprIsValid = record { count = refl; x0 = refl }

user_hart-IsBlank : IsBlank (update_csrs user_hart)
unfolding update_csrs IsBlank get_field
user_hart-IsBlank = (refl, (refl, (refl, (refl, refl))))

add_opcode : get_field Inst.opcode add_inst ≡ 51
unfolding get_field
add_opcode = refl

add_decoded : op_decode add_inst ≡ some AluOp.alu_add
unfolding op_decode get_field
add_decoded = refl

-- A step of that instruction.
abbrev AddRuns : Type 0
AddRuns =
    (r : ℕ) × (t : Hart (List ℕ)) × (alu_exec
        (gpr_at (update_csrs user_hart) (get_field Inst.rs1 add_inst))
        (gpr_at (update_csrs user_hart) (get_field Inst.rs2 add_inst)) AluOp.alu_add false
      ≡ some r)
    × (step cell_bus (before add_inst) ≡ some (t, tt))
    × Retired (ready add_inst) t (get_field Inst.rd add_inst) r

add_runs : AddRuns
add_runs =
    step-register_op cell_bus (before add_inst) (ready add_inst) add_inst false add_inst-Fetches
      user_hart-IsBlank user_hart-GprIsValid add_opcode add_decoded

step-register_op_example : AddRuns
step-register_op_example =
    step-register_op cell_bus (before add_inst) (ready add_inst) add_inst false add_inst-Fetches
      user_hart-IsBlank user_hart-GprIsValid add_opcode add_decoded

pub start-GprIsValid : GprIsValid user_hart
start-GprIsValid = record { count = refl; x0 = refl }

step-GprIsValid_example : GprIsValid add_runs.1.core
step-GprIsValid_example = step-GprIsValid cell_bus (before add_inst) start-GprIsValid add_runs.3

pub start-IsLegal : IsLegal user_hart
start-IsLegal = search (reset-IsLegal raw_core)

step-IsLegal_example : IsLegal add_runs.1.core
step-IsLegal_example = step-IsLegal cell_bus (before add_inst) start-IsLegal add_runs.3

step-SameConfiguration_example : SameConfiguration user_hart add_runs.1.core
step-SameConfiguration_example =
    step-SameConfiguration cell_bus (before add_inst) (inl refl) add_runs.3

pub start-IsBlank : IsBlank user_hart
unfolding IsBlank get_field
start-IsBlank = (refl, (refl, (refl, (refl, refl))))

step-step_unchecked_example :
    step cell_bus (before add_inst) ≡ step_unchecked cell_bus (before add_inst)
step-step_unchecked_example = step-step_unchecked cell_bus (before add_inst) start-IsBlank

-- An instruction of the custom-0 opcode, which the core does not know.
abbrev custom_inst : ℕ
custom_inst = 0x0000000b

custom_inst-Fetches : Fetches cell_bus (before custom_inst) (ready custom_inst) custom_inst
unfolding update_csrs vaddr_inst_fetch fetch_part get_field reset le_bytes from_le
custom_inst-Fetches = record {
  checked_core = update_csrs user_hart;
  bytes = le_bytes 4 custom_inst;
  check = checks;
  no_trap = refl;
  even = refl;
  fetch = refl;
  word = refl;
}

custom_is_full : is_compressed custom_inst ≡ false
unfolding get_field
custom_is_full = refl

custom_is_unknown : is_known_opcode (get_field Inst.opcode custom_inst) ≡ false
unfolding get_field
custom_is_unknown = refl

step-unknown_opcode_example :
    (t : Hart (List ℕ)) × (step cell_bus (before custom_inst) ≡ some (t, tt))
    × (t.mem ≡ le_bytes 4 custom_inst)
    × TakesIllegal (update_csrs user_hart) t.core custom_inst
step-unknown_opcode_example =
    step-unknown_opcode cell_bus (before custom_inst) (ready custom_inst) custom_inst
      custom_inst-Fetches user_hart-IsBlank custom_is_full custom_is_unknown

-- -7 / 2
alu_exec-div_rem_example :
    (q : ℕ) × (r : ℕ) × (alu_exec 0xfffffffffffffff9 2 AluOp.alu_div false ≡ some q)
    × (alu_exec 0xfffffffffffffff9 2 AluOp.alu_rem false ≡ some r)
    × IsSignedDivision 0xfffffffffffffff9 2 q r
alu_exec-div_rem_example =
    alu_exec-div_rem 0xfffffffffffffff9 2 (omega arith) (omega arith) (omega arith)

alu_exec-mul_mulh_example :
    (low : ℕ) × (high : ℕ) × (alu_exec 0xfffffffffffffff9 2 AluOp.alu_mul false ≡ some low)
    × (alu_exec 0xfffffffffffffff9 2 AluOp.alu_mulh false ≡ some high)
    × (high * 2 ^ 64 + low ≡ extend_128 0xfffffffffffffff9 * extend_128 2 % 2 ^ 128)
alu_exec-mul_mulh_example = alu_exec-mul_mulh 0xfffffffffffffff9 2

sra_is_not_nop : AluOp.alu_sra ≢ AluOp.alu_nop
sra_is_not_nop e = cc

alu_exec-returns_example :
    (r : ℕ) × (alu_exec 0x80000000 4 AluOp.alu_sra true ≡ some r)
    × (r < 2 ^ 64)
    × (true ≡ true → sign_extend 32 r ≡ r)
alu_exec-returns_example =
    alu_exec-returns 0x80000000 4 AluOp.alu_sra true (omega arith) (omega arith) sra_is_not_nop

-- bne x1, x3, 8
abbrev bne_inst : ℕ
bne_inst = 0x00309463

bne_inst-Fetches : Fetches cell_bus (before bne_inst) (ready bne_inst) bne_inst
unfolding update_csrs vaddr_inst_fetch fetch_part get_field reset le_bytes from_le
bne_inst-Fetches = record {
  checked_core = update_csrs user_hart;
  bytes = le_bytes 4 bne_inst;
  check = checks;
  no_trap = refl;
  even = refl;
  fetch = refl;
  word = refl;
}

bne_opcode : get_field Inst.opcode bne_inst ≡ 99
unfolding get_field
bne_opcode = refl

bne_taken :
    branch_taken
      (get_field Inst.funct3 bne_inst)
      (gpr_at (update_csrs user_hart) (get_field Inst.rs1 bne_inst))
      (gpr_at (update_csrs user_hart) (get_field Inst.rs2 bne_inst))
    ≡ some true
unfolding branch_taken get_field update_csrs
bne_taken = refl

step-branch_example :
    (t : Hart (List ℕ)) × (step cell_bus (before bne_inst) ≡ some (t, tt))
    × Branched (ready bne_inst) t (
        if true
        then ((update_csrs user_hart).current_program_counter + Inst.b_offset bne_inst) % 2 ^ 64
        else ((update_csrs user_hart).current_program_counter + 4) % 2 ^ 64)
step-branch_example =
    step-branch cell_bus (before bne_inst) (ready bne_inst) bne_inst true bne_inst-Fetches
      user_hart-IsBlank bne_opcode bne_taken
