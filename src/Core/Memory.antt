-- ===== src/Core/Memory.antt =====
-- memRead and memWrite of modules/core/rv64/include/RV64Core.h, and the loads and stores of
-- modules/core/rv64/src/rv64_exec.cpp, compressed ones included, which share their parts.
use m_emu.Base.{ℕ, ◌+◌, ◌%◌, ◌^◌, not, Option, none, some, List, ◌==◌, if◌then◌else◌}
use m_emu.Words.{get_field, sign_extend, from_le, le_bytes}
use m_emu.Rv64.{ExecFeedback}
use m_emu.Mmu.{SysBus, Feedback, vaddr_read_buffer, vaddr_write_buffer}
use m_emu.Core.Inst
use m_emu.Core.Functs.{
  funct3_lb, funct3_lh, funct3_lw, funct3_ld, funct3_lbu, funct3_lhu, funct3_lwu, funct3_sb,
  funct3_sh, funct3_sw, funct3_sd,
}
use m_emu.Core.Exec.{Action, Outcome, pure, mmu, ◌>>=◌, ◌>>◌, gpr, set_register, raise}

module _ {S : Type 0} where
  abbrev pub loaded : ℕ → Feedback × List ℕ → Action S (Option (List ℕ))
  loaded start_addr (Feedback.access_ok, bytes) = pure (some bytes)
  loaded start_addr (Feedback.access_fault, bytes) = do
    raise ExecFeedback.load_acc_fault start_addr
    pure none
  loaded start_addr (Feedback.page_fault, bytes) = do
    raise ExecFeedback.load_pgfault start_addr
    pure none
  loaded start_addr (Feedback.mis_align, bytes) = do
    raise ExecFeedback.load_misalign start_addr
    pure none

  abbrev pub stored : ℕ → Feedback × List ℕ → Action S (Unit {0})
  stored start_addr (Feedback.access_ok, bytes) = pure tt
  stored start_addr (Feedback.access_fault, bytes) = raise ExecFeedback.store_acc_fault start_addr
  stored start_addr (Feedback.page_fault, bytes) = raise ExecFeedback.store_pgfault start_addr
  stored start_addr (Feedback.mis_align, bytes) = raise ExecFeedback.store_misalign start_addr

  -- A loaded value goes to a register if the load was done.
  abbrev pub keep_loaded : ℕ → (ℕ → ℕ) → Option (List ℕ) → Action S Outcome
  keep_loaded dest extend none = pure Outcome.sequential
  keep_loaded dest extend (some bytes) = do
    set_register dest (extend (from_le bytes))
    pure Outcome.sequential

module _ {S : Type 0} (bus : SysBus S) where
  -- `none` is the result `false`.
  unfoldable pub mem_read : ℕ → ℕ → Action S (Option (List ℕ))
  mem_read start_addr size =
      if not (start_addr % size == 0)
      then (do raise ExecFeedback.load_misalign start_addr; pure none)
      else do read ← mmu (vaddr_read_buffer bus start_addr size); loaded start_addr read

  -- The result of memWrite, which no caller reads, is left out.
  unfoldable pub mem_write : ℕ → List ℕ → ℕ → Action S (Unit {0})
  mem_write start_addr buffer size =
      if not (start_addr % size == 0) then raise ExecFeedback.store_misalign start_addr else do
        written ← mmu (vaddr_write_buffer bus start_addr size buffer)
        stored start_addr written

  unfoldable pub load_to : ℕ → ℕ → ℕ → (ℕ → ℕ) → Action S Outcome
  load_to dest mem_addr size extend = do read ← mem_read mem_addr size; keep_loaded dest extend read

  -- The low bytes of a register go to memory.
  unfoldable pub store_from : ℕ → ℕ → ℕ → Action S Outcome
  store_from src mem_addr size = do
    value ← gpr src
    mem_write mem_addr (le_bytes size value) size
    pure Outcome.sequential

  abbrev pub load_at : ℕ → ℕ → Action S Outcome
  load_at inst mem_addr =
      let code = get_field Inst.funct3 inst in
      let dest = get_field Inst.rd inst in
      if code == funct3_lb
      then load_to dest mem_addr 1 (sign_extend 8)
      else if code == funct3_lh
      then load_to dest mem_addr 2 (sign_extend 16)
      else if code == funct3_lw
      then load_to dest mem_addr 4 (sign_extend 32)
      else if code == funct3_ld
      then load_to dest mem_addr 8 (λ v. v)
      else if code == funct3_lbu
      then load_to dest mem_addr 1 (λ v. v)
      else if code == funct3_lhu
      then load_to dest mem_addr 2 (λ v. v)
      else if code == funct3_lwu
      then load_to dest mem_addr 4 (λ v. v)
      else pure Outcome.illegal

  unfoldable pub load : ℕ → Action S Outcome
  load inst = do
    base ← gpr (get_field Inst.rs1 inst)
    load_at inst ((base + Inst.i_immediate inst) % 2 ^ 64)

  abbrev pub store_at : ℕ → ℕ → Action S Outcome
  store_at inst mem_addr =
      let code = get_field Inst.funct3 inst in
      let src = get_field Inst.rs2 inst in
      if code == funct3_sb
      then store_from src mem_addr 1
      else if code == funct3_sh
      then store_from src mem_addr 2
      else if code == funct3_sw
      then store_from src mem_addr 4
      else if code == funct3_sd
      then store_from src mem_addr 8
      else pure Outcome.illegal

  unfoldable pub store : ℕ → Action S Outcome
  store inst = do
    base ← gpr (get_field Inst.rs1 inst)
    store_at inst ((base + Inst.s_immediate inst) % 2 ^ 64)
