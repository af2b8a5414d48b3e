-- ===== src/Core/Atomic.antt =====
-- The atomic instructions of modules/core/rv64/src/rv64_exec.cpp. The functions of the MMU that
-- they call hand back `none` in place of a result that they leave unset.
use m_emu.Base.{ℕ, ◌/◌, ◌^◌, Bool, not, ◌&&◌, Option, none, some, List, ◌==◌, if◌then◌else◌}
use m_emu.Words.{get_field, sign_extend, from_le, le_bytes}
use m_emu.Rv64.{ExecFeedback}
use m_emu.Mmu.{
  SysBus, AmoFunct, vaddr_load_reserved, vaddr_store_conditional, vaddr_atomic_mem_operation,
}
use m_emu.Core.Alu.{bool_word}
use m_emu.Core.Inst
use m_emu.Core.Exec.{Action, Outcome, pure, checked, mmu, ◌>>=◌, ◌>>◌, gpr, set_register, raise}

-- (AMO_Funct_enum)(funct5); `none` is the default of the switch.
unfoldable pub to_amo : ℕ → Option AmoFunct
to_amo funct5 =
    if funct5 == 2
    then some AmoFunct.amolr
    else if funct5 == 3
    then some AmoFunct.amosc
    else if funct5 == 1
    then some AmoFunct.amoswap
    else if funct5 == 0
    then some AmoFunct.amoadd
    else if funct5 == 4
    then some AmoFunct.amoxor
    else if funct5 == 12
    then some AmoFunct.amoand
    else if funct5 == 8
    then some AmoFunct.amoor
    else if funct5 == 16
    then some AmoFunct.amomin
    else if funct5 == 20
    then some AmoFunct.amomax
    else if funct5 == 24
    then some AmoFunct.amominu
    else if funct5 == 28
    then some AmoFunct.amomaxu
    else none

abbrev pub loaded_word : ℕ → ExecFeedback × List ℕ → ExecFeedback × Option ℕ
loaded_word size (exc, bytes) =
    (exc, some (if size == 4 then sign_extend 32 (from_le bytes) else from_le bytes))

abbrev pub failed_word : ExecFeedback × Option Bool → ExecFeedback × Option ℕ
failed_word (exc, none) = (exc, none)
failed_word (exc, some sc_fail) = (exc, some (bool_word sc_fail))

module _ {S : Type 0} where
  -- A result goes to a register, a failure is a trap.
  unfoldable pub finish_amo : ℕ → ℕ → ExecFeedback × Option ℕ → Action S Outcome
  finish_amo dest addr (ExecFeedback.exec_ok, result) = do
    value ← checked result
    set_register dest value
    pure Outcome.sequential
  finish_amo dest addr (exc, result) = do raise exc addr; pure Outcome.sequential

module _ {S : Type 0} (bus : SysBus S) where
  unfoldable pub load_reserved : ℕ → ℕ → Action S Outcome
  load_reserved inst size = do
    addr ← gpr (get_field Inst.rs1 inst)
    read ← mmu (vaddr_load_reserved bus addr size)
    finish_amo (get_field Inst.rd inst) addr (loaded_word size read)

  unfoldable pub store_conditional : ℕ → ℕ → Action S Outcome
  store_conditional inst size = do
    addr ← gpr (get_field Inst.rs1 inst)
    value ← gpr (get_field Inst.rs2 inst)
    written ← mmu (vaddr_store_conditional bus addr size (le_bytes size value))
    finish_amo (get_field Inst.rd inst) addr (failed_word written)

  unfoldable pub memory_operation : ℕ → ℕ → AmoFunct → Action S Outcome
  memory_operation inst size funct = do
    addr ← gpr (get_field Inst.rs1 inst)
    src ← gpr (get_field Inst.rs2 inst)
    done ← mmu (vaddr_atomic_mem_operation bus addr size funct src)
    finish_amo (get_field Inst.rd inst) addr done

  abbrev pub amo_switch : ℕ → ℕ → Option AmoFunct → Action S Outcome
  amo_switch inst size none = pure Outcome.illegal
  amo_switch inst size (some AmoFunct.amolr) =
      if not (get_field Inst.rs2 inst == 0) then pure Outcome.illegal else load_reserved inst size
  amo_switch inst size (some AmoFunct.amosc) = store_conditional inst size
  amo_switch inst size (some funct) = memory_operation inst size funct

  unfoldable pub amo : ℕ → Action S Outcome
  amo inst =
      let code = get_field Inst.funct3 inst in
      if not (code == 2) && not (code == 3)
      then pure Outcome.illegal
      else amo_switch inst (2 ^ code) (to_amo (get_field Inst.funct7 inst / 2 ^ 2))
