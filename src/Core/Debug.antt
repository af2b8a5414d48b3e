-- ===== src/Core/Debug.antt =====
-- The access of the debugger to a hart: modules/core/rv64/src/rv64_debug.cpp,
-- DumpProgramCounter_CoreAPI of rv64_common.cpp and the watch points of include/interface/Core.h.
-- The names of registers, which are only shown, are left out.
use m_emu.Base.{
  ℕ, zero, suc, ◌%◌, ◌^◌, Bool, true, false, not, ◌||◌, Option, none, some, List, [], ◌∷◌, ◌++◌,
  length, set, get_elem?, ◌==◌, if◌then◌else◌,
}
use m_emu.Words.{get_field}
use m_emu.Rv64.{Rv64Core, priv_num}
use m_emu.Rv64.Satp
use m_emu.Rv64.Reset.{gpr_at, write_program_counter}
use m_emu.Device.{ReturnFeedback}
use m_emu.Mmu.{SysBus, Feedback, vaddr_read_buffer, vaddr_write_buffer}
use m_emu.Core.Exec.{Action, mmu, pure, ◌>>=◌}

-- RegisterItem_t
pub record RegisterItem : Type 0 where
  pub reg_id : ℕ
  pub size : ℕ
  pub val : ℕ

unfoldable pub dump_program_counter : Rv64Core → RegisterItem
dump_program_counter s = record { reg_id = 33; size = 8; val = s.current_program_counter }

abbrev pub gpr_item : Rv64Core → ℕ → RegisterItem
gpr_item s i = record { reg_id = i; size = 8; val = gpr_at s i }

-- `n` general registers from number `i` on.
unfoldable pub dump_gprs : ℕ → ℕ → Rv64Core → List RegisterItem
dump_gprs zero i s = []
dump_gprs (suc n) i s = gpr_item s i ∷ dump_gprs n (suc i) s

-- The items are put behind those of the vector.
unfoldable pub dump_register : Rv64Core → List RegisterItem → List RegisterItem
dump_register s regs =
    regs
    ++ (dump_gprs 32 0 s
        ++ (record { reg_id = 32; size = 8; val = s.current_program_counter } ∷ []))

abbrev pub item_val : Option RegisterItem → ℕ
item_val none = 0
item_val (some item) = item.val

-- regs.at(i).val, for an index inside the vector.
abbrev pub val_at : List RegisterItem → ℕ → ℕ
val_at regs i = item_val (get_elem? regs i)

-- `n` general registers from number `i` on.
unfoldable pub write_gprs : ℕ → ℕ → List RegisterItem → List ℕ → List ℕ
write_gprs zero i regs gpr = gpr
write_gprs (suc n) i regs gpr = write_gprs n (suc i) regs (set gpr i (val_at regs i))

unfoldable pub write_all_register : List RegisterItem → Rv64Core → Rv64Core × ReturnFeedback
write_all_register regs s = if not (length regs == 33) then (s, ReturnFeedback.invalid_param) else (
  write_program_counter (val_at regs 32) (record s { gpr = write_gprs 32 0 regs s.gpr }),
  ReturnFeedback.ok,
)

-- watchPointPCs, a set without an order, as the list of its members.
unfoldable pub has_watch_point : ℕ → List ℕ → Bool
has_watch_point pc [] = false
has_watch_point pc (w ∷ ws) = w == pc || has_watch_point pc ws

unfoldable pub insert_watch_point : ℕ → List ℕ → List ℕ
insert_watch_point val ws = if has_watch_point val ws then ws else val ∷ ws

unfoldable pub remove_watch_point : ℕ → List ℕ → List ℕ
remove_watch_point val [] = []
remove_watch_point val (w ∷ ws) =
    let others = remove_watch_point val ws in if w == val then others else w ∷ others

unfoldable pub is_current_pc_at_watch_point : Rv64Core → List ℕ → Bool
is_current_pc_at_watch_point s ws = has_watch_point (dump_program_counter s).val ws

-- The MMU is not asked.
unfoldable pub is_direct : Rv64Core → Bool
is_direct s = priv_num s.current_priv_mode == 3 || get_field Satp.mode s.satp == 0

module _ {S : Type 0} where
  -- A call of the bus, which does not see the core.
  abbrev pub on_bus : {A : Type 0} → (S → S × A) → Action S A
  on_bus f h = let r = f h.mem in some (record h { mem = r.0 }, r.1)

  -- One byte and what follows it; a byte that is refused ends the loop.
  abbrev pub read_further :
      Feedback × List ℕ → Action S (Option (List ℕ)) → Action S (Option (List ℕ))
  read_further (Feedback.access_ok, byte) rest = do
    bytes ← rest
    pure (elim bytes [ none ↦ none | some more ↦ some (byte ++ more) ])
  read_further (Feedback.access_fault, byte) rest = pure none
  read_further (Feedback.page_fault, byte) rest = pure none
  read_further (Feedback.mis_align, byte) rest = pure none

  abbrev pub write_further : Feedback × List ℕ → Action S Bool → Action S Bool
  write_further (Feedback.access_ok, none_read) rest = rest
  write_further (Feedback.access_fault, none_read) rest = pure false
  write_further (Feedback.page_fault, none_read) rest = pure false
  write_further (Feedback.mis_align, none_read) rest = pure false

module _ {S : Type 0} (bus : SysBus S) where
  unfoldable pub read_bytes : ℕ → ℕ → Action S (Option (List ℕ))
  read_bytes zero addr = pure (some [])
  read_bytes (suc n) addr = do
    byte ← mmu (vaddr_read_buffer bus (addr % 2 ^ 64) 1)
    read_further byte (read_bytes n (suc addr))

  -- MemRead_CoreDebugAPI; `none` is a feedback that is not MEMU_OK.
  unfoldable pub debug_mem_read : ℕ → ℕ → Action S (Option (List ℕ))
  debug_mem_read start_addr size h =
      if is_direct h.core then on_bus (bus.read start_addr size) h else read_bytes size start_addr h

  unfoldable pub write_bytes : List ℕ → ℕ → Action S Bool
  write_bytes [] addr = pure true
  write_bytes (byte ∷ buffer) addr = do
    written ← mmu (vaddr_write_buffer bus (addr % 2 ^ 64) 1 (byte ∷ []))
    write_further written (write_bytes buffer (suc addr))

  -- MemWrite_CoreDebugAPI; `false` is a feedback that is not MEMU_OK.
  unfoldable pub debug_mem_write : ℕ → List ℕ → Action S Bool
  debug_mem_write start_addr buffer h =
      if is_direct h.core
      then on_bus (bus.write start_addr buffer) h
      else write_bytes buffer start_addr h
