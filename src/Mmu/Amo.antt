-- ===== src/Mmu/Amo.antt =====
-- Atomic memory operations of RV64SV39_MMU
-- (M-EMU/modules/core/rv64/inline_impl/rv64_amo.hpp). An int64_t is its word; `none` is a failed
-- assertion.
use m_emu.Base.{
  ℕ, ◌+◌, ◌-◌, ◌%◌, ◌^◌, Bool, true, false, not, ◌&&◌, ◌||◌, Option, none, some, List, [], bit_and,
  bit_or, bit_xor, ltb, ◌==◌, if◌then◌else◌,
}
use m_emu.Words.{from_le, le_bytes}
use m_emu.Rv64.{ExecFeedback, Rv64Core}
use m_emu.Mmu.Walk.{SysBus}
use m_emu.Mmu.Access.{
  Feedback, Accessed, AccessAt, is_bare, check_read, check_write, translated, read_feedback,
  write_feedback,
}

pub data AmoFunct : Type 0 where
  amolr amosc amoswap amoadd amoxor amoand amoor amomin amomax amominu amomaxu : AmoFunct

-- a < b for int64_t
abbrev pub signed_ltb : ℕ → ℕ → Bool
signed_ltb a b = ltb ((a + 2 ^ 63) % 2 ^ 64) ((b + 2 ^ 63) % 2 ^ 64)

-- An int32_t as an int64_t.
abbrev pub extend_32 : ℕ → ℕ
extend_32 x = if ltb x (2 ^ 31) then x else x + 2 ^ 64 - 2 ^ 32

-- The switch of pa_amo_op, with std::max(a, b) as (a < b) ? b : a and std::min as (b < a) ? b : a.
unfoldable pub amo_value : AmoFunct → ℕ → ℕ → Option ℕ
amo_value AmoFunct.amoswap src res = some src
amo_value AmoFunct.amoadd src res = some ((src + res) % 2 ^ 64)
amo_value AmoFunct.amoand src res = some (bit_and src res)
amo_value AmoFunct.amoor src res = some (bit_or src res)
amo_value AmoFunct.amoxor src res = some (bit_xor src res)
amo_value AmoFunct.amomax src res = some (if signed_ltb src res then res else src)
amo_value AmoFunct.amomin src res = some (if signed_ltb res src then res else src)
amo_value AmoFunct.amomaxu src res = some (if ltb src res then res else src)
amo_value AmoFunct.amominu src res = some (if ltb res src then res else src)
amo_value _ src res = none

-- The feedback of an atomic operation, all of whose faults are those of a store.
abbrev pub store_feedback : Feedback → ExecFeedback
store_feedback Feedback.access_ok = ExecFeedback.exec_ok
store_feedback Feedback.access_fault = ExecFeedback.store_acc_fault
store_feedback Feedback.page_fault = ExecFeedback.store_pgfault
store_feedback Feedback.mis_align = ExecFeedback.store_misalign

-- What an atomic operation leaves: the hart, the memory, the feedback and what it hands back.
abbrev pub Executed : Type 0 → Type 0 → Type 0
Executed S A = Rv64Core × S × ExecFeedback × A

abbrev pub executed : {S A : Type 0} → Option (Accessed S A) → Option (Executed S A)
executed none = none
executed (some (s, mem, f, a)) = some (s, mem, store_feedback f, a)

module _ {S : Type 0} (bus : SysBus S) where
  abbrev pub amo_store : AmoFunct → ℕ → ℕ → ℕ → ℕ → Rv64Core → S → Option (Accessed S (Option ℕ))
  amo_store op src res pa size s mem = elim (amo_value op src res) [
    | none ↦ none
    | some to_write ↦ some (
        write_feedback bus Feedback.access_fault (some res) s
          (bus.write pa (le_bytes size to_write) mem))
  ]

  abbrev pub amo_loaded :
      AmoFunct → ℕ → ℕ → ℕ → Rv64Core → S × Option (List ℕ) → Option (Accessed S (Option ℕ))
  amo_loaded op src pa size s (mem, none) = some (s, mem, Feedback.access_fault, none)
  amo_loaded op src pa size s (mem, some bytes) =
      amo_store op src (if size == 4 then extend_32 (from_le bytes) else from_le bytes) pa size s
        mem

  -- The old value in `dst` is `none` where the code leaves it alone.
  unfoldable pub pa_amo_op : ℕ → AmoFunct → ℕ → AccessAt S (Option ℕ)
  pa_amo_op size op src pa s mem = amo_loaded op src pa size s (bus.read pa size mem)

  unfoldable pub vaddr_atomic_mem_operation :
      ℕ → ℕ → AmoFunct → ℕ → Rv64Core → S → Option (Executed S (Option ℕ))
  vaddr_atomic_mem_operation start_addr size op src s mem =
      if not (size == 4 || size == 8)
      then none
      else executed (
          if is_bare s
          then pa_amo_op size op src start_addr s mem
          else translated bus none check_write (pa_amo_op size op src) start_addr size s mem)

  -- lr_pa takes the virtual address.
  abbrev pub reserve : ℕ → ℕ → Rv64Core → Rv64Core
  reserve begin_addr size s = record s {
    sv39_mmu = record s.sv39_mmu {
      lr_pa = begin_addr;
      lr_size = size;
      lr_valid = true;
      lr_hart = s.rv_hart_id;
    };
  }

  abbrev pub reserved_read : ℕ → ℕ → AccessAt S (List ℕ)
  reserved_read begin_addr size paddr s mem =
      some (read_feedback bus (reserve begin_addr size s) (bus.read paddr size mem))

  unfoldable pub vaddr_load_reserved : ℕ → ℕ → Rv64Core → S → Option (Executed S (List ℕ))
  vaddr_load_reserved begin_addr size s mem = executed (
      if is_bare s
      then reserved_read begin_addr size begin_addr s mem
      else translated bus [] check_read (reserved_read begin_addr size) begin_addr size s mem)

  abbrev pub is_reserved : ℕ → ℕ → Rv64Core → Bool
  is_reserved begin_addr size s =
      s.sv39_mmu.lr_valid
      && s.sv39_mmu.lr_pa == begin_addr
      && s.sv39_mmu.lr_size == size
      && s.sv39_mmu.lr_hart == s.rv_hart_id

  abbrev pub drop_reservation : Bool → Rv64Core → Rv64Core
  drop_reservation b s = record s {
    sv39_mmu = record s.sv39_mmu { lr_valid = if b then false else s.sv39_mmu.lr_valid };
  }

  -- `sc_fail` is `none` where the code leaves it alone.
  abbrev pub conditional_write : Feedback → ℕ → ℕ → List ℕ → AccessAt S (Option Bool)
  conditional_write failure begin_addr size buffer paddr s mem =
      if not (is_reserved begin_addr size s)
      then some (
        drop_reservation (s.rv_hart_id == s.sv39_mmu.lr_hart) s,
        mem,
        Feedback.access_ok,
        some true,
      )
      else some (
          write_feedback bus failure (some false) (drop_reservation true s)
            (bus.write paddr buffer mem))

  unfoldable pub vaddr_store_conditional :
      ℕ → ℕ → List ℕ → Rv64Core → S → Option (Executed S (Option Bool))
  vaddr_store_conditional begin_addr size buffer s mem = executed (
      if is_bare s
      then conditional_write Feedback.access_fault begin_addr size buffer begin_addr s mem
      else translated bus none check_write
          (conditional_write Feedback.page_fault begin_addr size buffer) begin_addr size s mem)
