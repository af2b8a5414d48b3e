-- ===== src/Clint/Defs.antt =====
-- RVCoreLocalInt (modules/intc/rv_clint/include/RVCoreLocalInt.hpp) for `nr_hart` harts.
-- Addresses are offsets into the device. set_cmp is left out: it assigns a number to an array, and
-- no code instantiates it.
use m_emu.Base.{
  ℕ, ◌+◌, ◌-◌, ◌*◌, ◌%◌, ◌^◌, Bool, ◌&&◌, List, map, bit_and, length, get_or, replicate, ltb, leb,
  ◌==◌, not, if◌then◌else◌,
}
use m_emu.Words.{le_bytes, from_le, pack, unpack}
use m_emu.Device.{Access, done, failed, fault, end_addr, copy_out, copy_in, map_access}

pub record RvCoreLocalInt : Type 0 where
  pub mtime : ℕ
  pub mtimecmp : List ℕ
  pub msip : List ℕ

-- msip[i] &= 1
abbrev pub keep_low_bit : ℕ → ℕ
keep_low_bit x = bit_and x 1

module _ (nr_hart : ℕ) where
  unfoldable pub create : RvCoreLocalInt
  create = record { mtime = 0; mtimecmp = replicate nr_hart 0; msip = replicate nr_hart 0 }

  abbrev pub in_mtime : ℕ → ℕ → Bool
  in_mtime start_addr size = leb 0xbff8 start_addr && leb (end_addr start_addr size) 0xc000

  abbrev pub in_mtimecmp : ℕ → ℕ → Bool
  in_mtimecmp start_addr size =
      leb 0x4000 start_addr && leb (end_addr start_addr size) (0x4000 + 8 * nr_hart)

  abbrev pub in_msip : ℕ → ℕ → Bool
  in_msip start_addr size = leb (end_addr start_addr size) (4 * nr_hart)

  unfoldable pub do_read : ℕ → ℕ → RvCoreLocalInt → Access (List ℕ)
  do_read start_addr size c =
      if leb 0x4000 start_addr
      then (if in_mtime start_addr size
          then copy_out (start_addr - 0xbff8) size (le_bytes 8 c.mtime)
          else if in_mtimecmp start_addr size
          then copy_out (start_addr - 0x4000) size (pack 8 c.mtimecmp)
          else failed)
      else if in_msip start_addr size
      then copy_out start_addr size (pack 4 c.msip)
      else failed

  unfoldable pub do_write : ℕ → List ℕ → RvCoreLocalInt → Access RvCoreLocalInt
  do_write start_addr buffer c =
      let size = length buffer in
      if leb 0x4000 start_addr
      then (if in_mtime start_addr size
          then map_access (λ bs. record c { mtime = from_le bs })
              (copy_in (start_addr - 0xbff8) buffer (le_bytes 8 c.mtime))
          else if in_mtimecmp start_addr size
          then map_access (λ bs. record c { mtimecmp = unpack 8 nr_hart bs })
              (copy_in (start_addr - 0x4000) buffer (pack 8 c.mtimecmp))
          else failed)
      else if in_msip start_addr size
      then map_access (λ bs. record c { msip = map keep_low_bit (unpack 4 nr_hart bs) })
          (copy_in start_addr buffer (pack 4 c.msip))
      else failed

  -- `fault` is the assertion on the hart's number.
  unfoldable pub m_s_irq : ℕ → RvCoreLocalInt → Access Bool
  m_s_irq hart_id c =
      if leb nr_hart hart_id then fault else done (not (bit_and (get_or c.msip hart_id 0) 1 == 0))

  unfoldable pub m_t_irq : ℕ → RvCoreLocalInt → Access Bool
  m_t_irq hart_id c =
      if leb nr_hart hart_id then fault else done (ltb (get_or c.mtimecmp hart_id 0) c.mtime)

unfoldable pub tick : RvCoreLocalInt → RvCoreLocalInt
tick c = record c { mtime = (c.mtime + 1) % 2 ^ 64 }
