-- ===== src/Intc/Timer.antt =====
-- From a write of a comparator to the lines of the harts.
use m_emu.Base.{
  ℕ, ◌+◌, ◌*◌, ◌%◌, ◌^◌, ◌≤◌, ◌<◌, ◌≡◌, ◌≢◌, refl, List, length, get_or, set, get_or-set,
  get_or-set_self, ltb, ◌==◌, if◌then◌else◌, arith,
}
use m_emu.Words.{IsBytes, from_le}
use m_emu.Rv64.{IntStatus}
use m_emu.Device.{done}
use m_emu.Clint.{tick, m_s_irq, m_t_irq}
use m_emu.Clint.Valid.{IsValid}
use m_emu.Clint.Registers.{do_write-mtimecmp}
use m_emu.Intc.HartLines.{Lines}
use m_emu.Intc.ClintAdapter.{CemuClintAdapter, write_buffer, update_int_state}

-- The lines of hart 0, or of hart 1.
abbrev pub lines_of : ℕ → Lines → IntStatus
lines_of h lines = if h == 0 then lines.core0 else lines.core1

-- The hart writes the comparator of hart `h`, then the platform updates the lines: both calls
-- succeed, time has advanced by one, the timer line of hart `h` is up exactly when the new time is
-- past the written value, the timer line of the other hart follows its own comparator, and the
-- external lines are as before.
pub update_int_state-write_buffer :
    (h other : ℕ) (buffer : List ℕ) (a : CemuClintAdapter) (lines : Lines)
    → IsValid 2 a.int_ctrl
    → h < 2
    → other < 2
    → other ≢ h
    → length buffer ≡ 8
    → IsBytes buffer
    → 0x4010 ≤ a.addr_region_size
    → (written updated : CemuClintAdapter) × (after : Lines) × (write_buffer
          (0x4000 + 8 * h)
          buffer
          a
        ≡ done written)
      × (update_int_state written lines ≡ done (updated, after))
      × (updated.int_ctrl.mtime ≡ (a.int_ctrl.mtime + 1) % 2 ^ 64)
      × ((lines_of h after).mtip ≡ ltb (from_le buffer) updated.int_ctrl.mtime)
      × ((lines_of other after).mtip
          ≡ ltb (get_or a.int_ctrl.mtimecmp other 0) updated.int_ctrl.mtime)
      × ((i : ℕ)
          → ((lines_of i after).meip ≡ (lines_of i lines).meip)
            × ((lines_of i after).seip ≡ (lines_of i lines).seip))
unfolding write_buffer update_int_state tick m_s_irq m_t_irq
update_int_state-write_buffer h other buffer a lines v lt lt_other differ len b region =
    let cmp : List ℕ = set a.int_ctrl.mtimecmp h (from_le buffer) in
    let own : get_or cmp h 0 ≡ from_le buffer =
      get_or-set_self a.int_ctrl.mtimecmp h (from_le buffer) (omega (arith, v.mtimecmp_count)) in
    let same : get_or cmp other 0 ≡ get_or a.int_ctrl.mtimecmp other 0 =
      get_or-set a.int_ctrl.mtimecmp h other (from_le buffer) differ in
    (
      record a { int_ctrl = record a.int_ctrl { mtimecmp = cmp } },
      _,
      _,
      ground (arith, do_write-mtimecmp 2 h buffer a.int_ctrl v lt (omega arith) len b),
      refl,
      refl,
      ground (arith, own),
      ground (arith, same),
      λ i. (ground arith, ground arith),
    )
