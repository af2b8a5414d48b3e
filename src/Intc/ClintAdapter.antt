-- ===== src/Intc/ClintAdapter.antt =====
-- CemuClintAdapter (modules/intc/rv_clint/include/ClintIntCtrl_CEmuAdapter.h).
use m_emu.Base.{ℕ, List, length, leb, if◌then◌else◌}
use m_emu.Device.{Access, done, fault, end_addr, map_access}
use m_emu.Clint.{RvCoreLocalInt, do_read, do_write, tick, m_s_irq, m_t_irq}
use m_emu.Intc.HartLines.{Lines, ◌>>=◌}

pub record CemuClintAdapter : Type 0 where
  pub int_ctrl : RvCoreLocalInt
  pub int_dev_map : List (ℕ × ℕ)
  pub addr_region_size : ℕ

unfoldable pub read_buffer : ℕ → ℕ → CemuClintAdapter → Access (List ℕ)
read_buffer begin_addr size a =
    if leb (end_addr begin_addr size) a.addr_region_size
    then do_read 2 begin_addr size a.int_ctrl
    else fault

unfoldable pub write_buffer : ℕ → List ℕ → CemuClintAdapter → Access CemuClintAdapter
write_buffer begin_addr buffer a =
    if leb (end_addr begin_addr (length buffer)) a.addr_region_size
    then map_access (λ c. record a { int_ctrl = c }) (do_write 2 begin_addr buffer a.int_ctrl)
    else fault

unfoldable pub update_int_state : CemuClintAdapter → Lines → Access (CemuClintAdapter × Lines)
update_int_state a lines =
    let c = tick a.int_ctrl in
    do
      msip0 ← m_s_irq 2 0 c
      mtip0 ← m_t_irq 2 0 c
      msip1 ← m_s_irq 2 1 c
      mtip1 ← m_t_irq 2 1 c
      done (
        record a { int_ctrl = c },
        record {
          core0 = record lines.core0 { msip = msip0; mtip = mtip0 };
          core1 = record lines.core1 { msip = msip1; mtip = mtip1 };
        },
      )
