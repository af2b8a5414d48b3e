-- ===== src/Intc/PlicAdapter.antt =====
-- CemuPlicAdapter (modules/intc/rv_plic/include/PLICIntCtrl_CEmuAdapter.h). GetIrqStatus of the
-- devices is a parameter, a function from the device.
use m_emu.Base.{ℕ, Bool, List, [], ◌∷◌, leb, if◌then◌else◌}
use m_emu.Device.{Access, done, fault, end_addr, map_access}
use m_emu.Plic.{RvPliCtrl, do_read, do_write, update_ext, get_int}
use m_emu.Intc.HartLines.{Lines, ◌>>=◌}

pub record CemuPlicAdapter : Type 0 where
  pub int_ctrl : RvPliCtrl
  pub int_dev_map : List (ℕ × ℕ)
  pub addr_region_size : ℕ

unfoldable pub read_buffer : ℕ → ℕ → CemuPlicAdapter → Access (CemuPlicAdapter × ℕ)
read_buffer begin_addr size a =
    if leb (end_addr begin_addr size) a.addr_region_size
    then map_access (λ r. (record a { int_ctrl = r.0 }, r.1))
        (do_read 4 4 begin_addr size a.int_ctrl)
    else fault

unfoldable pub write_buffer : ℕ → ℕ → ℕ → CemuPlicAdapter → Access CemuPlicAdapter
write_buffer begin_addr size value a =
    if leb (end_addr begin_addr size) a.addr_region_size
    then map_access (λ p. record a { int_ctrl = p }) (do_write 4 4 begin_addr size value a.int_ctrl)
    else fault

-- The loop over the map.
unfoldable pub poll : (ℕ → Bool) → List (ℕ × ℕ) → RvPliCtrl → Access RvPliCtrl
poll get_irq_status [] p = done p
poll get_irq_status ((int_id, dev) ∷ rest) p = do
  q ← update_ext int_id (get_irq_status dev) p
  poll get_irq_status rest q

-- The lines of the two harts, from the four contexts.
unfoldable pub drive : RvPliCtrl → Lines → Access (RvPliCtrl × Lines)
drive p lines = do
  meip0 ← get_int 4 4 0 p
  seip0 ← get_int 4 4 1 meip0.0
  meip1 ← get_int 4 4 2 seip0.0
  seip1 ← get_int 4 4 3 meip1.0
  done (
    seip1.0,
    record {
      core0 = record lines.core0 { meip = meip0.1; seip = seip0.1 };
      core1 = record lines.core1 { meip = meip1.1; seip = seip1.1 };
    },
  )

unfoldable pub update_int_state :
    (ℕ → Bool) → CemuPlicAdapter → Lines → Access (CemuPlicAdapter × Lines)
update_int_state get_irq_status a lines = do
  p ← poll get_irq_status a.int_dev_map a.int_ctrl
  driven ← drive p lines
  done (record a { int_ctrl = driven.0 }, driven.1)
