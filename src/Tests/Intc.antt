-- ===== src/Tests/Intc.antt =====
-- The theorems on the driven interrupt controllers at concrete inputs.
use m_emu.Base.{ℕ, Bool, ◌==◌, ◌≡◌, ◌+◌, ◌*◌, ◌%◌, ◌^◌, refl, List, [], ◌∷◌, ltb, get_or, arith}
use m_emu.Words.{from_le}
use m_emu.Device.{done}
use m_emu.Clint
use m_emu.Clint.Valid.{create-IsValid}
use m_emu.Plic
use m_emu.Plic.{RvPliCtrl}
use m_emu.Intc.{Lines, register_dev, unregister_int}
use m_emu.Intc.ClintAdapter
use m_emu.Intc.ClintAdapter.{CemuClintAdapter}
use m_emu.Intc.PlicAdapter
use m_emu.Intc.PlicAdapter.{CemuPlicAdapter}
use m_emu.Intc.Timer.{lines_of, update_int_state-write_buffer}
use m_emu.Intc.Poll.{Polled}
use m_emu.Intc.Driven.{Driven, update_int_state-Driven}
use m_emu.Tests.Samples.{quiet}

abbrev quiet_lines : Lines
quiet_lines = record { core0 = quiet; core1 = quiet }

abbrev clint : CemuClintAdapter
clint = record { int_ctrl = m_emu.Clint.create 2; int_dev_map = []; addr_region_size = 0xc000 }

abbrev value : List ℕ
value = 0x34 ∷ 0x12 ∷ 0 ∷ 0 ∷ 0 ∷ 0 ∷ 0 ∷ 0 ∷ []

update_int_state-write_buffer_example :
    (written updated : CemuClintAdapter) × (after : Lines) × (m_emu.Intc.ClintAdapter.write_buffer
        (0x4000 + 8 * 1)
        value
        clint
      ≡ done written)
    × (m_emu.Intc.ClintAdapter.update_int_state written quiet_lines ≡ done (updated, after))
    × (updated.int_ctrl.mtime ≡ (clint.int_ctrl.mtime + 1) % 2 ^ 64)
    × ((lines_of 1 after).mtip ≡ ltb (from_le value) updated.int_ctrl.mtime)
    × ((lines_of 0 after).mtip ≡ ltb (get_or clint.int_ctrl.mtimecmp 0 0) updated.int_ctrl.mtime)
    × ((i : ℕ)
        → ((lines_of i after).meip ≡ (lines_of i quiet_lines).meip)
          × ((lines_of i after).seip ≡ (lines_of i quiet_lines).seip))
update_int_state-write_buffer_example =
    update_int_state-write_buffer 1 0 value clint quiet_lines (create-IsValid 2) (omega arith)
      (omega arith) (λ e. omega arith) refl (omega arith) (omega arith)

-- Device 7 raises interrupt 1, device 8 is silent.
abbrev plic : CemuPlicAdapter
plic = record {
  int_ctrl = m_emu.Plic.create 4 4;
  int_dev_map = (1, 7) ∷ (2, 8) ∷ [];
  addr_region_size = 0x4000000;
}

abbrev fires : ℕ → Bool
fires dev = dev == 7

update_int_state-Driven_example :
    (polled : RvPliCtrl) × (updated : CemuPlicAdapter) × (after : Lines)
    × (m_emu.Intc.PlicAdapter.update_int_state fires plic quiet_lines ≡ done (updated, after))
    × Polled fires plic.int_dev_map plic.int_ctrl polled
    × Driven polled quiet_lines after
unfolding Plic.create
update_int_state-Driven_example =
    update_int_state-Driven fires plic quiet_lines (omega arith, (omega arith, tt))
