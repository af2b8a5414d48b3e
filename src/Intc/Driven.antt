-- ===== src/Intc/Driven.antt =====
-- From the devices through the controller to the lines of the harts.
use m_emu.Base.{ℕ, Bool, not, ◌==◌, ◌≡◌, refl, ap, ◌∙◌, length}
use m_emu.Device.{done}
use m_emu.Plic.{RvPliCtrl, eligible, scan, get_int}
use m_emu.Plic.Scan.{Arbitrated, scan-Found}
use m_emu.Intc.HartLines.{Lines, ◌>>=◌}
use m_emu.Intc.PlicAdapter.{CemuPlicAdapter, drive, update_int_state}
use m_emu.Intc.Poll.{AllFit, Polled, poll-Polled}

-- The line says whether the arbitration for the context finds a source to be served.
abbrev pub IsServed : RvPliCtrl → ℕ → Bool → Type 0
IsServed p context_id line = (id : ℕ) × Arbitrated p context_id 4 id × (line ≡ not (id == 0))

scan-IsServed :
    (p : RvPliCtrl) (context_id : ℕ) → IsServed p context_id (not ((scan p context_id 4).1 == 0))
scan-IsServed p context_id = ((scan p context_id 4).1, (scan-Found p context_id 4).1, refl)

-- The four lines that the controller drives, and the two that it leaves.
pub record Driven (p : RvPliCtrl) (before after : Lines) : Type 0 where
  pub core0_meip : IsServed p 0 after.core0.meip
  pub core0_seip : IsServed p 1 after.core0.seip
  pub core1_meip : IsServed p 2 after.core1.meip
  pub core1_seip : IsServed p 3 after.core1.seip
  pub core0_mtip : after.core0.mtip ≡ before.core0.mtip
  pub core0_msip : after.core0.msip ≡ before.core0.msip
  pub core1_mtip : after.core1.mtip ≡ before.core1.mtip
  pub core1_msip : after.core1.msip ≡ before.core1.msip

drive-Driven :
    (p : RvPliCtrl) (lines : Lines)
    → (q : RvPliCtrl) × (after : Lines) × (drive p lines ≡ done (q, after)) × Driven p lines after
unfolding drive get_int scan eligible
drive-Driven p lines = (
  _,
  _,
  refl,
  record {
    core0_meip = scan-IsServed p 0;
    core0_seip = scan-IsServed p 1;
    core1_meip = scan-IsServed p 2;
    core1_seip = scan-IsServed p 3;
    core0_mtip = refl;
    core0_msip = refl;
    core1_mtip = refl;
    core1_msip = refl;
  },
)

-- UpdateIntState_IntCtrl_API of the external controller succeeds when every number of the map fits
-- the pending bits. It polls the devices: the pending bit of a source is set if a device of the
-- map raises that source, and is as before if not. Each of the four external lines of the harts
-- then says whether the arbitration for its context finds a source to be served in the polled
-- state; the timer and software lines, which the other controller drives, are as before.
pub update_int_state-Driven :
    (get_irq_status : ℕ → Bool) (a : CemuPlicAdapter) (lines : Lines)
    → AllFit (length a.int_ctrl.pending) a.int_dev_map
    → (polled : RvPliCtrl) × (updated : CemuPlicAdapter) × (after : Lines) × (update_int_state
          get_irq_status a lines
        ≡ done (updated, after))
      × Polled get_irq_status a.int_dev_map a.int_ctrl polled
      × Driven polled lines after
unfolding update_int_state
update_int_state-Driven irq a lines fit =
    let first = poll-Polled irq a.int_dev_map a.int_ctrl fit in
    let later = drive-Driven first.0 lines in
    (
      first.0,
      record a { int_ctrl = later.0 },
      later.1,
      ap (λ r. r >>= λ p. drive p lines >>= λ d. done (record a { int_ctrl = d.0 }, d.1)) first.1
          ∙ ap (λ r. r >>= λ d. done (record a { int_ctrl = d.0 }, d.1)) later.2,
      first.2,
      later.3,
    )
