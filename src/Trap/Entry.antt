-- ===== src/Trap/Entry.antt =====
-- The status word after a trap: what the mode that takes it finds in mstatus.
use m_emu.Base.{ℕ, ◌%◌, ◌≡◌, Bool, true, false}
use m_emu.Words.{Field, all_apart, get_field}
use m_emu.Rv64.{PrivMode, priv_num}
use m_emu.Rv64.MStatus
use m_emu.Rv64.SStatus
use m_emu.Trap.Raise.{enter_s_status, enter_m_status}
use m_emu.Trap.RoundTrip.{
  m_entry_fields, s_entry_fields, enter_m-mpp, enter_m-mie, enter_m-mpie, enter_m-kept,
}
use m_emu.Trap.SRoundTrip.{enter_s-spie, enter_s-spp_bit, enter_s-sie, enter_s-kept}

-- Machine mode disables its interrupts and remembers the bit and the mode from before, here of the
-- words `old` and `new` around a trap from the mode `p`.
pub record EntersM (p : PrivMode) (old new : ℕ) : Type 0 where
  pub mie : get_field MStatus.mie new ≡ 0
  pub mpie : get_field MStatus.mpie new ≡ get_field MStatus.mie old
  pub mpp : get_field MStatus.mpp new ≡ priv_num p
  pub others : (g : Field) → all_apart g m_entry_fields ≡ true → get_field g new ≡ get_field g old

-- So does supervisor mode, in one bit for the mode.
pub record EntersS (p : PrivMode) (old new : ℕ) : Type 0 where
  pub sie : get_field SStatus.sie new ≡ 0
  pub spie : get_field SStatus.spie new ≡ get_field SStatus.sie old
  pub spp : get_field SStatus.spp new ≡ priv_num p % 2
  pub others : (g : Field) → all_apart g s_entry_fields ≡ true → get_field g new ≡ get_field g old

abbrev pub Enters : Bool → PrivMode → ℕ → ℕ → Type 0
Enters true p old new = EntersS p old new
Enters false p old new = EntersM p old new

pub enter_m-EntersM : (p : PrivMode) (w : ℕ) → EntersM p w (enter_m_status p w)
enter_m-EntersM p w = record {
  mie = enter_m-mie p w;
  mpie = enter_m-mpie p w;
  mpp = enter_m-mpp p w;
  others = λ g. enter_m-kept p g w;
}

pub enter_s-EntersS : (p : PrivMode) (w : ℕ) → EntersS p w (enter_s_status p w)
enter_s-EntersS p w = record {
  sie = enter_s-sie p w;
  spie = enter_s-spie p w;
  spp = enter_s-spp_bit p w;
  others = λ g. enter_s-kept p g w;
}
