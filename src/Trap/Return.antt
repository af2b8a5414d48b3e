-- ===== src/Trap/Return.antt =====
-- mret and sret of modules/core/rv64/inline_impl/rv64_privilege.hpp. `none` is the
-- result `false`, which changes nothing.
use m_emu.Base.{ℕ, true, not, Option, none, some, ltb, ◌==◌, if◌then◌else◌}
use m_emu.Words.{get_field, set_field}
use m_emu.Rv64.{priv_num, to_priv, Rv64Core}
use m_emu.Rv64.MStatus
use m_emu.Rv64.SStatus

unfoldable pub mret_status : ℕ → ℕ
mret_status w =
    let w1 = set_field MStatus.mie (get_field MStatus.mpie w) w in
    let w2 = set_field MStatus.mpie 1 w1 in
    let w3 = if not (get_field MStatus.mpp w2 == 3) then set_field MStatus.mprv 0 w2 else w2 in
    set_field MStatus.mpp 0 w3

unfoldable pub mret : Rv64Core → Option Rv64Core
mret s =
    if not (priv_num s.current_priv_mode == 3)
    then none
    else some (record s {
      status = mret_status s.status;
      next_priv_mode = to_priv (
          get_field MStatus.mpp (set_field MStatus.mie (get_field MStatus.mpie s.status) s.status));
      need_trap = true;
      trap_program_counter = s.csr_m_exception_pc;
    })

unfoldable pub sret_status : ℕ → ℕ
sret_status w =
    let w1 = set_field SStatus.sie (get_field SStatus.spie w) w in
    let w2 = set_field SStatus.spie 1 w1 in
    let w3 = if not (get_field SStatus.spp w2 == 3) then set_field MStatus.mprv 0 w2 else w2 in
    set_field SStatus.spp 0 w3

unfoldable pub sret : Rv64Core → Option Rv64Core
sret s =
    if ltb (priv_num s.current_priv_mode) 1
    then none
    else if not (get_field MStatus.tsr s.status == 0)
    then none
    else some (record s {
      status = sret_status s.status;
      next_priv_mode = to_priv (
          get_field SStatus.spp (set_field SStatus.sie (get_field SStatus.spie s.status) s.status));
      need_trap = true;
      trap_program_counter = s.csr_s_exception_pc;
    })
