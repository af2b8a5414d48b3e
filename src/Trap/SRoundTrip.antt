-- ===== src/Trap/SRoundTrip.antt =====
-- The round trip of a trap that is delegated to supervisor mode.
use m_emu.Base.{◌⊎◌, ℕ, ◌%◌, ◌≡◌, refl, ap, ◌∙◌, true, some, arith}
use m_emu.Words.{Field, get_field, set_field, apart, all_apart, get-set_self, get-set_apart, get-lt}
use m_emu.Rv64.{PrivMode, priv_num, to_priv, Rv64Core}
use m_emu.Rv64.MStatus
use m_emu.Rv64.SStatus
use m_emu.Trap.Raise.{CsRegCause, delegated, enter_s_status, trap_to_s, raise_trap}
use m_emu.Trap.Return.{sret, sret_status}
use m_emu.Trap.RoundTrip.{entered, s_trap_fields, s_entry_fields, to_priv-priv_num}

-- The bit spp can say where the trap came from.
abbrev pub FitsSpp : PrivMode → Type 0
FitsSpp p = (p ≡ PrivMode.u_mode) ⊎ (p ≡ PrivMode.s_mode)

enter_s-spp :
    (p : PrivMode) (w : ℕ) → FitsSpp p → get_field SStatus.spp (enter_s_status p w) ≡ priv_num p
unfolding enter_s_status
enter_s-spp PrivMode.u_mode w h = get-set_self SStatus.spp 0 _
enter_s-spp PrivMode.s_mode w h = get-set_self SStatus.spp 1 _
enter_s-spp PrivMode.h_mode w h = ground arith
enter_s-spp PrivMode.m_mode w h = ground arith

-- The bit spp keeps of any mode.
pub enter_s-spp_bit :
    (p : PrivMode) (w : ℕ) → get_field SStatus.spp (enter_s_status p w) ≡ priv_num p % 2
unfolding enter_s_status
enter_s-spp_bit p w = get-set_self SStatus.spp (priv_num p) _

pub enter_s-sie : (p : PrivMode) (w : ℕ) → get_field SStatus.sie (enter_s_status p w) ≡ 0
unfolding enter_s_status
enter_s-sie p w = simp (get-set_apart, get-set_self)

pub enter_s-spie :
    (p : PrivMode) (w : ℕ) → get_field SStatus.spie (enter_s_status p w) ≡ get_field SStatus.sie w
unfolding enter_s_status
enter_s-spie p w = simp (get-set_apart, get-set_self) (omega (arith, get-lt SStatus.sie w))

pub enter_s-kept :
    (p : PrivMode) (g : Field) (w : ℕ)
    → all_apart g s_entry_fields ≡ true
    → get_field g (enter_s_status p w) ≡ get_field g w
unfolding enter_s_status
enter_s-kept p g w h =
    let a : (apart SStatus.sie g ≡ true)
        × (apart SStatus.spie g ≡ true)
        × (apart SStatus.spp g ≡ true) =
      ground arith in
    simp (get-set_apart, a.0, a.1, a.2)

sret_status-sie : (w : ℕ) → get_field SStatus.sie (sret_status w) ≡ get_field SStatus.spie w
unfolding sret_status
sret_status-sie w =
    let v : ℕ = set_field SStatus.spie 1 (set_field SStatus.sie (get_field SStatus.spie w) w) in
    let e : get_field SStatus.sie v ≡ get_field SStatus.spie w =
      simp (get-set_apart, get-set_self) (omega (arith, get-lt SStatus.spie w)) in
    ground (
      arith,
      e,
      get-set_apart SStatus.spp SStatus.sie 0 v refl,
      get-set_apart SStatus.spp SStatus.sie 0 (set_field MStatus.mprv 0 v) refl,
      get-set_apart MStatus.mprv SStatus.sie 0 v refl,
    )

sret_status-kept :
    (g : Field) (w : ℕ)
    → all_apart g s_trap_fields ≡ true
    → get_field g (sret_status w) ≡ get_field g w
unfolding sret_status
sret_status-kept g w h =
    let v : ℕ = set_field SStatus.spie 1 (set_field SStatus.sie (get_field SStatus.spie w) w) in
    let a : (apart SStatus.sie g ≡ true)
        × (apart SStatus.spie g ≡ true)
        × (apart SStatus.spp g ≡ true)
        × (apart MStatus.mprv g ≡ true) =
      ground arith in
    ground (
      arith,
      get-set_apart SStatus.sie g (get_field SStatus.spie w) w a.0,
      get-set_apart SStatus.spie g 1 (set_field SStatus.sie (get_field SStatus.spie w) w) a.1,
      get-set_apart SStatus.spp g 0 v a.2,
      get-set_apart SStatus.spp g 0 (set_field MStatus.mprv 0 v) a.2,
      get-set_apart MStatus.mprv g 0 v a.3,
    )

-- A trap that supervisor mode takes from user or supervisor mode, followed by sret with
-- mstatus.tsr clear: the instruction, the mode and the interrupt enable bit are those before the
-- trap, and so is every field of the status word but spie, spp and mprv.
pub sret-raise_trap :
    (cause : CsRegCause) (tval : ℕ) (g : Field) (s : Rv64Core) {t : Rv64Core}
    → delegated cause s ≡ true
    → FitsSpp s.current_priv_mode
    → get_field MStatus.tsr s.status ≡ 0
    → raise_trap cause tval s ≡ some t
    → all_apart g s_trap_fields ≡ true
    → (u : Rv64Core) × (sret (entered t) ≡ some u)
      × (u.next_priv_mode ≡ s.current_priv_mode)
      × (u.trap_program_counter ≡ s.current_program_counter)
      × (get_field SStatus.sie u.status ≡ get_field SStatus.sie s.status)
      × (get_field g u.status ≡ get_field g s.status)
unfolding raise_trap trap_to_s sret
sret-raise_trap cause tval g s {t} d p tsr r h =
    let w : ℕ = enter_s_status s.current_priv_mode s.status in
    let e : t ≡ trap_to_s cause tval s = ground arith in
    let spp : get_field SStatus.spp (set_field SStatus.sie (get_field SStatus.spie w) w)
        ≡ priv_num s.current_priv_mode =
      get-set_apart SStatus.sie SStatus.spp (get_field SStatus.spie w) w refl
      ∙ enter_s-spp s.current_priv_mode s.status p in
    let clear : get_field MStatus.tsr w ≡ 0 =
      enter_s-kept s.current_priv_mode MStatus.tsr s.status refl ∙ tsr in
    rw e (
      record (entered (trap_to_s cause tval s)) {
        status = sret_status w;
        next_priv_mode =
            to_priv (get_field SStatus.spp (set_field SStatus.sie (get_field SStatus.spie w) w));
        need_trap = true;
        trap_program_counter = s.current_program_counter;
      },
      ground arith,
      ap to_priv spp ∙ to_priv-priv_num s.current_priv_mode,
      refl,
      sret_status-sie w ∙ enter_s-spie s.current_priv_mode s.status,
      sret_status-kept g w h ∙ enter_s-kept s.current_priv_mode g s.status (ground arith),
    )
