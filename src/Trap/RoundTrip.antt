-- ===== src/Trap/RoundTrip.antt =====
-- A handler that returns at once brings the hart back to where the trap found it.
use m_emu.Base.{List, [], ◌∷◌, ℕ, ◌≡◌, refl, ap, ◌∙◌, true, false, some, arith}
use m_emu.Words.{all_apart, Field, get_field, set_field, apart, get-set_self, get-set_apart, get-lt}
use m_emu.Rv64.{PrivMode, priv_num, to_priv, Rv64Core}
use m_emu.Rv64.MStatus
use m_emu.Rv64.SStatus
use m_emu.Trap.Raise.{CsRegCause, delegated, enter_m_status, trap_to_m, raise_trap}
use m_emu.Trap.Return.{mret, mret_status}

-- The change of mode that the next pre_exec makes.
abbrev pub entered : Rv64Core → Rv64Core
entered s = record s { current_priv_mode = s.next_priv_mode; need_trap = false }

-- The status word after entering machine mode.
pub enter_m-mpp : (p : PrivMode) (w : ℕ) → get_field MStatus.mpp (enter_m_status p w) ≡ priv_num p
unfolding enter_m_status
enter_m-mpp PrivMode.u_mode w = get-set_self MStatus.mpp 0 _
enter_m-mpp PrivMode.s_mode w = get-set_self MStatus.mpp 1 _
enter_m-mpp PrivMode.h_mode w = get-set_self MStatus.mpp 2 _
enter_m-mpp PrivMode.m_mode w = get-set_self MStatus.mpp 3 _

pub enter_m-mie : (p : PrivMode) (w : ℕ) → get_field MStatus.mie (enter_m_status p w) ≡ 0
unfolding enter_m_status
enter_m-mie p w = simp (get-set_apart, get-set_self)

pub enter_m-mpie :
    (p : PrivMode) (w : ℕ) → get_field MStatus.mpie (enter_m_status p w) ≡ get_field MStatus.mie w
unfolding enter_m_status
enter_m-mpie p w = simp (get-set_apart, get-set_self) (omega (arith, get-lt MStatus.mie w))

pub to_priv-priv_num : (p : PrivMode) → to_priv (priv_num p) ≡ p
unfolding to_priv
to_priv-priv_num PrivMode.u_mode = refl
to_priv-priv_num PrivMode.s_mode = refl
to_priv-priv_num PrivMode.h_mode = refl
to_priv-priv_num PrivMode.m_mode = refl

-- The fields that a trap writes.
abbrev pub m_entry_fields : List Field
m_entry_fields = MStatus.mie ∷ MStatus.mpie ∷ MStatus.mpp ∷ []

abbrev pub s_entry_fields : List Field
s_entry_fields = SStatus.sie ∷ SStatus.spie ∷ SStatus.spp ∷ []

-- The fields that a trap to machine mode and its return work on.
abbrev pub m_trap_fields : List Field
m_trap_fields = MStatus.mie ∷ MStatus.mpie ∷ MStatus.mpp ∷ MStatus.mprv ∷ []

abbrev pub s_trap_fields : List Field
s_trap_fields = SStatus.sie ∷ SStatus.spie ∷ SStatus.spp ∷ MStatus.mprv ∷ []

mret_status-mie : (w : ℕ) → get_field MStatus.mie (mret_status w) ≡ get_field MStatus.mpie w
unfolding mret_status
mret_status-mie w =
    let v : ℕ = set_field MStatus.mpie 1 (set_field MStatus.mie (get_field MStatus.mpie w) w) in
    let e : get_field MStatus.mie v ≡ get_field MStatus.mpie w =
      simp (get-set_apart, get-set_self) (omega (arith, get-lt MStatus.mpie w)) in
    ground (
      arith,
      e,
      get-set_apart MStatus.mpp MStatus.mie 0 v refl,
      get-set_apart MStatus.mpp MStatus.mie 0 (set_field MStatus.mprv 0 v) refl,
      get-set_apart MStatus.mprv MStatus.mie 0 v refl,
    )

mret_status-kept :
    (g : Field) (w : ℕ)
    → all_apart g m_trap_fields ≡ true
    → get_field g (mret_status w) ≡ get_field g w
unfolding mret_status
mret_status-kept g w h =
    let v : ℕ = set_field MStatus.mpie 1 (set_field MStatus.mie (get_field MStatus.mpie w) w) in
    let a : (apart MStatus.mie g ≡ true)
        × (apart MStatus.mpie g ≡ true)
        × (apart MStatus.mpp g ≡ true)
        × (apart MStatus.mprv g ≡ true) =
      ground arith in
    ground (
      arith,
      get-set_apart MStatus.mie g (get_field MStatus.mpie w) w a.0,
      get-set_apart MStatus.mpie g 1 (set_field MStatus.mie (get_field MStatus.mpie w) w) a.1,
      get-set_apart MStatus.mpp g 0 v a.2,
      get-set_apart MStatus.mpp g 0 (set_field MStatus.mprv 0 v) a.2,
      get-set_apart MStatus.mprv g 0 v a.3,
    )

pub enter_m-kept :
    (p : PrivMode) (g : Field) (w : ℕ)
    → all_apart g m_entry_fields ≡ true
    → get_field g (enter_m_status p w) ≡ get_field g w
unfolding enter_m_status
enter_m-kept p g w h =
    let a : (apart MStatus.mie g ≡ true)
        × (apart MStatus.mpie g ≡ true)
        × (apart MStatus.mpp g ≡ true) =
      ground arith in
    simp (get-set_apart, a.0, a.1, a.2)

-- A trap that machine mode takes, followed by mret: the instruction, the mode and the interrupt
-- enable bit are those before the trap, and so is every field of the status word but mpie, mpp
-- and mprv.
pub mret-raise_trap :
    (cause : CsRegCause) (tval : ℕ) (g : Field) (s : Rv64Core) {t : Rv64Core}
    → delegated cause s ≡ false
    → raise_trap cause tval s ≡ some t
    → all_apart g m_trap_fields ≡ true
    → (u : Rv64Core) × (mret (entered t) ≡ some u)
      × (u.next_priv_mode ≡ s.current_priv_mode)
      × (u.trap_program_counter ≡ s.current_program_counter)
      × (get_field MStatus.mie u.status ≡ get_field MStatus.mie s.status)
      × (get_field g u.status ≡ get_field g s.status)
unfolding raise_trap trap_to_m mret
mret-raise_trap cause tval g s {t} d r h =
    let w : ℕ = enter_m_status s.current_priv_mode s.status in
    let e : t ≡ trap_to_m cause tval s = ground arith in
    let mpp : get_field MStatus.mpp (set_field MStatus.mie (get_field MStatus.mpie w) w)
        ≡ priv_num s.current_priv_mode =
      get-set_apart MStatus.mie MStatus.mpp (get_field MStatus.mpie w) w refl
      ∙ enter_m-mpp s.current_priv_mode s.status in
    rw e (
      record (entered (trap_to_m cause tval s)) {
        status = mret_status w;
        next_priv_mode =
            to_priv (get_field MStatus.mpp (set_field MStatus.mie (get_field MStatus.mpie w) w));
        need_trap = true;
        trap_program_counter = s.current_program_counter;
      },
      refl,
      ap to_priv mpp ∙ to_priv-priv_num s.current_priv_mode,
      refl,
      mret_status-mie w ∙ enter_m-mpie s.current_priv_mode s.status,
      mret_status-kept g w h ∙ enter_m-kept s.current_priv_mode g s.status (ground arith),
    )
