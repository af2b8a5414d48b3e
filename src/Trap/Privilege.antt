-- ===== src/Trap/Privilege.antt =====
-- How the privilege mode moves: traps go up, the return instructions go down.
use m_emu.Base.{ℕ, ◌≤◌, ◌≡◌, ◌≢◌, refl, ap, true, false, ◌==◌, none, some, arith}
use m_emu.Words.{field, apart, get_field, set_field, test_bit, get-set_apart, get-lt}
use m_emu.Rv64.{PrivMode, priv_num, to_priv, Rv64Core}
use m_emu.Rv64.SStatus
use m_emu.Csr.Isolation.{is_s_status_bit, SameMachine}
use m_emu.Trap.Raise.{CsRegCause, delegated, enter_s_status, trap_to_s, trap_to_m, raise_trap}
use m_emu.Trap.Return.{mret, sret}

-- From any mode that the core implements a trap goes to a mode that is not lower.
pub raise_trap-priv :
    (cause : CsRegCause) (tval : ℕ) (s : Rv64Core) {t : Rv64Core}
    → s.current_priv_mode ≢ PrivMode.h_mode
    → raise_trap cause tval s ≡ some t
    → priv_num s.current_priv_mode ≤ priv_num t.next_priv_mode
unfolding raise_trap delegated trap_to_s trap_to_m
raise_trap-priv cause tval s {t} no_h r = go s.current_priv_mode refl
  where
    go :
        (p : PrivMode)
        → s.current_priv_mode ≡ p
        → priv_num s.current_priv_mode ≤ priv_num t.next_priv_mode
    go PrivMode.u_mode e = ground arith
    go PrivMode.s_mode e = ground arith
    go PrivMode.h_mode e = absurd (no_h e)
    go PrivMode.m_mode e = ground arith

-- Entering supervisor mode keeps the bits that are not its own.
enter_s_status-bit_kept :
    (p : PrivMode) (w i : ℕ)
    → is_s_status_bit i ≡ false
    → test_bit (enter_s_status p w) i ≡ test_bit w i
unfolding enter_s_status test_bit get_field
enter_s_status-bit_kept p w i other =
    let a : (apart SStatus.sie (field i 1) ≡ true)
        × (apart SStatus.spie (field i 1) ≡ true)
        × (apart SStatus.spp (field i 1) ≡ true) =
      ground arith in
    let kept : get_field (field i 1) (enter_s_status p w) ≡ get_field (field i 1) w =
      simp (get-set_apart, a.0, a.1, a.2) in
    ap (λ (b : ℕ). b == 1) kept

-- A delegated trap leaves the state of machine mode alone.
pub raise_trap-SameMachine :
    (cause : CsRegCause) (tval : ℕ) (s : Rv64Core) {t : Rv64Core}
    → delegated cause s ≡ true
    → raise_trap cause tval s ≡ some t
    → SameMachine s t
unfolding raise_trap trap_to_s enter_s_status
raise_trap-SameMachine cause tval s {t} d r =
    let e : t ≡ trap_to_s cause tval s = ground arith in
    rw e (record {
      mideleg = refl;
      medeleg = refl;
      mtvec = refl;
      mcounteren = refl;
      mscratch = refl;
      mepc = refl;
      mcause = refl;
      mtval = refl;
      mcycle = refl;
      misa = refl;
      minstret = refl;
      hart_id = refl;
      mie_field = simp get-set_apart;
      mpie_field = simp get-set_apart;
      mpp_field = simp get-set_apart;
      mprv_field = simp get-set_apart;
      tvm_field = simp get-set_apart;
      tsr_field = simp get-set_apart;
      tw_field = simp get-set_apart;
      status = enter_s_status-bit_kept s.current_priv_mode s.status;
      enable = λ i l h. refl;
      pending = λ i l h. refl;
    })

-- A return instruction never raises the privilege.
pub sret-priv :
    (s : Rv64Core) {t : Rv64Core}
    → sret s ≡ some t
    → priv_num t.next_priv_mode ≤ priv_num s.current_priv_mode
unfolding sret to_priv
sret-priv s r =
    ground
      (arith, get-lt SStatus.spp (set_field SStatus.sie (get_field SStatus.spie s.status) s.status))

-- User mode can execute neither return instruction.
pub return_user :
    (s : Rv64Core) → s.current_priv_mode ≡ PrivMode.u_mode → (mret s ≡ none) × (sret s ≡ none)
unfolding mret sret
return_user s h = ground arith
