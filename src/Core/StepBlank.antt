-- ===== src/Core/StepBlank.antt =====
-- The five assertions at the end of Step_CoreAPI, "seems useless, to be removed", never fail.
use m_emu.Base.{ℕ, ◌≡◌, inl, inr, refl, ◌∙◌, Bool, true, false, some, arith, if◌then◌else◌}
use m_emu.Words.{Field, get_field, set_field, get-set_apart, apart, all_apart}
use m_emu.Rv64.{PrivMode, Rv64Core}
use m_emu.Rv64.MStatus
use m_emu.Rv64.SStatus
use m_emu.Rv64.Reset.{set_gpr, write_program_counter}
use m_emu.Csr.{RvCsrAddr, to_csr_addr}
use m_emu.Csr.Effect.{csr_write-field_kept, status_fields}
use m_emu.Trap.{
  CsRegCause, raise_trap, trap_to_s, trap_to_m, enter_s_status, enter_m_status, mret, sret,
  mret_status, sret_status, update_csrs, pre_exec,
}
use m_emu.Core.Exec.{Outcome}
use m_emu.Core.Step.{retire}
use m_emu.Core.Maintains.{Stable}
use m_emu.Core.Invariants.{pre_exec-Came}

-- A field that no instruction and no trap writes.
pub record Untouched (g : Field) : Type 0 where
  pub csrs : (c : RvCsrAddr) → all_apart g (status_fields c) ≡ true
  pub sie : apart MStatus.sie g ≡ true
  pub mie : apart MStatus.mie g ≡ true
  pub spie : apart MStatus.spie g ≡ true
  pub mpie : apart MStatus.mpie g ≡ true
  pub spp : apart MStatus.spp g ≡ true
  pub mpp : apart MStatus.mpp g ≡ true
  pub mprv : apart MStatus.mprv g ≡ true

abbrev pub IsClear : Field → Rv64Core → Type 0
IsClear g s = get_field g s.status ≡ 0

module _ (g : Field) (u : Untouched g) where
  enter_s_kept : (p : PrivMode) (w : ℕ) → get_field g (enter_s_status p w) ≡ get_field g w
  unfolding enter_s_status
  enter_s_kept p w =
      get-set_apart SStatus.spp g _ _ u.spp
      ∙ get-set_apart SStatus.sie g _ _ u.sie
      ∙ get-set_apart SStatus.spie g _ _ u.spie

  enter_m_kept : (p : PrivMode) (w : ℕ) → get_field g (enter_m_status p w) ≡ get_field g w
  unfolding enter_m_status
  enter_m_kept p w =
      get-set_apart MStatus.mpp g _ _ u.mpp
      ∙ get-set_apart MStatus.mie g _ _ u.mie
      ∙ get-set_apart MStatus.mpie g _ _ u.mpie

  clear_mprv :
      (b : Bool) (w : ℕ) → get_field g (if b then set_field MStatus.mprv 0 w else w) ≡ get_field g w
  clear_mprv true w = get-set_apart MStatus.mprv g _ _ u.mprv
  clear_mprv false w = refl

  mret_kept : (w : ℕ) → get_field g (mret_status w) ≡ get_field g w
  unfolding mret_status
  mret_kept w =
      get-set_apart MStatus.mpp g _ _ u.mpp
      ∙ clear_mprv _ _
      ∙ get-set_apart MStatus.mpie g _ _ u.mpie
      ∙ get-set_apart MStatus.mie g _ _ u.mie

  sret_kept : (w : ℕ) → get_field g (sret_status w) ≡ get_field g w
  unfolding sret_status
  sret_kept w =
      get-set_apart SStatus.spp g _ _ u.spp
      ∙ clear_mprv _ _
      ∙ get-set_apart SStatus.spie g _ _ u.spie
      ∙ get-set_apart SStatus.sie g _ _ u.sie

  raise_trap-IsClear :
      (c : CsRegCause) (v : ℕ) (s t : Rv64Core)
      → raise_trap c v s ≡ some t
      → IsClear g s
      → IsClear g t
  unfolding raise_trap trap_to_s trap_to_m
  raise_trap-IsClear c v s t e h =
      ground (
        arith,
        enter_s_kept s.current_priv_mode s.status,
        enter_m_kept s.current_priv_mode s.status,
      )

  set_gpr-IsClear : (i v : ℕ) (s t : Rv64Core) → set_gpr i v s ≡ some t → IsClear g s → IsClear g t
  unfolding set_gpr
  set_gpr-IsClear i v s t e h = ground arith

  mret-IsClear : (s t : Rv64Core) → mret s ≡ some t → IsClear g s → IsClear g t
  unfolding mret
  mret-IsClear s t e h = ground (arith, mret_kept s.status)

  sret-IsClear : (s t : Rv64Core) → sret s ≡ some t → IsClear g s → IsClear g t
  unfolding sret
  sret-IsClear s t e h = ground (arith, sret_kept s.status)

  retire-IsClear :
      (o : Outcome) (inst : ℕ) (s : Rv64Core) → IsClear g s → IsClear g (retire o inst s)
  unfolding retire
  retire-IsClear o inst s h = ground arith

  pc-IsClear : (v : ℕ) (s : Rv64Core) → IsClear g s → IsClear g (write_program_counter v s)
  unfolding write_program_counter
  pc-IsClear v s h = h

  pub IsClear-Stable : Stable (IsClear g)
  IsClear-Stable = record {
    ignores_mmu = record { at = λ s m h. h };
    on_gpr = set_gpr-IsClear;
    on_pc = pc-IsClear;
    on_trap = raise_trap-IsClear;
    on_csr =
        λ i v s t p e h. csr_write-field_kept (to_csr_addr i) v g s e (u.csrs (to_csr_addr i)) ∙ h;
    on_mret = mret-IsClear;
    on_sret = sret-IsClear;
    on_retire = retire-IsClear;
  }

  update_csrs-status : (s : Rv64Core) → (update_csrs s).status ≡ s.status
  unfolding update_csrs
  update_csrs-status s = refl

  pub pre_exec-IsClear : (s t : Rv64Core) → pre_exec s ≡ some t → IsClear g s → IsClear g t
  pre_exec-IsClear s t e h =
      let updated : IsClear g (update_csrs s) = rw (update_csrs-status s) h in
      elim (pre_exec-Came s t e) [
        | inl q ↦ let same : t ≡ update_csrs s = cc in rw same updated
        | inr (c, q) ↦ raise_trap-IsClear c 0 _ t q updated
      ]
