-- ===== src/Trap/Check.antt =====
-- preExec as a whole: it never stops the emulator, keeps the registers legal, and raises only an
-- interrupt that is pending and enabled.
use m_emu.Base.{
  subst, ltb, ℕ, ◌≡◌, refl, sym, ap, ◌∙◌, Bool, true, false, Option, some, arith, ◌==◌,
  if◌then◌else◌, not, ◌&&◌, bit_and, Bool-cases, inl, inr,
}
use m_emu.Words.{field, get_field, set_field, get-set_apart, test_bit, test_bit-and, bit_not, apart}
use m_emu.Rv64.{priv_num, IntType, int_num, bits_to_int_type, IntStatus, Rv64Core, m_mode_int_mask}
use m_emu.Rv64.MStatus
use m_emu.Csr.Legal.{IsWithin, IsLegal}
use m_emu.Trap.Total.{no_interrupt-zero}
use m_emu.Trap.Raise.{delegated, trap_to_s, trap_to_m, raise_trap}
use m_emu.Trap.Interrupt.{
  interrupt, pending_lines, update_csrs, interrupt_m, interrupt_lower, no_interrupt,
  check_interrupts, pre_exec,
}

-- Assigning a bit of the mask stays within the mask.
set_bit-IsWithin :
    (k v x mask : ℕ)
    → test_bit mask k ≡ true
    → IsWithin mask x
    → IsWithin mask (set_field (field k 1) v x)
unfolding IsWithin
set_bit-IsWithin k v x mask b h i set = elim (Bool-cases (i == k)) [
  | inl same ↦ let e : i ≡ k = ground arith in rw e b
  | inr other ↦
      let off : apart (field k 1) (field i 1) ≡ true = ground arith in
      let e : test_bit (set_field (field k 1) v x) i ≡ test_bit x i =
        unfold test_bit get_field in
        ap (λ (t : ℕ). t == 1) (get-set_apart (field k 1) (field i 1) v x off) in
      h i (sym e ∙ set)
]

pending_lines-IsWithin :
    (l : IntStatus) (w : ℕ)
    → IsWithin m_mode_int_mask w
    → IsWithin m_mode_int_mask (pending_lines l w)
unfolding pending_lines test_bit
pending_lines-IsWithin l w h = set_bit-IsWithin 9 _ _ m_mode_int_mask refl (
    set_bit-IsWithin 7 _ _ m_mode_int_mask refl (
      set_bit-IsWithin 3 _ _ m_mode_int_mask refl (set_bit-IsWithin 11 _ _ m_mode_int_mask refl h)))

pub update_csrs-IsLegal : (s : Rv64Core) → IsLegal s → IsLegal (update_csrs s)
unfolding update_csrs
update_csrs-IsLegal s h = search (pending_lines-IsWithin)

-- An interrupt is raised without a failed assertion.
pub raise_interrupt :
    (i : IntType) (s : Rv64Core)
    → no_interrupt i ≡ false
    → s.need_trap ≡ false
    → raise_trap (interrupt i) 0 s
      ≡ some (
          if delegated (interrupt i) s
          then trap_to_s (interrupt i) 0 s
          else trap_to_m (interrupt i) 0 s)
unfolding raise_trap no_interrupt
raise_interrupt IntType.int_no_int s h n = cc
raise_interrupt i s h n = ground arith

-- What the check may leave: the state as it was, or a trap for an interrupt that is pending and
-- enabled, taken by one of the two modes.
pub data Checked (s : Rv64Core) : Rv64Core → Type 0 where
  idle : Checked s s
  trap_s :
      (i : IntType)
      → test_bit s.csr_int_pending (int_num i) ≡ true
      → test_bit s.csr_int_enable (int_num i) ≡ true
      → delegated (interrupt i) s ≡ true
      → Checked s (trap_to_s (interrupt i) 0 s)
  trap_m :
      (i : IntType)
      → test_bit s.csr_int_pending (int_num i) ≡ true
      → test_bit s.csr_int_enable (int_num i) ≡ true
      → delegated (interrupt i) s ≡ false
      → Checked s (trap_to_m (interrupt i) 0 s)

-- The interrupt that the encoder names is set in the word.
bits_to_int_type-set :
    (b : ℕ)
    → no_interrupt (bits_to_int_type b) ≡ false
    → test_bit b (int_num (bits_to_int_type b)) ≡ true
unfolding no_interrupt bits_to_int_type
bits_to_int_type-set b h = ground arith

abbrev pub Outcome : Rv64Core → Option Rv64Core → Type 0
Outcome s r = (t : Rv64Core) × (r ≡ some t) × Checked s t

-- A word of which the pending and enabled bits are read.
abbrev pub IsSource : ℕ → Rv64Core → Type 0
IsSource b s =
    (i : ℕ)
    → test_bit b i ≡ true
    → (test_bit s.csr_int_pending i ≡ true) × (test_bit s.csr_int_enable i ≡ true)

pub raise-Checked :
    (b : ℕ) (s : Rv64Core)
    → s.need_trap ≡ false
    → IsSource b s
    → no_interrupt (bits_to_int_type b) ≡ false
    → Outcome s (raise_trap (interrupt (bits_to_int_type b)) 0 s)
raise-Checked b s n source h =
    let i : IntType = bits_to_int_type b in
    let (p, e) = source (int_num i) (bits_to_int_type-set b h) in
    elim (Bool-cases (delegated (interrupt i) s)) [
      | inl d ↦ (trap_to_s (interrupt i) 0 s, rw (raise_interrupt i s h n, d), trap_s i p e d)
      | inr d ↦ (trap_to_m (interrupt i) 0 s, rw (raise_interrupt i s h n, d), trap_m i p e d)
    ]

pub and-IsSource : (s : Rv64Core) → IsSource (bit_and s.csr_int_pending s.csr_int_enable) s
and-IsSource s i h = ground (arith, test_bit-and s.csr_int_pending s.csr_int_enable i)

pub within_and : (a b mask : ℕ) → IsWithin mask b → IsWithin mask (bit_and a b)
unfolding IsWithin
within_and a b mask h i e = ground (arith, test_bit-and a b i, h i)

within_and_left : (a b mask : ℕ) → IsWithin mask a → IsWithin mask (bit_and a b)
unfolding IsWithin
within_and_left a b mask h i e = ground (arith, test_bit-and a b i, h i)

interrupt_m-Outcome :
    (s : Rv64Core)
    → IsWithin m_mode_int_mask s.csr_int_enable
    → s.need_trap ≡ false
    → Outcome s (interrupt_m (bit_and s.csr_int_pending s.csr_int_enable) s)
unfolding interrupt_m
interrupt_m-Outcome s w n =
    let all = bit_and s.csr_int_pending s.csr_int_enable in
    let own = bit_and all (bit_not s.csr_m_int_delegation) in
    let source : IsSource own s = λ i h.
      and-IsSource s i (ground (arith, test_bit-and all (bit_not s.csr_m_int_delegation) i)) in
    let within : IsWithin m_mode_int_mask own =
      within_and_left all (bit_not s.csr_m_int_delegation) m_mode_int_mask
        (within_and s.csr_int_pending s.csr_int_enable m_mode_int_mask w) in
    elim (Bool-cases (not (get_field MStatus.mie s.status == 0) && not (own == 0))) [
      | inl take ↦ rw take (raise-Checked own s n source (some_set own within take))
      | inr pass ↦ rw pass (s, refl, idle)
    ]
  where
    some_set :
        (b : ℕ)
        → IsWithin m_mode_int_mask b
        → (not (get_field MStatus.mie s.status == 0) && not (b == 0)) ≡ true
        → no_interrupt (bits_to_int_type b) ≡ false
    some_set b within take = ground (arith, no_interrupt-zero b within)

interrupt_lower-Outcome :
    (s : Rv64Core)
    → no_interrupt (bits_to_int_type (bit_and s.csr_int_pending s.csr_int_enable)) ≡ false
    → s.need_trap ≡ false
    → Outcome s (interrupt_lower (bit_and s.csr_int_pending s.csr_int_enable) s)
unfolding interrupt_lower
interrupt_lower-Outcome s h n =
    let all = bit_and s.csr_int_pending s.csr_int_enable in
    pick (bit_and all s.csr_m_int_delegation == 0) (ltb (priv_num s.current_priv_mode) 1)
      (get_field MStatus.sie s.status == 0) (ltb (priv_num s.current_priv_mode) 3)
      (get_field MStatus.mie s.status == 0) (raise-Checked all s n (and-IsSource s) h)
  where
    pick :
        (none_delegated below_s s_off below_m m_off : Bool)
        → Outcome s (
            raise_trap
              (interrupt (bits_to_int_type (bit_and s.csr_int_pending s.csr_int_enable)))
              0
              s)
        → Outcome s (
            if not none_delegated
            then (if below_s
                then raise_trap
                    (interrupt (bits_to_int_type (bit_and s.csr_int_pending s.csr_int_enable)))
                    0
                    s
                else if not s_off
                then raise_trap
                    (interrupt (bits_to_int_type (bit_and s.csr_int_pending s.csr_int_enable)))
                    0
                    s
                else some s)
            else (if below_m
                then raise_trap
                    (interrupt (bits_to_int_type (bit_and s.csr_int_pending s.csr_int_enable)))
                    0
                    s
                else if not m_off
                then raise_trap
                    (interrupt (bits_to_int_type (bit_and s.csr_int_pending s.csr_int_enable)))
                    0
                    s
                else some s))
    pick false true _ _ _ o = o
    pick false false false _ _ o = o
    pick false false true _ _ o = (s, refl, idle)
    pick true _ _ true _ o = o
    pick true _ _ false false o = o
    pick true _ _ false true o = (s, refl, idle)

-- The check before an instruction always returns when the registers are legal, and it either
-- leaves the updated state or takes a trap for an interrupt that is both pending and enabled.
pub pre_exec-Checked :
    (s : Rv64Core) → IsLegal s → (t : Rv64Core) × (pre_exec s ≡ some t) × Checked (update_csrs s) t
unfolding pre_exec check_interrupts
pre_exec-Checked s h =
    let u : Rv64Core = update_csrs s in
    let legal : IsLegal u = update_csrs-IsLegal s h in
    let n : u.need_trap ≡ false = unfold update_csrs in refl in
    elim (Bool-cases
      (no_interrupt (bits_to_int_type (bit_and u.csr_int_pending u.csr_int_enable)))) [
        | inl nothing ↦ rw nothing (u, refl, idle)
        | inr some_int ↦ rw some_int (elim (Bool-cases (priv_num u.current_priv_mode == 3)) [
          | inl m ↦ rw m (interrupt_m-Outcome u legal.mie n)
          | inr lower ↦ rw lower (interrupt_lower-Outcome u some_int n)
        ])
      ]

Checked-IsLegal : {s t : Rv64Core} → IsLegal s → Checked s t → IsLegal t
unfolding trap_to_s trap_to_m
Checked-IsLegal h idle = h
Checked-IsLegal h (trap_s i p e d) = search h
Checked-IsLegal h (trap_m i p e d) = search h

-- The check keeps the registers legal.
pub pre_exec-IsLegal : (s : Rv64Core) {t : Rv64Core} → IsLegal s → pre_exec s ≡ some t → IsLegal t
pre_exec-IsLegal s {t} h e =
    let (u, eu, c) = pre_exec-Checked s h in
    let same : u ≡ t = cc in subst IsLegal same (Checked-IsLegal (update_csrs-IsLegal s h) c)
