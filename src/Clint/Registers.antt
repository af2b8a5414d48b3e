-- ===== src/Clint/Registers.antt =====
-- The register map: what a write of an aligned register does, and what is read back.
use m_emu.Base.{
  subst, get_or-set_self, ℕ, zero, suc, ◌+◌, ◌-◌, ◌*◌, ◌^◌, ◌≤◌, ◌<◌, ◌≡◌, sym, ap, ◌∙◌, List, [],
  ◌∷◌, length, set, length-set, ltb, arith,
}
use m_emu.Words.{
  le_bytes, from_le, pack, unpack, splice, AllBelow, IsBytes, length-le_bytes, length-pack,
  length-splice, pack-IsBytes, splice-IsBytes, le_bytes-IsBytes, unpack-pack, slice-splice,
  splice-pack, pack-unpack, le_bytes-from_le, from_le-lt,
}
use m_emu.Device.{done}
use m_emu.Clint.Defs.{RvCoreLocalInt, do_read, do_write, m_t_irq}
use m_emu.Clint.Valid.{IsValid}

set-AllBelow : (m : ℕ) (xs : List ℕ) (h v : ℕ) → AllBelow m xs → v < m → AllBelow m (set xs h v)
set-AllBelow m [] h v a l = tt
set-AllBelow m (x ∷ xs) zero v a l = (l, a.1)
set-AllBelow m (x ∷ xs) (suc h) v a l = (a.0, set-AllBelow m xs h v a.1 l)

-- A write of the eight bytes of the comparator of hart `h` sets that comparator to the value in
-- the buffer and changes nothing else.
pub do_write-mtimecmp :
    (nr_hart h : ℕ) (buffer : List ℕ) (c : RvCoreLocalInt)
    → IsValid nr_hart c
    → h < nr_hart
    → nr_hart < 4095
    → length buffer ≡ 8
    → IsBytes buffer
    → do_write nr_hart (0x4000 + 8 * h) buffer c
      ≡ done (record c { mtimecmp = set c.mtimecmp h (from_le buffer) })
unfolding do_write
do_write-mtimecmp n h buffer c v lt small len b =
    let off : 0x4000 + 8 * h - 0x4000 ≡ 8 * h = omega arith in
    let value : from_le buffer < 256 ^ 8 = rw len at (from_le-lt buffer b) in
    let written : unpack 8 n (splice (8 * h) buffer (pack 8 c.mtimecmp))
        ≡ set c.mtimecmp h (from_le buffer) =
      rw (splice-pack 8 h buffer c.mtimecmp len b (omega (arith, v.mtimecmp_count))) (
        subst
          (λ k.
            unpack 8 k (pack 8 (set c.mtimecmp h (from_le buffer)))
            ≡ set c.mtimecmp h (from_le buffer))
          (length-set c.mtimecmp h (from_le buffer) ∙ v.mtimecmp_count)
          (unpack-pack 8 (set c.mtimecmp h (from_le buffer))
            (set-AllBelow (256 ^ 8) c.mtimecmp h (from_le buffer) v.mtimecmp_lt value))) in
    ground (arith, off, written, length-pack 8 c.mtimecmp, v.mtimecmp_count, len)

-- What is written to the timer's registers is what the same access reads back.
pub do_read-do_write :
    (nr_hart start_addr : ℕ) (buffer : List ℕ) (c : RvCoreLocalInt) {c' : RvCoreLocalInt}
    → IsValid nr_hart c
    → IsBytes buffer
    → start_addr + length buffer < 2 ^ 64
    → 0x4000 ≤ start_addr
    → do_write nr_hart start_addr buffer c ≡ done c'
    → do_read nr_hart start_addr (length buffer) c' ≡ done buffer
unfolding do_write do_read
do_read-do_write n a buffer c v b lt high w =
    let m : List ℕ = splice (a - 0xbff8) buffer (le_bytes 8 c.mtime) in
    let k : List ℕ = splice (a - 0x4000) buffer (pack 8 c.mtimecmp) in
    let m_len : length m ≡ 8 =
      length-splice (a - 0xbff8) buffer (le_bytes 8 c.mtime) ∙ length-le_bytes 8 c.mtime in
    let k_len : length k ≡ 8 * n =
      length-splice (a - 0x4000) buffer (pack 8 c.mtimecmp)
      ∙ length-pack 8 c.mtimecmp
      ∙ ap (λ (t : ℕ). 8 * t) v.mtimecmp_count in
    let m_back : le_bytes 8 (from_le m) ≡ m = rw m_len at (
      le_bytes-from_le m
        (splice-IsBytes (a - 0xbff8) buffer (le_bytes 8 c.mtime) b (le_bytes-IsBytes 8 c.mtime))) in
    let k_back : pack 8 (unpack 8 n k) ≡ k =
      pack-unpack 8 n k
        (splice-IsBytes (a - 0x4000) buffer (pack 8 c.mtimecmp) b (pack-IsBytes 8 c.mtimecmp))
        k_len in
    ground (
      arith,
      m_back,
      k_back,
      m_len,
      k_len,
      length-le_bytes 8 c.mtime,
      length-pack 8 c.mtimecmp,
      slice-splice (a - 0xbff8) buffer (le_bytes 8 c.mtime),
      slice-splice (a - 0x4000) buffer (pack 8 c.mtimecmp),
    )

-- The timer line of hart `h` after a write of its comparator: it is up exactly when the time is
-- past the value written.
pub m_t_irq-do_write :
    (nr_hart h : ℕ) (buffer : List ℕ) (c : RvCoreLocalInt) {c' : RvCoreLocalInt}
    → IsValid nr_hart c
    → h < nr_hart
    → nr_hart < 4095
    → length buffer ≡ 8
    → IsBytes buffer
    → do_write nr_hart (0x4000 + 8 * h) buffer c ≡ done c'
    → m_t_irq nr_hart h c' ≡ done (ltb (from_le buffer) c.mtime)
unfolding m_t_irq
m_t_irq-do_write n h buffer c {c'} v lt small len b w =
    let e : done c' ≡ done (record c { mtimecmp = set c.mtimecmp h (from_le buffer) }) =
      sym w ∙ do_write-mtimecmp n h buffer c v lt small len b in
    ground (arith, get_or-set_self c.mtimecmp h (from_le buffer), v.mtimecmp_count)
