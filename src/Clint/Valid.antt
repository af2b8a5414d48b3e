-- ===== src/Clint/Valid.antt =====
-- The registers of the interruptor keep their sizes and widths, and no access leaves them.
use m_emu.Base.{
  ℕ, zero, suc, ◌+◌, ◌-◌, ◌^◌, ◌<◌, ◌≡◌, ◌≢◌, refl, List, [], ◌∷◌, map, length, length-map,
  length-replicate, replicate, arith,
}
use m_emu.Words.{
  le_bytes, from_le, pack, unpack, splice, AllBelow, IsBytes, length-le_bytes, length-pack,
  length-splice, length-unpack, unpack-AllBelow, pack-IsBytes, splice-IsBytes, le_bytes-IsBytes,
  from_le-lt, bit_and-one,
}
use m_emu.Device.{Access, done, failed, fault}
use m_emu.Clint.Defs.{RvCoreLocalInt, keep_low_bit, create, do_read, do_write, tick}

pub record IsValid (nr_hart : ℕ) (c : RvCoreLocalInt) : Type 0 where
  pub mtime_lt : c.mtime < 2 ^ 64
  pub mtimecmp_count : length c.mtimecmp ≡ nr_hart
  pub mtimecmp_lt : AllBelow (256 ^ 8) c.mtimecmp
  pub msip_count : length c.msip ≡ nr_hart
  pub msip_lt : AllBelow 2 c.msip

keep_low_bit-AllBelow : (xs : List ℕ) → AllBelow 2 (map keep_low_bit xs)
keep_low_bit-AllBelow [] = tt
keep_low_bit-AllBelow (x ∷ xs) = (omega (arith, bit_and-one x), keep_low_bit-AllBelow xs)

zeros-AllBelow : (n m : ℕ) → 0 < m → AllBelow m (replicate n 0)
zeros-AllBelow zero m h = tt
zeros-AllBelow (suc n) m h = (h, zeros-AllBelow n m h)

pub create-IsValid : (nr_hart : ℕ) → IsValid nr_hart (create nr_hart)
unfolding create
create-IsValid n = record {
  mtime_lt = omega arith;
  mtimecmp_count = length-replicate n 0;
  mtimecmp_lt = zeros-AllBelow n (256 ^ 8) (omega arith);
  msip_count = length-replicate n 0;
  msip_lt = zeros-AllBelow n 2 (omega arith);
}

pub tick-IsValid : (nr_hart : ℕ) (c : RvCoreLocalInt) → IsValid nr_hart c → IsValid nr_hart (tick c)
unfolding tick
tick-IsValid n c v = record {
  mtime_lt = omega arith;
  mtimecmp_count = v.mtimecmp_count;
  mtimecmp_lt = v.mtimecmp_lt;
  msip_count = v.msip_count;
  msip_lt = v.msip_lt;
}

-- The predicate `P` of what an access leaves.
abbrev pub Leaves : {A : Type 0} → (A → Type 0) → Access A → Type 0
Leaves P (done a) = P a
Leaves P failed = Unit {0}
Leaves P fault = ⊥

mtime-IsValid :
    (n off : ℕ) (buffer : List ℕ) (c : RvCoreLocalInt)
    → IsValid n c
    → IsBytes buffer
    → IsValid n (record c { mtime = from_le (splice off buffer (le_bytes 8 c.mtime)) })
mtime-IsValid n off buffer c v b =
    let bytes : IsBytes (splice off buffer (le_bytes 8 c.mtime)) =
      splice-IsBytes off buffer (le_bytes 8 c.mtime) b (le_bytes-IsBytes 8 c.mtime) in
    let lt = from_le-lt (splice off buffer (le_bytes 8 c.mtime)) bytes in
    record {
      mtime_lt =
          rw (length-splice off buffer (le_bytes 8 c.mtime), length-le_bytes 8 c.mtime) at lt;
      mtimecmp_count = v.mtimecmp_count;
      mtimecmp_lt = v.mtimecmp_lt;
      msip_count = v.msip_count;
      msip_lt = v.msip_lt;
    }

mtimecmp-IsValid :
    (n off : ℕ) (buffer : List ℕ) (c : RvCoreLocalInt)
    → IsValid n c
    → IsBytes buffer
    → IsValid n (record c { mtimecmp = unpack 8 n (splice off buffer (pack 8 c.mtimecmp)) })
mtimecmp-IsValid n off buffer c v b = record {
  mtime_lt = v.mtime_lt;
  mtimecmp_count = length-unpack 8 n (splice off buffer (pack 8 c.mtimecmp));
  mtimecmp_lt =
      unpack-AllBelow 8 n (splice off buffer (pack 8 c.mtimecmp))
        (splice-IsBytes off buffer (pack 8 c.mtimecmp) b (pack-IsBytes 8 c.mtimecmp))
        (rw
          (length-splice off buffer (pack 8 c.mtimecmp), length-pack 8 c.mtimecmp, v.mtimecmp_count)
          refl);
  msip_count = v.msip_count;
  msip_lt = v.msip_lt;
}

msip-IsValid :
    (n off : ℕ) (buffer : List ℕ) (c : RvCoreLocalInt)
    → IsValid n c
    → IsValid n
        (record c { msip = map keep_low_bit (unpack 4 n (splice off buffer (pack 4 c.msip))) })
msip-IsValid n off buffer c v = record {
  mtime_lt = v.mtime_lt;
  mtimecmp_count = v.mtimecmp_count;
  mtimecmp_lt = v.mtimecmp_lt;
  msip_count =
      rw
        (
          length-map (unpack 4 n (splice off buffer (pack 4 c.msip))) keep_low_bit,
          length-unpack 4 n (splice off buffer (pack 4 c.msip)),
        )
        refl;
  msip_lt = keep_low_bit-AllBelow (unpack 4 n (splice off buffer (pack 4 c.msip)));
}

-- Any write, at any address and of any length that does not wrap around 2 ^ 64, stays inside the
-- registers and keeps them valid.
pub do_write-IsValid :
    (nr_hart start_addr : ℕ) (buffer : List ℕ) (c : RvCoreLocalInt)
    → IsValid nr_hart c
    → IsBytes buffer
    → start_addr + length buffer < 2 ^ 64
    → Leaves (IsValid nr_hart) (do_write nr_hart start_addr buffer c)
unfolding do_write
do_write-IsValid n a buffer c v b lt = ground (
  arith,
  length-le_bytes 8 c.mtime,
  length-pack 8 c.mtimecmp,
  length-pack 4 c.msip,
  mtime-IsValid n (a - 0xbff8) buffer c v b,
  mtimecmp-IsValid n (a - 0x4000) buffer c v b,
  msip-IsValid n a buffer c v,
)

-- Nor does any read leave the registers.
pub do_read_safe :
    (nr_hart start_addr size : ℕ) (c : RvCoreLocalInt)
    → IsValid nr_hart c
    → start_addr + size < 2 ^ 64
    → do_read nr_hart start_addr size c ≢ fault
unfolding do_read
do_read_safe n a size c v lt =
    ground (arith, length-le_bytes 8 c.mtime, length-pack 8 c.mtimecmp, length-pack 4 c.msip)
