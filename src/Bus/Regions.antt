-- ===== src/Bus/Regions.antt =====
-- The test of a conflict between the regions of two devices.
use m_emu.Base.{ℕ, ◌+◌, ◌^◌, ◌<◌, ◌≡◌, true, false, arith}
use m_emu.Bus.Defs.{MmioDev, is_addr_region_conflict, is_addr_in_range}

-- A region that ends below 2 ^ 64.
abbrev pub Fits : MmioDev → Type 0
Fits d = d.dev_base_addr + d.addr_region_size < 2 ^ 64

-- Two regions that fit, neither of which conflicts with the other when each is tested as the new
-- one, have no address in common: an address in the range of one is in the range of no other.
pub is_addr_region_conflict-in_range :
    (dev1 dev2 : MmioDev) (addr : ℕ)
    → Fits dev1
    → Fits dev2
    → is_addr_region_conflict dev1 dev2 ≡ false
    → is_addr_region_conflict dev2 dev1 ≡ false
    → is_addr_in_range dev1 addr ≡ true
    → is_addr_in_range dev2 addr ≡ false
unfolding is_addr_region_conflict is_addr_in_range
is_addr_region_conflict-in_range dev1 dev2 addr f1 f2 c1 c2 r = ground arith

-- The test is of the new device `dev1` only: a region that lies strictly inside the region of a
-- registered device is no conflict, although all its addresses are in the range of both.
pub is_addr_region_conflict-inside :
    (dev1 dev2 : MmioDev) (addr : ℕ)
    → Fits dev2
    → dev2.dev_base_addr < dev1.dev_base_addr
    → dev1.dev_base_addr + dev1.addr_region_size < dev2.dev_base_addr + dev2.addr_region_size
    → is_addr_in_range dev1 addr ≡ true
    → (is_addr_region_conflict dev1 dev2 ≡ false) × (is_addr_in_range dev2 addr ≡ true)
unfolding is_addr_region_conflict is_addr_in_range
is_addr_region_conflict-inside dev1 dev2 addr f lt gt r = (ground arith, ground arith)
