-- ===== src/Bus/Defs.antt =====
-- MEmu_MMIOBus (M-EMU/modules/bus/default/include/MMIOBus_Impl.hpp) and the addresses of
-- MMIODev_I (M-EMU/include/interface/MMIO_Dev.h). A pointer to a device is a number, the index of
-- its object in `objects`, so that every holder of a pointer sees a change of the base address.
use m_emu.Base.{
  find_key, ℕ, ◌+◌, ◌-◌, ◌%◌, ◌^◌, Bool, true, false, ◌&&◌, ◌||◌, Option, none, some, List, [], ◌∷◌,
  ltb, leb, ◌==◌, if◌then◌else◌,
}

pub record MmioDev : Type 0 where
  pub dev_base_addr : ℕ
  pub addr_region_size : ℕ

-- The hash map `dev_find_cache` is a list of its insertions, the newest first.
pub record MmioBus : Type 0 where
  pub objects : List MmioDev
  pub mmio_devs : List ℕ
  pub dev_find_cache : List (ℕ × ℕ)

-- The object behind a pointer.
abbrev pub no_dev : MmioDev
no_dev = record { dev_base_addr = 0; addr_region_size = 0 }

unfoldable pub nth_dev : List MmioDev → ℕ → MmioDev
nth_dev [] i = no_dev
nth_dev (d ∷ ds) i = if i == 0 then d else nth_dev ds (i - 1)

unfoldable pub set_base : List MmioDev → ℕ → ℕ → List MmioDev
set_base [] i base = []
set_base (d ∷ ds) i base =
    let rest = set_base ds (i - 1) base in
    if i == 0 then record d { dev_base_addr = base } ∷ ds else d ∷ rest

-- base + size on 64 bits
abbrev pub region_end : MmioDev → ℕ
region_end d = (d.dev_base_addr + d.addr_region_size) % 2 ^ 64

unfoldable pub is_addr_region_conflict : MmioDev → MmioDev → Bool
is_addr_region_conflict dev1 dev2 =
    leb dev1.dev_base_addr dev2.dev_base_addr && leb dev2.dev_base_addr (region_end dev1)
    || leb dev1.dev_base_addr (region_end dev2) && leb (region_end dev2) (region_end dev1)

unfoldable pub is_addr_in_range : MmioDev → ℕ → Bool
is_addr_in_range d addr = leb d.dev_base_addr addr && leb addr (region_end d)

abbrev pub dev_at : MmioBus → ℕ → MmioDev
dev_at b h = nth_dev b.objects h

-- The loop over mmioDevs.
unfoldable pub first_in_range : List MmioDev → ℕ → List ℕ → Option ℕ
first_in_range objects addr [] = none
first_in_range objects addr (h ∷ hs) =
    let later = first_in_range objects addr hs in
    if is_addr_in_range (nth_dev objects h) addr then some h else later

abbrev pub remember : ℕ → MmioBus → Option ℕ → MmioBus × Option ℕ
remember addr b none = (b, none)
remember addr b (some h) = (record b { dev_find_cache = (addr, h) ∷ b.dev_find_cache }, some h)

abbrev pub use_cached : ℕ → MmioBus → Option ℕ → MmioBus × Option ℕ
use_cached addr b none = remember addr b (first_in_range b.objects addr b.mmio_devs)
use_cached addr b (some h) = (b, some h)

-- `none` is MEMU_NOT_FOUND.
unfoldable pub find_dev_according_to_addr : ℕ → MmioBus → MmioBus × Option ℕ
find_dev_according_to_addr addr b = use_cached addr b (find_key addr b.dev_find_cache)

-- std::sort by base address: the devices registered before are sorted, the new one finds its
-- place. Registered devices have different base addresses, so the order is unique.
unfoldable pub sorted_insert : List MmioDev → ℕ → List ℕ → List ℕ
sorted_insert objects h [] = h ∷ []
sorted_insert objects h (x ∷ xs) =
    let rest = sorted_insert objects h xs in
    if ltb (nth_dev objects h).dev_base_addr (nth_dev objects x).dev_base_addr
    then h ∷ x ∷ xs
    else x ∷ rest

unfoldable pub any_conflict : List MmioDev → ℕ → List ℕ → Bool
any_conflict objects h [] = false
any_conflict objects h (x ∷ xs) =
    is_addr_region_conflict (nth_dev objects h) (nth_dev objects x) || any_conflict objects h xs

-- `none` is the failed assertion of a conflict.
unfoldable pub register_dev : ℕ → ℕ → MmioBus → Option MmioBus
register_dev h base_addr b =
    let objects = set_base b.objects h base_addr in
    if any_conflict objects h b.mmio_devs
    then none
    else some (record b { objects = objects; mmio_devs = sorted_insert objects h b.mmio_devs })

-- What the bus asks of the devices, which share a state `S`: a buffer read from, or written at,
-- an offset of a device. The bus does not look at the result code of the device.
pub record Devices (S : Type 0) : Type 0 where
  pub read_buffer : ℕ → ℕ → ℕ → S → S × List ℕ
  pub write_buffer : ℕ → ℕ → List ℕ → S → S

-- begin_addr - base on 64 bits
abbrev pub dev_offset : MmioBus → ℕ → ℕ → ℕ
dev_offset b h begin_addr = (begin_addr + 2 ^ 64 - (dev_at b h).dev_base_addr) % 2 ^ 64

module _ {S : Type 0} (devices : Devices S) where
  -- `none` is MEMU_NOT_ACCESSIBLE.
  unfoldable pub read_found : ℕ → ℕ → S → MmioBus × Option ℕ → MmioBus × S × Option (List ℕ)
  read_found begin_addr size s (b, none) = (b, s, none)
  read_found begin_addr size s (b, some h) =
      let (t, bytes) = devices.read_buffer h (dev_offset b h begin_addr) size s in
      (b, t, some bytes)

  unfoldable pub paddr_read_buffer : ℕ → ℕ → MmioBus → S → MmioBus × S × Option (List ℕ)
  paddr_read_buffer begin_addr size b s =
      read_found begin_addr size s (find_dev_according_to_addr begin_addr b)

  unfoldable pub write_found : ℕ → List ℕ → S → MmioBus × Option ℕ → MmioBus × S × Bool
  write_found begin_addr buffer s (b, none) = (b, s, false)
  write_found begin_addr buffer s (b, some h) =
      (b, devices.write_buffer h (dev_offset b h begin_addr) buffer s, true)

  unfoldable pub paddr_write_buffer : ℕ → List ℕ → MmioBus → S → MmioBus × S × Bool
  paddr_write_buffer begin_addr buffer b s =
      write_found begin_addr buffer s (find_dev_according_to_addr begin_addr b)
