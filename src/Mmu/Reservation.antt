-- ===== src/Mmu/Reservation.antt =====
-- A load-reserved and the store-conditionals after it, without translation.
use m_emu.Base.{ℕ, ◌≡◌, refl, true, false, some, List, ◌==◌, arith}
use m_emu.Rv64.{ExecFeedback, Rv64Core}
use m_emu.Mmu.Walk.{SysBus}
use m_emu.Mmu.Access.{is_bare}
use m_emu.Mmu.Amo.{
  vaddr_load_reserved, vaddr_store_conditional, reserve, drop_reservation, is_reserved,
}

module _ {S : Type 0} (bus : SysBus S) where
  -- A store-conditional without a reservation of its address and size by this hart leaves the
  -- memory alone, reports failure, and leaves no valid reservation of this hart.
  pub vaddr_store_conditional-unreserved :
      (begin_addr size : ℕ) (buffer : List ℕ) (s : Rv64Core) (mem : S)
      → is_bare s ≡ true
      → is_reserved bus begin_addr size s ≡ false
      → (t : Rv64Core) × (vaddr_store_conditional bus begin_addr size buffer s mem
          ≡ some (t, mem, ExecFeedback.exec_ok, some true))
        × ((addr n : ℕ) → is_reserved bus addr n t ≡ false)
  unfolding vaddr_store_conditional
  vaddr_store_conditional-unreserved begin_addr size buffer s mem bare r = (
    drop_reservation bus (s.rv_hart_id == s.sv39_mmu.lr_hart) s,
    rw (bare, r) refl,
    λ addr n. ground arith,
  )

  reserve-is_bare :
      (begin_addr size : ℕ) (s : Rv64Core)
      → is_bare s ≡ true
      → is_bare (reserve bus begin_addr size s) ≡ true
  reserve-is_bare begin_addr size s bare = bare

  reserve-is_reserved :
      (begin_addr size : ℕ) (s : Rv64Core)
      → is_reserved bus begin_addr size (reserve bus begin_addr size s) ≡ true
  reserve-is_reserved begin_addr size s = ground arith

  -- A hart without translation reads `bytes` by a load-reserved; the store-conditional to the same
  -- address with the same size then writes its bytes and reports success, when the bus accepts
  -- them, and spends the reservation: no store-conditional after it finds one.
  pub vaddr_store_conditional-vaddr_load_reserved :
      (begin_addr size : ℕ) (buffer bytes : List ℕ) (s : Rv64Core) (mem mem1 mem2 : S)
      → is_bare s ≡ true
      → bus.read begin_addr size mem ≡ (mem1, some bytes)
      → bus.write begin_addr buffer mem1 ≡ (mem2, true)
      → (s1 s2 : Rv64Core) × (vaddr_load_reserved bus begin_addr size s mem
          ≡ some (s1, mem1, ExecFeedback.exec_ok, bytes))
        × (vaddr_store_conditional bus begin_addr size buffer s1 mem1
            ≡ some (s2, mem2, ExecFeedback.exec_ok, some false))
        × ((addr n : ℕ) → is_reserved bus addr n s2 ≡ false)
  unfolding vaddr_store_conditional vaddr_load_reserved
  vaddr_store_conditional-vaddr_load_reserved begin_addr size buffer bytes s mem mem1 mem2 bare r
        w =
      (
        reserve bus begin_addr size s,
        drop_reservation bus true (reserve bus begin_addr size s),
        rw (bare, r) refl,
        rw (reserve-is_bare begin_addr size s bare, reserve-is_reserved begin_addr size s, w) refl,
        λ addr n. refl,
      )
