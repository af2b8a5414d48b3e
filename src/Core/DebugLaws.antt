-- ===== src/Core/DebugLaws.antt =====
-- The registers and the watch points as the debugger sees them.
use m_emu.Base.{
  ℕ, zero, suc, ◌+◌, ◌<◌, ◌≡◌, refl, sym, ap, ◌∙◌, subst, not, ◌&&◌, ◌||◌, List, [], ◌∷◌, ◌++◌, ltb,
  leb, ◌==◌, if◌then◌else◌, length, set, get_or, arith, length-set, get_or-set, get_or-set_self,
}
use m_emu.Rv64.{Rv64Core}
use m_emu.Rv64.Reset.{gpr_at, write_program_counter}
use m_emu.Device.{ReturnFeedback}
use m_emu.Core.Debug.{
  RegisterItem, dump_gprs, dump_register, val_at, write_gprs, write_all_register, has_watch_point,
  insert_watch_point, remove_watch_point, is_current_pc_at_watch_point, dump_program_counter,
}

-- Lists of the same length with the same elements are the same.
extensional :
    (xs ys : List ℕ)
    → length xs ≡ length ys
    → ((j : ℕ) → j < length xs → get_or xs j 0 ≡ get_or ys j 0)
    → xs ≡ ys
extensional [] [] l e = refl
extensional [] (y ∷ ys) l e = absurd (omega arith)
extensional (x ∷ xs) [] l e = absurd (omega arith)
extensional (x ∷ xs) (y ∷ ys) l e =
    let first : x ≡ y = e 0 (omega arith) in
    let later : xs ≡ ys = extensional xs ys (omega arith) (λ j h. e (suc j) (omega arith)) in cc

length-write_gprs :
    (n i : ℕ) (regs : List RegisterItem) (gpr : List ℕ)
    → length (write_gprs n i regs gpr) ≡ length gpr
unfolding write_gprs
length-write_gprs zero i regs gpr = refl
length-write_gprs (suc n) i regs gpr =
    length-write_gprs n (suc i) regs (set gpr i (val_at regs i)) ∙ length-set gpr i (val_at regs i)

get_or-write_gprs :
    (n i j : ℕ) (regs : List RegisterItem) (gpr : List ℕ)
    → j < length gpr
    → get_or (write_gprs n i regs gpr) j 0
      ≡ (if leb i j && ltb j (i + n) then val_at regs j else get_or gpr j 0)
unfolding write_gprs
get_or-write_gprs zero i j regs gpr h = ground arith
get_or-write_gprs (suc n) i j regs gpr h = ground (
  arith,
  get_or-write_gprs n (suc i) j regs (set gpr i (val_at regs i)),
  length-set gpr i (val_at regs i),
  get_or-set gpr i j (val_at regs i),
  get_or-set_self gpr i (val_at regs i),
)

val_at-dump_gprs :
    (n i j : ℕ) (s : Rv64Core) (rest : List RegisterItem)
    → j < n
    → val_at (dump_gprs n i s ++ rest) j ≡ gpr_at s (i + j)
unfolding dump_gprs
val_at-dump_gprs zero i j s rest h = absurd (omega arith)
val_at-dump_gprs (suc n) i zero s rest h = ap (gpr_at s) (omega arith)
val_at-dump_gprs (suc n) i (suc j) s rest h =
    val_at-dump_gprs n (suc i) j s rest (omega arith) ∙ ap (gpr_at s) (omega arith)

val_at-dump_register : (j : ℕ) (s : Rv64Core) → j < 32 → val_at (dump_register s []) j ≡ gpr_at s j
unfolding dump_register
val_at-dump_register j s h = val_at-dump_gprs 32 0 j s _ h ∙ ap (gpr_at s) (omega arith)

-- Writing back a dump of the registers, over whatever the hart holds by then, is accepted and
-- gives the hart the 32 general registers and the program counter it had at the dump; nothing else
-- changes.
pub write_all_register-dump_register :
    (s t : Rv64Core)
    → length s.gpr ≡ 32
    → length t.gpr ≡ 32
    → write_all_register (dump_register s []) t ≡ (
      record t { gpr = s.gpr; current_program_counter = s.current_program_counter },
      ReturnFeedback.ok,
    )
unfolding write_all_register dump_register dump_gprs write_program_counter
write_all_register-dump_register s t l m =
    let gpr : write_gprs 32 0 (dump_register s []) t.gpr ≡ s.gpr = restored in
    ap
      (λ g. (
        record t { gpr = g; current_program_counter = s.current_program_counter },
        ReturnFeedback.ok,
      ))
      gpr
  where
    restored : write_gprs 32 0 (dump_register s []) t.gpr ≡ s.gpr
    restored = extensional _ _ (length-write_gprs 32 0 _ _ ∙ m ∙ sym l) (λ j h.
        let small : j < 32 = subst (λ k. j < k) (length-write_gprs 32 0 _ _ ∙ m) h in
        let same : val_at (dump_register s []) j ≡ gpr_at s j = val_at-dump_register j s small in
        ground (arith, get_or-write_gprs 32 0 j (dump_register s []) t.gpr))

has_watch_point-insert :
    (pc v : ℕ) (ws : List ℕ)
    → has_watch_point pc (insert_watch_point v ws) ≡ (v == pc || has_watch_point pc ws)
unfolding has_watch_point insert_watch_point
has_watch_point-insert pc v ws = ground arith

has_watch_point-remove :
    (pc v : ℕ) (ws : List ℕ)
    → has_watch_point pc (remove_watch_point v ws) ≡ (not (v == pc) && has_watch_point pc ws)
unfolding has_watch_point remove_watch_point
has_watch_point-remove pc v [] = ground arith
has_watch_point-remove pc v (w ∷ ws) = ground (arith, has_watch_point-remove pc v ws)

-- After the debugger has inserted a watch point, the hart is at a watch point if the program
-- counter is the inserted value or was a watch point before; after it has removed one, if the
-- program counter is not the removed value and was a watch point before.
pub is_current_pc_at_watch_point_lem :
    (v : ℕ) (s : Rv64Core) (ws : List ℕ)
    → (is_current_pc_at_watch_point s (insert_watch_point v ws)
        ≡ (v == s.current_program_counter || is_current_pc_at_watch_point s ws))
      × (is_current_pc_at_watch_point s (remove_watch_point v ws)
          ≡ (not (v == s.current_program_counter) && is_current_pc_at_watch_point s ws))
unfolding is_current_pc_at_watch_point dump_program_counter
is_current_pc_at_watch_point_lem v s ws =
    (has_watch_point-insert _ v ws, has_watch_point-remove _ v ws)
