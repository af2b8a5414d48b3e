-- ===== src/Gdb/Registers.antt =====
-- The registers of a hart through the commands `g` and `G`.
use m_emu.Base.{
  ℕ, zero, suc, ◌^◌, ◌<◌, ◌≡◌, refl, ◌∙◌, some, List, [], ◌∷◌, ◌++◌, length, get_or, arith, map,
}
use m_emu.Words.{AllBelow, pack, unpack, unpack-pack, length-pack, pack-IsBytes}
use m_emu.Rv64.{Rv64Core}
use m_emu.Core.{RegisterItem, dump_gprs, dump_register, write_all_register}
use m_emu.Core.DebugLaws.{write_all_register-dump_register}
use m_emu.Gdb.Text.{hex_dump}
use m_emu.Gdb.Rsp.{parse_byte_stream}
use m_emu.Gdb.Commands.{
  Session, done, register_bytes, register_items, cmd_write_all_register, registers_written,
}
use m_emu.Gdb.Hex.{parse_byte_stream-hex_dump, length-hex_dump}

-- The values of a dump.
abbrev pub dumped_values : Rv64Core → List ℕ
dumped_values s = map (λ (r : RegisterItem). r.val) (dump_register s [])

register_bytes-dump_register :
    (s : Rv64Core) → register_bytes (dump_register s []) ≡ pack 8 (dumped_values s)
unfolding register_bytes dump_register dump_gprs pack
register_bytes-dump_register s = refl

register_items-dumped_values :
    (s : Rv64Core) → register_items 0 (dumped_values s) ≡ dump_register s []
unfolding register_items dump_register dump_gprs
register_items-dumped_values s = refl

get_or-lt : (xs : List ℕ) (i m : ℕ) → 0 < m → AllBelow m xs → get_or xs i 0 < m
get_or-lt [] i m h a = h
get_or-lt (x ∷ xs) zero m h a = a.0
get_or-lt (x ∷ xs) (suc i) m h a = get_or-lt xs i m h a.1

gprs-AllBelow :
    (n i m : ℕ) (s : Rv64Core) (rest : List RegisterItem)
    → 0 < m
    → AllBelow m s.gpr
    → AllBelow m (map (λ (r : RegisterItem). r.val) rest)
    → AllBelow m (map (λ (r : RegisterItem). r.val) (dump_gprs n i s ++ rest))
unfolding dump_gprs
gprs-AllBelow zero i m s rest h a k = k
gprs-AllBelow (suc n) i m s rest h a k =
    (get_or-lt s.gpr i m h a, gprs-AllBelow n (suc i) m s rest h a k)

dumped_values-AllBelow :
    (s : Rv64Core)
    → AllBelow (256 ^ 8) s.gpr
    → s.current_program_counter < 256 ^ 8
    → AllBelow (256 ^ 8) (dumped_values s)
unfolding dump_register
dumped_values-AllBelow s a p = gprs-AllBelow 32 0 (256 ^ 8) s _ (omega arith) a (p, tt)

length-dumped_values : (s : Rv64Core) → length (dumped_values s) ≡ 33
unfolding dump_register dump_gprs
length-dumped_values s = refl

-- The text of 33 words is read as 33 registers.
write_values :
    {S : Type 0} (vals : List ℕ) (t : Session S)
    → length vals ≡ 33
    → AllBelow (256 ^ 8) vals
    → cmd_write_all_register (hex_dump (pack 8 vals) ∷ []) t ≡ (
        let r = write_all_register (register_items 0 vals) t.hart.core in
        done (registers_written (record t { hart = record t.hart { core = r.0 } }) r.1))
unfolding cmd_write_all_register
write_values vals t len a =
    let size : length (hex_dump (pack 8 vals)) ≡ 528 =
      omega (arith, length-hex_dump (pack 8 vals), length-pack 8 vals) in
    let parsed : parse_byte_stream (hex_dump (pack 8 vals)) ≡ some (pack 8 vals) =
      parse_byte_stream-hex_dump (pack 8 vals) (pack-IsBytes 8 vals) in
    let words : unpack 8 33 (pack 8 vals) ≡ vals = rw len at (unpack-pack 8 vals a) in
    rw size (rw parsed (rw words refl))

-- The text that the command `g` sends for a hart with 32 registers, all of them and the program
-- counter of 64 bits, given back by the command `G` for a hart with 32 registers, is accepted
-- without an answer and gives that hart the 32 registers and the program counter of the first;
-- nothing else of the session changes.
pub cmd_write_all_register-dump :
    {S : Type 0} (s : Rv64Core) (t : Session S)
    → length s.gpr ≡ 32
    → AllBelow (256 ^ 8) s.gpr
    → s.current_program_counter < 256 ^ 8
    → length t.hart.core.gpr ≡ 32
    → cmd_write_all_register (hex_dump (register_bytes (dump_register s [])) ∷ []) t
      ≡ done (record t {
        hart = record t.hart {
          core = record t.hart.core {
            gpr = s.gpr;
            current_program_counter = s.current_program_counter;
          };
        };
      })
cmd_write_all_register-dump s t l a p m = rw (register_bytes-dump_register s) (
    write_values (dumped_values s) t (length-dumped_values s) (dumped_values-AllBelow s a p)
    ∙ rw (register_items-dumped_values s, write_all_register-dump_register s t.hart.core l m) refl)
