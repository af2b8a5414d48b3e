-- ===== src/Tests/Gdb.antt =====
-- The theorems on the stub of the debugger at concrete inputs.
use m_emu.Base.{
  ℕ, ◌+◌, ◌*◌, ◌^◌, ◌<◌, ◌≤◌, ◌≡◌, ◌==◌, ◌||◌, ◌↔◌, refl, true, false, none, some, List, [], ◌∷◌,
  ◌++◌, length, replicate, ltb, if◌then◌else◌, arith,
}
use m_emu.Device.{ReturnFeedback}
use m_emu.Rv64.{Rv64Core}
use m_emu.Core.{Hart, dump_register, debug_mem_read, is_current_pc_at_watch_point}
use m_emu.Gdb.{read_hex, hex_byte, hex_dump, is_hex, strtoll}
use m_emu.Gdb.{PacketType, parse_packet, cal_check_sum, sum_chars}
use m_emu.Gdb.{recv_packet, frame}
use m_emu.Gdb.{
  Run, done, aborted, register_bytes, cmd_write_all_register, run_to_watch_point, halt_reply,
  ok_reply,
}
use m_emu.Gdb.{serve}
use m_emu.Gdb.Retries.{Packed, wire, wires, Fits, is_right, nak, ack, recv_packet-wires}
use m_emu.Gdb.Registers.{cmd_write_all_register-dump}
use m_emu.Gdb.Patterns.{IsField, Letter, command, parse_packet-command}
use m_emu.Gdb.Rounds.{session, command_packet}
use m_emu.Gdb.Continue.{Reaches, run_to_watch_point-Reaches, continue_packet, serve-continue}
use m_emu.Gdb.Answers.{
  saturated, memory_reply, serve-mem_read, serve-insert_breakpoint, serve-reg_read_index,
}
use m_emu.Tests.Step.{cell_bus, user_hart}

-- The two digits of a checksum.
-- The room on the stack: 8 MiB.
abbrev stack : ℕ
stack = 0x800000

abbrev scan : ℕ → ℕ → ℕ
scan c0 c1 = read_hex 0 (c0 ∷ c1 ∷ [])

abbrev hart : Hart (List ℕ)
hart = record { core = user_hart; mem = 0xb3 ∷ 0x80 ∷ 0x30 ∷ 0x00 ∷ [] }

-- $g#67, and the same with a wrong checksum.
abbrev right : Packed
right = record { noise = b'+' ∷ []; text = b'g' ∷ []; c0 = b'6'; c1 = b'7' }

abbrev wrong : Packed
wrong = record { noise = b'+' ∷ []; text = b'g' ∷ []; c0 = b'6'; c1 = b'8' }

right-Fits : Fits right
right-Fits = record { noise = (refl, tt); text = ((refl, refl), tt); size = omega arith }

wrong-Fits : Fits wrong
wrong-Fits = record { noise = (refl, tt); text = ((refl, refl), tt); size = omega arith }

right_sum : is_right scan right ≡ true
unfolding cal_check_sum sum_chars read_hex is_hex
right_sum = refl

wrong_sum : is_right scan wrong ≡ false
unfolding cal_check_sum sum_chars read_hex is_hex
wrong_sum = refl

recv_packet-wires_example :
    recv_packet scan false (record { incoming = wires (wrong ∷ []) (wire right []); sent = [] }) ≡ (
      if ltb 10 (length (wrong ∷ []))
      then none
      else some (
        record { incoming = []; sent = [] ++ (replicate (length (wrong ∷ [])) nak ++ ack ∷ []) },
        ReturnFeedback.ok,
        right.text,
      ))
recv_packet-wires_example =
    recv_packet-wires scan (wrong ∷ []) right [] [] ((wrong-Fits, wrong_sum), tt) right-Fits
      right_sum

-- m80000000,4
abbrev eighty : List ℕ
eighty = b'8' ∷ replicate 7 b'0'

abbrev four : List ℕ
four = b'4' ∷ []

eighty-IsField : IsField eighty
unfolding is_hex
eighty-IsField = (refl, (refl, (refl, (refl, (refl, (refl, (refl, (refl, tt))))))))

four-IsField : IsField four
unfolding is_hex
four-IsField = (refl, tt)

parse_packet-command_example :
    parse_packet (command b'm' eighty ((b',', four) ∷ []))
    ≡ record { packet_type = PacketType.mem_read; cmd = []; param_list = eighty ∷ four ∷ [] }
parse_packet-command_example =
    parse_packet-command Letter.m eighty ((b',', four) ∷ []) eighty-IsField
      ((refl, four-IsField), tt) refl

read_there :
    debug_mem_read cell_bus (saturated eighty) (saturated four) hart ≡ some (hart, some hart.mem)
unfolding debug_mem_read m_emu.Core.is_direct m_emu.Words.get_field m_emu.Rv64.Reset.reset
read_there = refl

four_fits : 7 * saturated four + 11 ≤ stack
unfolding read_hex is_hex
four_fits = omega arith

four_counts : saturated four < 2 ^ 31
unfolding read_hex is_hex
four_counts = omega arith

serve-mem_read_example :
    serve cell_bus 0 stack scan true (
      session
        (wire (command_packet Letter.m eighty ((b',', four) ∷ []) b'0' b'0') (b'+' ∷ []))
        []
        hart
        [])
    ≡ done (session [] ([] ++ (ack ∷ ack ∷ frame (memory_reply (some hart.mem)) ∷ [])) hart [])
serve-mem_read_example =
    serve-mem_read cell_bus 0 stack scan true eighty four b'0' b'0' [] [] hart hart []
      (some hart.mem) eighty-IsField four-IsField (omega arith) refl four_fits four_counts
      read_there

-- A length of 16 MiB.
abbrev long : List ℕ
long = b'f' ∷ b'f' ∷ b'f' ∷ b'f' ∷ b'f' ∷ b'f' ∷ []

zero-IsField : IsField (b'0' ∷ [])
unfolding is_hex
zero-IsField = (refl, tt)

is_execution : m_emu.Gdb.is_watch_point_type (b'0' ∷ []) ≡ true
unfolding strtoll read_hex is_hex
is_execution = refl

-- Z0,80000000,4
serve-insert_breakpoint_example :
    (new : List ℕ) × (serve cell_bus 0 stack scan true (
        session
          (wire
            (command_packet Letter.Z (b'0' ∷ []) ((b',', eighty) ∷ (b',', four) ∷ []) b'0' b'0')
            (b'+' ∷ []))
          []
          hart
          [])
      ≡ done (session [] ([] ++ (ack ∷ ack ∷ frame ok_reply ∷ [])) hart new))
    × ((s : Rv64Core)
        → is_current_pc_at_watch_point s new
          ≡ (saturated eighty == s.current_program_counter || is_current_pc_at_watch_point s []))
serve-insert_breakpoint_example =
    serve-insert_breakpoint cell_bus 0 stack scan true (b'0' ∷ []) eighty four b'0' b'0' [] [] hart
      [] zero-IsField eighty-IsField four-IsField (omega arith) is_execution refl

-- p4
serve-reg_read_index_example :
    serve cell_bus 0 stack scan true
      (session (wire (command_packet Letter.p four [] b'0' b'0') []) [] hart [])
    ≡ aborted
serve-reg_read_index_example =
    serve-reg_read_index cell_bus 0 stack scan true four b'0' b'0' [] [] hart [] four-IsField
      (omega arith) refl

at_start : is_current_pc_at_watch_point hart.core (0x80000000 ∷ []) ≡ true
unfolding is_current_pc_at_watch_point m_emu.Core.has_watch_point m_emu.Core.dump_program_counter
at_start = refl

run_to_watch_point-Reaches_example :
    (run_to_watch_point cell_bus 3 (0x80000000 ∷ []) hart ≡ done hart)
    ↔ ((n : ℕ) × (n ≤ 3) × Reaches cell_bus (0x80000000 ∷ []) n hart hart)
run_to_watch_point-Reaches_example =
    run_to_watch_point-Reaches cell_bus 3 (0x80000000 ∷ []) hart hart

serve-continue_example :
    serve cell_bus 0 stack scan true
      (session (wire (continue_packet b'6' b'3') (b'+' ∷ [])) [] hart (0x80000000 ∷ []))
    ≡ done (session [] ([] ++ (ack ∷ ack ∷ frame halt_reply ∷ [])) hart (0x80000000 ∷ []))
serve-continue_example =
    serve-continue cell_bus 0 stack scan true b'6' b'3' 0 [] [] hart hart (0x80000000 ∷ []) refl
      (Reaches.here at_start) (omega arith)

cmd_write_all_register-dump_example :
    cmd_write_all_register
      (hex_dump (register_bytes (dump_register user_hart [])) ∷ [])
      (session [] [] hart [])
    ≡ done (
        session [] []
          (record hart {
            core = record hart.core {
              gpr = user_hart.gpr;
              current_program_counter = user_hart.current_program_counter;
            };
          })
          [])
cmd_write_all_register-dump_example =
    cmd_write_all_register-dump user_hart (session [] [] hart []) refl (ground arith) (omega arith)
      refl
