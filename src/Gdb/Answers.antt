-- ===== src/Gdb/Answers.antt =====
-- Rounds with the commands that have fields.
use m_emu.Base.{
  ℕ, ◌+◌, ◌-◌, ◌*◌, ◌^◌, ◌<◌, ◌≤◌, ◌≡◌, refl, ap, ◌∙◌, Bool, true, false, ◌||◌, Option, none, some,
  List, [], ◌∷◌, ◌++◌, length, length-append, ltb, ◌==◌, if◌then◌else◌, arith,
}
use m_emu.Rv64.{Rv64Core}
use m_emu.Mmu.{SysBus}
use m_emu.Core.{Hart, debug_mem_read, insert_watch_point, is_current_pc_at_watch_point}
use m_emu.Core.DebugLaws.{is_current_pc_at_watch_point_lem}
use m_emu.Gdb.Text.{hex_dump, read_hex}
use m_emu.Gdb.Link.{frame}
use m_emu.Gdb.Commands.{
  done, is_answer_too_long, memory_read, aborted, cmd_mem_read, cmd_insert_breakpoint, error_reply,
  ok_reply, is_watch_point_type,
}
use m_emu.Gdb.Stub.{serve, perform}
use m_emu.Gdb.Hex.{strtoll_lem}
use m_emu.Gdb.Retries.{wire, ack}
use m_emu.Gdb.Patterns.{IsField, Letter}
use m_emu.Gdb.Rounds.{session, command_packet, is_accepted, serve-command, reply-session}

-- The value that the stub takes for a field: the number, or the largest `long long`.
abbrev pub saturated : List ℕ → ℕ
saturated text = if ltb (read_hex 0 text) (2 ^ 63) then read_hex 0 text else 2 ^ 63 - 1

-- What is sent for bytes that were read, or for an error.
abbrev pub memory_reply : Option (List ℕ) → List ℕ
memory_reply none = error_reply
memory_reply (some bytes) = hex_dump bytes

module _ {S : Type 0} (bus : SysBus S) (fuel stack_size : ℕ) (scan_check_sum : ℕ → ℕ → ℕ)
    (debug : Bool) where
  -- The round of an accepted packet `m addr,length` of fields of digits that fit the buffer,
  -- whose answer the debugger acknowledges, where the length is below 2^31, the buffers of the
  -- answer, 7 times the length and 11 bytes, fit the stack, and the access to memory is not
  -- aborted: the packet is acknowledged twice, memory is read from the address on, and the answer
  -- is the bytes as hexadecimal text or E01; watch points are left alone. An address of 2^63 or
  -- more is taken for the largest `long long`.
  pub serve-mem_read :
      (addr len : List ℕ) (c0 c1 : ℕ) (rest : List ℕ) (sent : List (List ℕ)) (h t : Hart S)
      (ws : List ℕ) (found : Option (List ℕ))
      → IsField addr
      → IsField len
      → length addr + length len < 1000
      → is_accepted scan_check_sum debug (command_packet Letter.m addr ((b',', len) ∷ []) c0 c1)
        ≡ true
      → 7 * saturated len + 11 ≤ stack_size
      → saturated len < 2 ^ 31
      → debug_mem_read bus (saturated addr) (saturated len) h ≡ some (t, found)
      → serve bus fuel stack_size scan_check_sum debug (
          session
            (wire (command_packet Letter.m addr ((b',', len) ∷ []) c0 c1) (b'+' ∷ rest))
            sent
            h
            ws)
        ≡ done (session rest (sent ++ (ack ∷ ack ∷ frame (memory_reply found) ∷ [])) t ws)
  unfolding perform cmd_mem_read
  serve-mem_read addr len c0 c1 rest sent h t ws found ha hl small ok fits count e =
      serve-command bus fuel stack_size scan_check_sum debug Letter.m addr ((b',', len) ∷ []) c0 c1
        (b'+' ∷ rest) sent h ws ha ((refl, hl), tt) refl
        (omega (arith, length-append addr (b',' ∷ len))) ok
      ∙ rw (strtoll_lem addr, strtoll_lem len) (rw short (rw e (answered found)))
    where
      short : ltb stack_size (saturated len) ≡ false
      short = ground arith

      answerable : is_answer_too_long stack_size (saturated len) ≡ false
      answerable = ground arith

      answered :
          (found : Option (List ℕ))
          → memory_read stack_size
              (saturated len)
              (session (b'+' ∷ rest) (sent ++ (ack ∷ ack ∷ [])) h ws)
              (some (t, found))
            ≡ done (session rest (sent ++ (ack ∷ ack ∷ frame (memory_reply found) ∷ [])) t ws)
      answered none = ap done (reply-session error_reply (ack ∷ ack ∷ []) rest sent t ws)
      answered (some bytes) =
          rw answerable (ap done (reply-session (hex_dump bytes) (ack ∷ ack ∷ []) rest sent t ws))

  -- The round of an accepted packet `Z type,addr,kind` of fields of digits that fit the buffer,
  -- whose answer the debugger acknowledges, with a type of which an `int` keeps 0 or 1: the
  -- answer is OK, and a hart is then at a watch point if its program counter is the address or
  -- was at one. An address of 2^63 or more is taken for 2^63 - 1.
  pub serve-insert_breakpoint :
      (kind addr size : List ℕ) (c0 c1 : ℕ) (rest : List ℕ) (sent : List (List ℕ)) (h : Hart S)
      (ws : List ℕ)
      → IsField kind
      → IsField addr
      → IsField size
      → length kind + length addr + length size < 1000
      → is_watch_point_type kind ≡ true
      → is_accepted scan_check_sum debug
          (command_packet Letter.Z kind ((b',', addr) ∷ (b',', size) ∷ []) c0 c1)
        ≡ true
      → (new : List ℕ) × (serve bus fuel stack_size scan_check_sum debug (
            session
              (wire
                (command_packet Letter.Z kind ((b',', addr) ∷ (b',', size) ∷ []) c0 c1)
                (b'+' ∷ rest))
              sent
              h
              ws)
          ≡ done (session rest (sent ++ (ack ∷ ack ∷ frame ok_reply ∷ [])) h new))
        × ((s : Rv64Core)
            → is_current_pc_at_watch_point s new
              ≡ (saturated addr == s.current_program_counter || is_current_pc_at_watch_point s ws))
  unfolding perform cmd_insert_breakpoint
  serve-insert_breakpoint kind addr size c0 c1 rest sent h ws hk ha hs small ok accepted = (
    insert_watch_point (saturated addr) ws,
    serve-command bus fuel stack_size scan_check_sum debug Letter.Z kind
          ((b',', addr) ∷ (b',', size) ∷ []) c0 c1 (b'+' ∷ rest) sent h ws hk
          ((refl, ha), ((refl, hs), tt)) refl
          (omega (
            arith,
            length-append kind (b',' ∷ (addr ++ (b',' ∷ size))),
            length-append addr (b',' ∷ size),
          ))
          accepted
        ∙ rw ok (
            rw (strtoll_lem addr) (
              ap done (
                reply-session ok_reply (ack ∷ ack ∷ []) rest sent h
                  (insert_watch_point (saturated addr) ws)))),
    λ s. (is_current_pc_at_watch_point_lem (saturated addr) s ws).0,
  )

  -- The stub knows the command `p`, which reads one register, but has no case for it: an
  -- accepted packet with it whose number fits the buffer ends the emulator.
  pub serve-reg_read_index :
      (index : List ℕ) (c0 c1 : ℕ) (rest : List ℕ) (sent : List (List ℕ)) (h : Hart S) (ws : List ℕ)
      → IsField index
      → length index < 1000
      → is_accepted scan_check_sum debug (command_packet Letter.p index [] c0 c1) ≡ true
      → serve bus fuel stack_size scan_check_sum debug
          (session (wire (command_packet Letter.p index [] c0 c1) rest) sent h ws)
        ≡ aborted
  unfolding perform
  serve-reg_read_index index c0 c1 rest sent h ws hi small ok =
      serve-command bus fuel stack_size scan_check_sum debug Letter.p index [] c0 c1 rest sent h ws
        hi tt refl (omega arith) ok
