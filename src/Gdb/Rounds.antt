-- ===== src/Gdb/Rounds.antt =====
-- Whole rounds with the debugger.
use mathlib.Core.List.{append_assoc}
use m_emu.Base.{ℕ, ◌<◌, ◌≡◌, ap, ◌∙◌, Bool, true, ◌||◌, List, [], ◌∷◌, ◌++◌, length, ◌==◌, arith}
use m_emu.Mmu.{SysBus}
use m_emu.Core.{Hart}
use m_emu.Gdb.Rsp.{Packet, parse_packet, cal_check_sum}
use m_emu.Gdb.Link.{recv_packet, retry_check_sum, retry_protocol, send_ack, write, frame}
use m_emu.Gdb.Commands.{Session, reply}
use m_emu.Gdb.Stub.{perform, act, serve}
use m_emu.Gdb.Framing.{recv_and_check-on_wire}
use m_emu.Gdb.Retries.{Packed, wire, Fits, ack, packing_and_send-answers}
use m_emu.Gdb.Patterns.{
  IsField, AllFields, fields, Letter, letter_char, letter_type, letter_separators, separators,
  values, command, IsSafe-IsPlain, command-IsSafe, parse_packet-command,
}

-- A session whose debugger sends `incoming`.
abbrev pub session : {S : Type 0} → List ℕ → List (List ℕ) → Hart S → List ℕ → Session S
session incoming sent hart watch_points = record {
  link = record { incoming = incoming; sent = sent };
  hart = hart;
  watch_points = watch_points;
}

-- A packet with a command, as the debugger sends it.
abbrev pub command_packet : Letter → List ℕ → List (ℕ × List ℕ) → ℕ → ℕ → Packed
command_packet l f more c0 c1 = record {
  noise = [];
  text = command (letter_char l) f more;
  c0 = c0;
  c1 = c1;
}

-- An answer, which the debugger acknowledges, behind what was sent before.
pub reply-session :
    {S : Type 0} (text : List ℕ) (acks : List (List ℕ)) (rest : List ℕ) (sent : List (List ℕ))
    (h : Hart S) (ws : List ℕ)
    → reply text (session (b'+' ∷ rest) (sent ++ acks) h ws)
      ≡ session rest (sent ++ (acks ++ frame text ∷ [])) h ws
unfolding reply
reply-session text acks rest sent h ws =
    ap (λ l. record { link = l; hart = h; watch_points = ws })
      (packing_and_send-answers [] text rest (sent ++ acks) tt (omega arith))
    ∙ ap (λ s. session rest s h ws) (append_assoc sent acks (frame text ∷ []))

-- The checksum is right, or debugging is configured.
abbrev pub is_accepted : (ℕ → ℕ → ℕ) → Bool → Packed → Bool
is_accepted scan_check_sum debug p = debug || scan_check_sum p.c0 p.c1 == cal_check_sum p.text

module _ {S : Type 0} (bus : SysBus S) (fuel stack_size : ℕ) (scan_check_sum : ℕ → ℕ → ℕ)
    (debug : Bool) where
  pub serve-wire :
      (p : Packed) (rest : List ℕ) (sent : List (List ℕ)) (hart : Hart S) (ws : List ℕ)
      → Fits p
      → is_accepted scan_check_sum debug p ≡ true
      → serve bus fuel stack_size scan_check_sum debug (session (wire p rest) sent hart ws)
        ≡ perform bus fuel stack_size
            (parse_packet p.text).packet_type
            (parse_packet p.text).param_list
            (session rest (sent ++ (ack ∷ ack ∷ [])) hart ws)
  unfolding serve recv_packet act retry_check_sum retry_protocol send_ack write
  serve-wire p rest sent hart ws f ok =
      rw
        (recv_and_check-on_wire scan_check_sum debug p.noise p.text p.c0 p.c1 rest sent f.noise
          f.text f.size)
        (rw ok (
          ap
            (λ s.
              perform bus fuel stack_size (parse_packet p.text).packet_type
                (parse_packet p.text).param_list (session rest s hart ws))
            (append_assoc sent (ack ∷ []) (ack ∷ []))))

  -- A round with a command with fields.
  pub serve-command :
      (l : Letter) (f : List ℕ) (more : List (ℕ × List ℕ)) (c0 c1 : ℕ) (rest : List ℕ)
      (sent : List (List ℕ)) (hart : Hart S) (ws : List ℕ)
      → IsField f
      → AllFields more
      → separators more ≡ letter_separators l
      → length (fields f more) < 1022
      → is_accepted scan_check_sum debug (command_packet l f more c0 c1) ≡ true
      → serve bus fuel stack_size scan_check_sum debug
          (session (wire (command_packet l f more c0 c1) rest) sent hart ws)
        ≡ perform bus fuel stack_size
            (letter_type l)
            (f ∷ values more)
            (session rest (sent ++ (ack ∷ ack ∷ [])) hart ws)
  serve-command l f more c0 c1 rest sent hart ws h k same small ok =
      let p : Packed = command_packet l f more c0 c1 in
      let fits : Fits p = record {
        noise = tt;
        text = IsSafe-IsPlain p.text (command-IsSafe l f more h k);
        size = omega arith;
      } in
      serve-wire p rest sent hart ws fits ok
      ∙ ap
          (λ (q : Packet).
            perform bus fuel stack_size q.packet_type q.param_list
              (session rest (sent ++ (ack ∷ ack ∷ [])) hart ws))
          (parse_packet-command l f more h k same)
