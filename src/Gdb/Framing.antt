-- ===== src/Gdb/Framing.antt =====
-- Packets on the wire.
use mathlib.Core.List.{append-nil, append_assoc}
use m_emu.Base.{
  ℕ, zero, suc, ◌+◌, ◌<◌, ◌≡◌, refl, ap, ◌∙◌, Bool, false, ◌||◌, Option, none, some, List, [], ◌∷◌,
  ◌++◌, length, ◌==◌, if◌then◌else◌, arith,
}
use m_emu.Device.{ReturnFeedback}
use m_emu.Gdb.Rsp.{cal_check_sum}
use m_emu.Gdb.Link.{buffer_size, getc, read_packet, checked_packet, recv_and_check}

-- No character ends a packet, or none begins or ends one.
abbrev pub NoEnd : List ℕ → Type 0
NoEnd [] = Unit {0}
NoEnd (c ∷ cs) = ((c == b'#') ≡ false) × NoEnd cs

abbrev pub IsPlain : List ℕ → Type 0
IsPlain [] = Unit {0}
IsPlain (c ∷ cs) = (((c == b'$') ≡ false) × ((c == b'#') ≡ false)) × IsPlain cs

read_packet_text :
    (text : List ℕ) (n : ℕ) (seen rest : List ℕ)
    → IsPlain text
    → length text < n
    → read_packet n (some seen) (text ++ (b'#' ∷ rest)) ≡ some (some (seen ++ text), rest)
unfolding read_packet getc
read_packet_text [] zero seen rest p h = absurd (omega arith)
read_packet_text [] (suc n) seen rest p h = rw append-nil refl
read_packet_text (c ∷ cs) zero seen rest p h = absurd (omega arith)
read_packet_text (c ∷ cs) (suc n) seen rest p h =
    rw (p.0.0, p.0.1)
      (read_packet_text cs n (seen ++ c ∷ []) rest p.1 (omega arith)
        ∙ ap (λ text. some (some text, rest)) (append_assoc seen (c ∷ []) cs))

-- A packet that others surround.
abbrev pub on_wire : List ℕ → List ℕ → List ℕ → List ℕ
on_wire noise text rest = noise ++ (b'$' ∷ (text ++ (b'#' ∷ rest)))

read_packet-on_wire :
    (noise text : List ℕ) (n : ℕ) (begun : Option (List ℕ)) (rest : List ℕ)
    → NoEnd noise
    → IsPlain text
    → length noise + length text + 1 < n
    → read_packet n begun (on_wire noise text rest) ≡ some (some text, rest)
unfolding read_packet getc
read_packet-on_wire [] text zero begun rest k p h = absurd (omega arith)
read_packet-on_wire [] text (suc n) begun rest k p h =
    read_packet_text text n [] rest p (omega arith)
read_packet-on_wire (c ∷ cs) text zero begun rest k p h = absurd (omega arith)
read_packet-on_wire (c ∷ cs) text (suc n) begun rest k p h =
    rw (k.0) (read_packet-on_wire cs text n _ rest k.1 p (omega arith))

module _ (scan_check_sum : ℕ → ℕ → ℕ) (config_debug_enable : Bool) where
  -- Behind any characters without `#`, a packet that fits the buffer is taken from the stream with
  -- its two check characters. It is accepted with its text if the checksum is right or debugging
  -- is configured, and is a checksum error if not.
  pub recv_and_check-on_wire :
      (noise text : List ℕ) (c0 c1 : ℕ) (rest : List ℕ) (sent : List (List ℕ))
      → NoEnd noise
      → IsPlain text
      → length noise + length text + 1 < buffer_size
      → recv_and_check scan_check_sum config_debug_enable
          (record { incoming = on_wire noise text (c0 ∷ c1 ∷ rest); sent = sent })
        ≡ some (
            if config_debug_enable || scan_check_sum c0 c1 == cal_check_sum text
            then (record { incoming = rest; sent = sent }, ReturnFeedback.ok, text)
            else (record { incoming = rest; sent = sent }, ReturnFeedback.chksum_err, []))
  unfolding recv_and_check checked_packet getc
  recv_and_check-on_wire noise text c0 c1 rest sent k p h =
      rw (read_packet-on_wire noise text buffer_size none (c0 ∷ c1 ∷ rest) k p h, recv_and_check)
        (ground arith)
