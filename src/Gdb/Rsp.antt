-- ===== src/Gdb/Rsp.antt =====
-- Packets of the remote serial protocol (M-EMU/src/gdb_stub/gdb_rsp.cpp and
-- M-EMU/include/sdk/gdb_stub/gdb_rsp.h). A regular expression of the table is a function that
-- decides its language; the parameters of a command are the matches that the iterator finds.
use m_emu.Base.{
  ℕ, ◌+◌, ◌%◌, ◌^◌, Bool, true, false, not, ◌&&◌, ◌||◌, Option, none, some, List, [], ◌∷◌, ◌++◌,
  leb, ◌==◌, if◌then◌else◌, length,
}
use m_emu.Words.{sign_extend}
use m_emu.Gdb.Text.{is_hex, read_hex}

-- GDB_RSP_PacketType_e
pub data PacketType : Type 0 where
  unknown mem_read mem_write reg_read_index reg_write_index reg_read_all : PacketType
  reg_write_all q_trace_status query_halt_reason single_step insert_breakpoint : PacketType
  remove_breakpoint continue specify_thread_for_g specify_thread_for_c q_attached : PacketType
  q_supported q_thread_info empty_packet : PacketType

-- GDB_RSP_Packet
pub record Packet : Type 0 where
  pub packet_type : PacketType
  pub cmd : List ℕ
  pub param_list : List (List ℕ)

-- A `char` is signed; the sum has 64 bits.
unfoldable pub sum_chars : ℕ → List ℕ → ℕ
sum_chars sum [] = sum
sum_chars sum (c ∷ cs) = sum_chars ((sum + sign_extend 8 c) % 2 ^ 64) cs

unfoldable pub cal_check_sum : List ℕ → ℕ
cal_check_sum text = sum_chars 0 text % 256

-- The text up to the first null character.
unfoldable pub c_string : List ℕ → List ℕ
c_string [] = []
c_string (c ∷ cs) = let later = c_string cs in if c == 0 then [] else c ∷ later

-- [0-9A-Fa-f]+, then for each separator the separator and [0-9A-Fa-f]+ again. `seen` says that the
-- field has a digit already.
unfoldable pub hex_fields : Bool → List ℕ → List ℕ → Bool
hex_fields seen [] [] = seen
hex_fields seen (s ∷ ss) [] = false
hex_fields seen [] (c ∷ cs) = is_hex c && hex_fields true [] cs
hex_fields seen (s ∷ ss) (c ∷ cs) =
    let later = hex_fields (is_hex c) (if is_hex c then s ∷ ss else ss) cs in
    (is_hex c || seen && c == s) && later

-- A letter and fields of digits.
unfoldable pub is_command : ℕ → List ℕ → List ℕ → Bool
is_command letter separators [] = false
is_command letter separators (c ∷ cs) = c == letter && hex_fields false separators cs

-- A letter alone.
unfoldable pub is_letter : ℕ → List ℕ → Bool
is_letter letter [] = false
is_letter letter (c ∷ cs) = c == letter && length cs == 0

-- (?:[a-zA-Z-]+\+?;?)+ where `begun` says that a group has begun, `plus` and `semi` that these may
-- come next.
unfoldable pub is_feature_list : Bool → Bool → Bool → List ℕ → Bool
is_feature_list begun plus semi [] = begun
is_feature_list begun plus semi (c ∷ cs) =
    let word = leb b'a' c && leb c b'z' || leb b'A' c && leb c b'Z' || c == b'-' in
    let later = is_feature_list true word (word || c == b'+') cs in
    (word || c == b'+' && plus || c == b';' && semi) && later

-- What is left of a text behind a prefix.
unfoldable pub behind : List ℕ → List ℕ → Option (List ℕ)
behind [] text = some text
behind (p ∷ ps) [] = none
behind (p ∷ ps) (c ∷ cs) = let later = behind ps cs in if c == p then later else none

-- qSupported:
abbrev pub q_supported_prefix : List ℕ
q_supported_prefix = b'q' ∷ b'S' ∷ b'u' ∷ b'p' ∷ b'p' ∷ b'o' ∷ b'r' ∷ b't' ∷ b'e' ∷ b'd' ∷ b':' ∷ []

unfoldable pub is_q_supported : List ℕ → Bool
is_q_supported text = elim (behind q_supported_prefix text) [
  | none ↦ false
  | some rest ↦ is_feature_list false false false rest
]

-- The entry of the table that the text matches, in the order of the map.
unfoldable pub packet_type_of : List ℕ → Option PacketType
packet_type_of text =
    if is_command b'm' (b',' ∷ []) text
    then some PacketType.mem_read
    else if is_command b'M' (b',' ∷ b':' ∷ []) text
    then some PacketType.mem_write
    else if is_command b'p' [] text
    then some PacketType.reg_read_index
    else if is_letter b'g' text
    then some PacketType.reg_read_all
    else if is_command b'G' [] text
    then some PacketType.reg_write_all
    else if is_letter b'?' text
    then some PacketType.query_halt_reason
    else if is_command b'Z' (b',' ∷ b',' ∷ []) text
    then some PacketType.insert_breakpoint
    else if is_command b'z' (b',' ∷ b',' ∷ []) text
    then some PacketType.remove_breakpoint
    else if is_letter b'c' text || is_command b'c' [] text
    then some PacketType.continue
    else if is_q_supported text
    then some PacketType.q_supported
    else none

-- A character in front of the runs of what follows it.
abbrev pub join_run : ℕ → Bool → List (List ℕ) → List (List ℕ)
join_run c true (run ∷ runs) = (c ∷ run) ∷ runs
join_run c true [] = (c ∷ []) ∷ []
join_run c false runs = (c ∷ []) ∷ runs

abbrev pub starts_hex : List ℕ → Bool
starts_hex [] = false
starts_hex (c ∷ cs) = is_hex c

-- The matches of [0-9A-Fa-f]+: the longest runs of digits.
unfoldable pub hex_runs : List ℕ → List (List ℕ)
hex_runs [] = []
hex_runs (c ∷ cs) =
    let later = hex_runs cs in if is_hex c then join_run c (starts_hex cs) later else later

-- The matches of .([0-9A-Fa-f]+) in a text that is a letter or a letter and digits.
unfoldable pub whole_command : List ℕ → List (List ℕ)
whole_command text = if leb (length text) 1 then [] else text ∷ []

-- The matches of (-|\w)+(?=\+): the longest runs of such characters with a plus behind them.
-- `run` is what was read of the current one.
unfoldable pub feature_names : List ℕ → List ℕ → List (List ℕ)
feature_names run [] = []
feature_names run (c ∷ cs) =
    let word =
      leb b'a' c && leb c b'z'
      || leb b'A' c && leb c b'Z'
      || leb b'0' c && leb c b'9'
      || c == b'_'
      || c == b'-' in
    let later = feature_names (if word then run ++ c ∷ [] else []) cs in
    if c == b'+' && not (length run == 0) then run ∷ later else later

-- The entries without an expression for parameters have none.
unfoldable pub params_of : PacketType → List ℕ → List (List ℕ)
params_of PacketType.query_halt_reason text = []
params_of PacketType.reg_read_all text = []
params_of PacketType.continue text = whole_command text
params_of PacketType.q_supported text = feature_names [] text
params_of _ text = hex_runs text

abbrev pub to_packet : List ℕ → Option PacketType → Packet
to_packet text (some kind) = record {
  packet_type = kind;
  cmd = [];
  param_list = params_of kind text;
}
to_packet text none = record { packet_type = PacketType.unknown; cmd = text; param_list = [] }

-- ParsePacket_GDB_RSP_Utils on a new packet. What it stores for a length of 0 is overwritten,
-- since the empty text matches nothing.
unfoldable pub parse_packet : List ℕ → Packet
parse_packet payload = let text = c_string payload in to_packet text (packet_type_of text)

-- The pairs of digits of ParseByteStreamStr.
unfoldable pub read_pairs : List ℕ → List ℕ
read_pairs [] = []
read_pairs (c ∷ []) = []
read_pairs (c ∷ d ∷ rest) = (read_hex 0 (c ∷ d ∷ []) % 256) ∷ read_pairs rest

-- ParseByteStreamStr; `none` is the failed assertion.
unfoldable pub parse_byte_stream : List ℕ → Option (List ℕ)
parse_byte_stream text = if length text % 2 == 0 then some (read_pairs text) else none
