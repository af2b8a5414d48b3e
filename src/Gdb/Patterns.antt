-- ===== src/Gdb/Patterns.antt =====
-- What the expressions of the table find in a command: a letter and fields of hexadecimal digits.
use m_emu.Base.{
  ℕ, ◌≡◌, refl, ap, ◌∙◌, Bool, true, false, ◌||◌, some, List, [], ◌∷◌, ◌++◌, ◌==◌, arith,
}
use m_emu.Gdb.Text.{is_hex}
use m_emu.Gdb.Rsp.{
  PacketType, c_string, hex_fields, is_command, is_letter, packet_type_of, join_run, starts_hex,
  hex_runs, params_of, parse_packet,
}
use m_emu.Gdb.Hex.{AllHex}
use m_emu.Gdb.Framing.{IsPlain}

-- A field has a digit.
abbrev pub IsField : List ℕ → Type 0
IsField [] = ⊥
IsField (c ∷ cs) = AllHex (c ∷ cs)

-- A field, and for each further one the separator and the field.
abbrev pub fields : List ℕ → List (ℕ × List ℕ) → List ℕ
fields f [] = f
fields f ((s, g) ∷ more) = f ++ (s ∷ fields g more)

-- A comma or a colon.
abbrev pub is_separator : ℕ → Bool
is_separator s = s == b',' || s == b':'

abbrev pub AllFields : List (ℕ × List ℕ) → Type 0
AllFields [] = Unit {0}
AllFields ((s, g) ∷ more) = ((is_separator s ≡ true) × IsField g) × AllFields more

abbrev pub separators : List (ℕ × List ℕ) → List ℕ
separators [] = []
separators ((s, g) ∷ more) = s ∷ separators more

abbrev pub values : List (ℕ × List ℕ) → List (List ℕ)
values [] = []
values ((s, g) ∷ more) = g ∷ values more

separator_lem : (s : ℕ) → is_separator s ≡ true → is_hex s ≡ false
unfolding is_hex
separator_lem s h = ground arith

last_field : (cs : List ℕ) → AllHex cs → hex_fields true [] cs ≡ true
unfolding hex_fields
last_field [] h = refl
last_field (c ∷ cs) h = rw (h.0) (last_field cs h.1)

next_field :
    (s : ℕ) (ss cs rest : List ℕ)
    → is_hex s ≡ false
    → AllHex cs
    → hex_fields true (s ∷ ss) (cs ++ (s ∷ rest)) ≡ hex_fields false ss rest
unfolding hex_fields
next_field s ss [] rest out h = rw out (ground arith)
next_field s ss (c ∷ cs) rest out h = rw (h.0) (next_field s ss cs rest out h.1)

pub hex_fields-fields :
    (f : List ℕ) (more : List (ℕ × List ℕ))
    → IsField f
    → AllFields more
    → hex_fields false (separators more) (fields f more) ≡ true
unfolding hex_fields
hex_fields-fields [] more h k = absurd h
hex_fields-fields (c ∷ cs) [] h k = rw (h.0) (last_field cs h.1)
hex_fields-fields (c ∷ cs) ((s, g) ∷ more) h k = rw (h.0) (
    next_field s (separators more) cs (fields g more) (separator_lem s k.0.0) h.1
    ∙ hex_fields-fields g more k.0.1 k.1)

hex_runs_digit :
    (c : ℕ) (cs : List ℕ)
    → is_hex c ≡ true
    → hex_runs (c ∷ cs) ≡ join_run c (starts_hex cs) (hex_runs cs)
unfolding hex_runs
hex_runs_digit c cs h = rw h refl

hex_runs_other : (s : ℕ) (rest : List ℕ) → is_hex s ≡ false → hex_runs (s ∷ rest) ≡ hex_runs rest
unfolding hex_runs
hex_runs_other s rest h = rw h refl

run_before :
    (c : ℕ) (cs : List ℕ) (s : ℕ) (rest : List ℕ)
    → AllHex (c ∷ cs)
    → is_hex s ≡ false
    → hex_runs ((c ∷ cs) ++ (s ∷ rest)) ≡ (c ∷ cs) ∷ hex_runs rest
run_before c [] s rest h out =
    hex_runs_digit c (s ∷ rest) (h.0) ∙ rw (out, hex_runs_other s rest out) refl
run_before c (d ∷ cs) s rest h out =
    hex_runs_digit c _ (h.0) ∙ rw (h.1.0, run_before d cs s rest h.1 out) refl

last_run : (c : ℕ) (cs : List ℕ) → AllHex (c ∷ cs) → hex_runs (c ∷ cs) ≡ (c ∷ cs) ∷ []
last_run c [] h = hex_runs_digit c [] (h.0) ∙ unfold hex_runs in refl
last_run c (d ∷ cs) h = hex_runs_digit c _ (h.0) ∙ rw (h.1.0, last_run d cs h.1) refl

pub hex_runs-fields :
    (f : List ℕ) (more : List (ℕ × List ℕ))
    → IsField f
    → AllFields more
    → hex_runs (fields f more) ≡ f ∷ values more
hex_runs-fields [] more h k = absurd h
hex_runs-fields (c ∷ cs) [] h k = last_run c cs h
hex_runs-fields (c ∷ cs) ((s, g) ∷ more) h k =
    run_before c cs s (fields g more) h (separator_lem s k.0.0)
    ∙ ap (λ runs. (c ∷ cs) ∷ runs) (hex_runs-fields g more k.0.1 k.1)

-- The text of a command, before the fields are told apart.
abbrev pub command : ℕ → List ℕ → List (ℕ × List ℕ) → List ℕ
command letter f more = letter ∷ fields f more

-- No character is null, `$` or `#`.
abbrev pub IsSafe : List ℕ → Type 0
IsSafe [] = Unit {0}
IsSafe (c ∷ cs) = (((c == 0) ≡ false) × ((c == b'$') ≡ false) × ((c == b'#') ≡ false)) × IsSafe cs

c_string_safe : (text : List ℕ) → IsSafe text → c_string text ≡ text
unfolding c_string
c_string_safe [] h = refl
c_string_safe (c ∷ cs) h = rw (h.0.0) (ap (λ t. c ∷ t) (c_string_safe cs h.1))

pub IsSafe-IsPlain : (text : List ℕ) → IsSafe text → IsPlain text
IsSafe-IsPlain [] h = tt
IsSafe-IsPlain (c ∷ cs) h = ((h.0.1, h.0.2), IsSafe-IsPlain cs h.1)

append-IsSafe : (left right : List ℕ) → IsSafe left → IsSafe right → IsSafe (left ++ right)
append-IsSafe [] right h k = k
append-IsSafe (c ∷ cs) right h k = (h.0, append-IsSafe cs right h.1 k)

AllHex-IsSafe : (cs : List ℕ) → AllHex cs → IsSafe cs
unfolding is_hex
AllHex-IsSafe [] h = tt
AllHex-IsSafe (c ∷ cs) h =
    let digit = h.0 in ((ground arith, ground arith, ground arith), AllHex-IsSafe cs h.1)

field-IsSafe : (f : List ℕ) → IsField f → IsSafe f
field-IsSafe [] h = absurd h
field-IsSafe (c ∷ cs) h = AllHex-IsSafe (c ∷ cs) h

pub fields-IsSafe :
    (f : List ℕ) (more : List (ℕ × List ℕ)) → IsField f → AllFields more → IsSafe (fields f more)
fields-IsSafe f [] h k = field-IsSafe f h
fields-IsSafe f ((s, g) ∷ more) h k =
    let separator = k.0.0 in
    append-IsSafe f (s ∷ fields g more) (field-IsSafe f h)
      ((ground arith, ground arith, ground arith), fields-IsSafe g more k.0.1 k.1)

-- The commands with fields of digits.
pub data Letter : Type 0 where
  m M p G Z z : Letter

abbrev pub letter_char : Letter → ℕ
letter_char Letter.m = b'm'
letter_char Letter.M = b'M'
letter_char Letter.p = b'p'
letter_char Letter.G = b'G'
letter_char Letter.Z = b'Z'
letter_char Letter.z = b'z'

abbrev pub letter_type : Letter → PacketType
letter_type Letter.m = PacketType.mem_read
letter_type Letter.M = PacketType.mem_write
letter_type Letter.p = PacketType.reg_read_index
letter_type Letter.G = PacketType.reg_write_all
letter_type Letter.Z = PacketType.insert_breakpoint
letter_type Letter.z = PacketType.remove_breakpoint

-- The separators that the protocol asks for.
abbrev pub letter_separators : Letter → List ℕ
letter_separators Letter.m = b',' ∷ []
letter_separators Letter.M = b',' ∷ b':' ∷ []
letter_separators Letter.p = []
letter_separators Letter.G = []
letter_separators Letter.Z = b',' ∷ b',' ∷ []
letter_separators Letter.z = b',' ∷ b',' ∷ []

letter_matches :
    (l : Letter) (f : List ℕ) (more : List (ℕ × List ℕ))
    → hex_fields false (letter_separators l) (fields f more) ≡ true
    → packet_type_of (command (letter_char l) f more) ≡ some (letter_type l)
unfolding packet_type_of is_command is_letter
letter_matches Letter.m f more h = rw h refl
letter_matches Letter.M f more h = rw h refl
letter_matches Letter.p f more h = rw h refl
letter_matches Letter.G f more h = rw h refl
letter_matches Letter.Z f more h = rw h refl
letter_matches Letter.z f more h = rw h refl

letter_params :
    (l : Letter) (text : List ℕ) → params_of (letter_type l) (letter_char l ∷ text) ≡ hex_runs text
unfolding params_of hex_runs is_hex
letter_params Letter.m text = refl
letter_params Letter.M text = refl
letter_params Letter.p text = refl
letter_params Letter.G text = refl
letter_params Letter.Z text = refl
letter_params Letter.z text = refl

letter_safe :
    (l : Letter)
    → ((letter_char l == 0) ≡ false)
      × ((letter_char l == b'$') ≡ false)
      × ((letter_char l == b'#') ≡ false)
letter_safe Letter.m = (refl, refl, refl)
letter_safe Letter.M = (refl, refl, refl)
letter_safe Letter.p = (refl, refl, refl)
letter_safe Letter.G = (refl, refl, refl)
letter_safe Letter.Z = (refl, refl, refl)
letter_safe Letter.z = (refl, refl, refl)

pub command-IsSafe :
    (l : Letter) (f : List ℕ) (more : List (ℕ × List ℕ))
    → IsField f
    → AllFields more
    → IsSafe (command (letter_char l) f more)
command-IsSafe l f more h k = (letter_safe l, fields-IsSafe f more h k)

-- A letter with fields of digits, set off by the separators that it asks for, is parsed as its
-- command with the fields as parameters.
pub parse_packet-command :
    (l : Letter) (f : List ℕ) (more : List (ℕ × List ℕ))
    → IsField f
    → AllFields more
    → separators more ≡ letter_separators l
    → parse_packet (command (letter_char l) f more)
      ≡ record { packet_type = letter_type l; cmd = []; param_list = f ∷ values more }
unfolding parse_packet
parse_packet-command l f more h k same =
    let text : List ℕ = command (letter_char l) f more in
    let whole : c_string text ≡ text = c_string_safe text (command-IsSafe l f more h k) in
    let kind : packet_type_of text ≡ some (letter_type l) =
      letter_matches l f more (rw same at (hex_fields-fields f more h k)) in
    rw (whole, kind)
      (ap (λ params. record { packet_type = letter_type l; cmd = []; param_list = params })
        (letter_params l (fields f more) ∙ hex_runs-fields f more h k))
