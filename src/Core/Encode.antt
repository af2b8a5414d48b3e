-- ===== src/Core/Encode.antt =====
-- The immediates of the branch, jump and store formats against the encodings of the RISC-V manual.
use m_emu.Base.{ℕ, ◌+◌, ◌*◌, ◌/◌, ◌%◌, ◌^◌, ◌<◌, ◌≡◌, refl, sym, bit_or, arith}
use m_emu.Words.{get_field, sign_extend, bit_or-parts, get-lt}
use m_emu.Core.Inst
use native.Mathlib.Nat.{div-add-mod'}

-- The word of a branch: its offset is spread as imm[12|10:5] and imm[4:1|11].
abbrev pub encode_b : ℕ → ℕ → ℕ → ℕ → ℕ → ℕ
encode_b opcode code src1 src2 offset =
    opcode
    + offset / 2 ^ 11 % 2 * 2 ^ 7
    + offset / 2 % 2 ^ 4 * 2 ^ 8
    + code * 2 ^ 12
    + src1 * 2 ^ 15
    + src2 * 2 ^ 20
    + offset / 2 ^ 5 % 2 ^ 6 * 2 ^ 25
    + offset / 2 ^ 12 % 2 * 2 ^ 31

-- The word of JAL: imm[20|10:1|11|19:12].
abbrev pub encode_j : ℕ → ℕ → ℕ → ℕ
encode_j opcode dest offset =
    opcode
    + dest * 2 ^ 7
    + offset / 2 ^ 12 % 2 ^ 8 * 2 ^ 12
    + offset / 2 ^ 11 % 2 * 2 ^ 20
    + offset / 2 % 2 ^ 10 * 2 ^ 21
    + offset / 2 ^ 20 % 2 * 2 ^ 31

-- Parts with no common bit add up.
bit_or_add : (k x y : ℕ) → 0 < 2 ^ k → x % 2 ^ k ≡ 0 → y < 2 ^ k → bit_or x y ≡ x + y
bit_or_add k x y p h l =
    let e : x ≡ x / 2 ^ k * 2 ^ k = sym (omega (arith, div-add-mod' x (2 ^ k))) in
    rw e (bit_or-parts k (x / 2 ^ k) y l)

pub b_offset-sum :
    (inst : ℕ)
    → Inst.b_offset inst
      ≡ Inst.shift_left (Inst.get_signed Inst.b_imm_12 inst) 12
        + get_field Inst.b_imm_11 inst * 2 ^ 11
        + get_field Inst.b_imm_10_5 inst * 2 ^ 5
        + get_field Inst.b_imm_4_1 inst * 2 ^ 1
unfolding Inst.b_offset
b_offset-sum inst =
    let top = Inst.shift_left (Inst.get_signed Inst.b_imm_12 inst) 12 in
    let b11 = get_field Inst.b_imm_11 inst * 2 ^ 11 in
    let b10 = get_field Inst.b_imm_10_5 inst * 2 ^ 5 in
    let b4 = get_field Inst.b_imm_4_1 inst * 2 ^ 1 in
    let l11 : get_field Inst.b_imm_11 inst < 2 = get-lt Inst.b_imm_11 inst in
    let l10 : get_field Inst.b_imm_10_5 inst < 64 = get-lt Inst.b_imm_10_5 inst in
    let l4 : get_field Inst.b_imm_4_1 inst < 16 = get-lt Inst.b_imm_4_1 inst in
    let e1 : bit_or top b11 ≡ top + b11 =
      bit_or_add 12 top b11 (omega arith) (omega arith) (omega arith) in
    let e2 : bit_or (top + b11) b10 ≡ top + b11 + b10 =
      bit_or_add 11 (top + b11) b10 (omega arith) (omega arith) (omega arith) in
    let e3 : bit_or (top + b11 + b10) b4 ≡ top + b11 + b10 + b4 =
      bit_or_add 5 (top + b11 + b10) b4 (omega arith) (omega arith) (omega arith) in
    rw (e1, e2, e3) refl

-- The offset of a branch is read back as the manual encodes it, for every even offset of 13 bits
-- and whatever the other fields are.
pub b_offset-encode_b :
    (opcode code src1 src2 offset : ℕ)
    → opcode < 2 ^ 7
    → code < 2 ^ 3
    → src1 < 2 ^ 5
    → src2 < 2 ^ 5
    → offset < 2 ^ 13
    → offset % 2 ≡ 0
    → Inst.b_offset (encode_b opcode code src1 src2 offset) ≡ sign_extend 13 offset
unfolding get_field
b_offset-encode_b opcode code src1 src2 offset h1 h2 h3 h4 h5 h6 =
    let w = encode_b opcode code src1 src2 offset in
    let f12 : get_field Inst.b_imm_12 w ≡ offset / 2 ^ 12 % 2 = omega arith in
    let f11 : get_field Inst.b_imm_11 w ≡ offset / 2 ^ 11 % 2 = omega arith in
    let f10 : get_field Inst.b_imm_10_5 w ≡ offset / 2 ^ 5 % 2 ^ 6 = omega arith in
    let f4 : get_field Inst.b_imm_4_1 w ≡ offset / 2 % 2 ^ 4 = omega arith in
    rw (b_offset-sum w, f12, f11, f10, f4) (ground arith)

j_offset-sum :
    (inst : ℕ)
    → Inst.j_offset inst
      ≡ Inst.shift_left (Inst.get_signed Inst.j_imm_20 inst) 20
        + get_field Inst.j_imm_19_12 inst * 2 ^ 12
        + get_field Inst.j_imm_11 inst * 2 ^ 11
        + get_field Inst.j_imm_10_1 inst * 2 ^ 1
unfolding Inst.j_offset
j_offset-sum inst =
    let top = Inst.shift_left (Inst.get_signed Inst.j_imm_20 inst) 20 in
    let b19 = get_field Inst.j_imm_19_12 inst * 2 ^ 12 in
    let b11 = get_field Inst.j_imm_11 inst * 2 ^ 11 in
    let b10 = get_field Inst.j_imm_10_1 inst * 2 ^ 1 in
    let l19 : get_field Inst.j_imm_19_12 inst < 256 = get-lt Inst.j_imm_19_12 inst in
    let l11 : get_field Inst.j_imm_11 inst < 2 = get-lt Inst.j_imm_11 inst in
    let l10 : get_field Inst.j_imm_10_1 inst < 1024 = get-lt Inst.j_imm_10_1 inst in
    let e1 : bit_or top b19 ≡ top + b19 =
      bit_or_add 20 top b19 (omega arith) (omega arith) (omega arith) in
    let e2 : bit_or (top + b19) b11 ≡ top + b19 + b11 =
      bit_or_add 12 (top + b19) b11 (omega arith) (omega arith) (omega arith) in
    let e3 : bit_or (top + b19 + b11) b10 ≡ top + b19 + b11 + b10 =
      bit_or_add 11 (top + b19 + b11) b10 (omega arith) (omega arith) (omega arith) in
    rw (e1, e2, e3) refl

-- The offset of JAL is read back as the manual encodes it, for every even offset of 21 bits and
-- whatever the other fields are.
pub j_offset-encode_j :
    (opcode dest offset : ℕ)
    → opcode < 2 ^ 7
    → dest < 2 ^ 5
    → offset < 2 ^ 21
    → offset % 2 ≡ 0
    → Inst.j_offset (encode_j opcode dest offset) ≡ sign_extend 21 offset
unfolding get_field
j_offset-encode_j opcode dest offset h1 h2 h3 h4 =
    let w = encode_j opcode dest offset in
    let f20 : get_field Inst.j_imm_20 w ≡ offset / 2 ^ 20 % 2 = omega arith in
    let f19 : get_field Inst.j_imm_19_12 w ≡ offset / 2 ^ 12 % 2 ^ 8 = omega arith in
    let f11 : get_field Inst.j_imm_11 w ≡ offset / 2 ^ 11 % 2 = omega arith in
    let f10 : get_field Inst.j_imm_10_1 w ≡ offset / 2 % 2 ^ 10 = omega arith in
    rw (j_offset-sum w, f20, f19, f11, f10) (ground arith)
