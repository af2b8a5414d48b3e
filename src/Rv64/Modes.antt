-- ===== src/Rv64/Modes.antt =====
-- The enumerations of modules/core/rv64/include/rv64_structs.h with their C values, and the
-- priority encoder of pending interrupts.
use m_emu.Base.{ℕ, ◌==◌, if◌then◌else◌}
use m_emu.Words.{test_bit}

pub data PrivMode : Type 0 where
  u_mode s_mode h_mode m_mode : PrivMode

-- The enumerator's value.
abbrev pub priv_num : PrivMode → ℕ
priv_num PrivMode.u_mode = 0
priv_num PrivMode.s_mode = 1
priv_num PrivMode.h_mode = 2
priv_num PrivMode.m_mode = 3

-- The cast `(PrivMode_e)v` of a two-bit field.
unfoldable pub to_priv : ℕ → PrivMode
to_priv v =
    if v == 0
    then PrivMode.u_mode
    else if v == 1
    then PrivMode.s_mode
    else if v == 2
    then PrivMode.h_mode
    else PrivMode.m_mode

pub data ExecFeedback : Type 0 where
  instr_misalign instr_acc_fault illegal_instr breakpoint : ExecFeedback
  load_misalign load_acc_fault store_misalign store_acc_fault : ExecFeedback
  ecall_from_user ecall_from_supervisor ecall_from_machine : ExecFeedback
  instr_pgfault load_pgfault store_pgfault exec_ok : ExecFeedback

abbrev pub exec_num : ExecFeedback → ℕ
exec_num ExecFeedback.instr_misalign = 0
exec_num ExecFeedback.instr_acc_fault = 1
exec_num ExecFeedback.illegal_instr = 2
exec_num ExecFeedback.breakpoint = 3
exec_num ExecFeedback.load_misalign = 4
exec_num ExecFeedback.load_acc_fault = 5
exec_num ExecFeedback.store_misalign = 6
exec_num ExecFeedback.store_acc_fault = 7
exec_num ExecFeedback.ecall_from_user = 8
exec_num ExecFeedback.ecall_from_supervisor = 9
exec_num ExecFeedback.ecall_from_machine = 11
exec_num ExecFeedback.instr_pgfault = 12
exec_num ExecFeedback.load_pgfault = 13
exec_num ExecFeedback.store_pgfault = 15
exec_num ExecFeedback.exec_ok = 24

pub data IntType : Type 0 where
  int_s_sw int_m_sw int_s_timer int_m_timer int_s_ext int_m_ext int_no_int : IntType

abbrev pub int_num : IntType → ℕ
int_num IntType.int_s_sw = 1
int_num IntType.int_m_sw = 3
int_num IntType.int_s_timer = 5
int_num IntType.int_m_timer = 7
int_num IntType.int_s_ext = 9
int_num IntType.int_m_ext = 11
int_num IntType.int_no_int = 24

unfoldable pub bits_to_int_type : ℕ → IntType
bits_to_int_type int_bits =
    if test_bit int_bits 11
    then IntType.int_m_ext
    else if test_bit int_bits 3
    then IntType.int_m_sw
    else if test_bit int_bits 7
    then IntType.int_m_timer
    else if test_bit int_bits 9
    then IntType.int_s_ext
    else if test_bit int_bits 1
    then IntType.int_s_sw
    else if test_bit int_bits 5
    then IntType.int_s_timer
    else IntType.int_no_int
