-- ===== src/Device/Feedback.antt =====
-- What a call between the parts of the machine reports (M-EMU/include/misc/status_enum.h).

-- FuncReturnFeedback_e
pub data ReturnFeedback : Type 0 where
  ok invalid_param null_ptr addr_conflict intnum_conflict invalid_state not_found : ReturnFeedback
  not_accessible data_modified file_open_err timeout alignment_error : ReturnFeedback
  invalid_addr panic unknown not_impl protocol_err chksum_err module_missing_env : ReturnFeedback
