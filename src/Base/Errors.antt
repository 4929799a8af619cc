-- ===== src/Base/Errors.antt =====
-- include/error.h: the codes, by name.
pub data ErrorCode : Type 0 where
  err_ok err_inval_arg err_not_init err_not_implemented err_fatal err_memalloc err_no_resource :
      ErrorCode
  err_not_found err_busy err_generic err_align err_timeout err_retry : ErrorCode
