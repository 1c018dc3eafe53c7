-- ===== src/Errors.antt =====
-- The errors of internal/downloader and of internal/dao/downloader_dao.go, one constructor for
-- each message, and the errors of the operating system that these packages pass on.

pub data Error : Type 0 where
  -- bitset.go
  index_out_of_range : Error
  -- file_header.go
  read_magic_err not_olah_file unexpected_eof eof zero_block_size : Error
  file_too_large older_version newer_version : Error
  -- file.go
  already_open already_closed file_closed invalid_block_index block_size_mismatch : Error
  invalid_resize : Error
  -- package os
  no_such_file : Error
  -- downloader_dao.go
  model_file_not_exist : Error
