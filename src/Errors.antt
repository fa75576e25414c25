-- ===== src/Errors.antt =====
-- The errors of pkg/errors/errors.go, of the buffers and of the standard library that the modelled
-- code returns or tests for. A nil error is `none`.
use wsgnet.Prelude.{ℕ}

pub data Error : Type 0 where
  -- ring.ErrIsEmpty, io.EOF, io.ErrShortWrite, io.ErrShortBuffer
  is_empty eof short_write short_buffer : Error
  -- errors.ErrNegativeSize, errors.ErrUnsupportedOp, errors.ErrEngineShutdown
  negative_size unsupported_op engine_shutdown : Error
  -- unix.EAGAIN, and any other error of a system call, a reader or a writer
  again : Error
  other : ℕ → Error
