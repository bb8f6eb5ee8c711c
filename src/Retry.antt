-- ===== src/Retry.antt =====
-- source/retry_strategy.c and the two strategies behind it: the types of
-- include/aws/io/retry_strategy.h that both share.
pub mod Backoff
pub mod Standard

-- enum aws_retry_error_type
pub data RetryErrorType : Type 0 where
  transient throttling server_error client_error : RetryErrorType
