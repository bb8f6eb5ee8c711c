-- ===== src/Base/Error.antt =====
-- The error codes that the modelled functions raise, and the `int` that they return.
use mathlib.Core.Bool.{Bool, true, false}

-- AWS_ERROR_* and AWS_IO_* codes; `operation_cancelled` is AWS_ERROR_IO_OPERATION_CANCELLED.
pub data AwsError : Type 0 where
  invalid_argument invalid_state operation_cancelled unknown : AwsError
  retry_permission_denied max_retries_exceeded : AwsError
  channel_read_would_exceed_window channel_unknown_message_type : AwsError
  pem_malformed stream_invalid_seek_position : AwsError
  read_would_block socket_closed cant_accept_input : AwsError
  other_code : AwsError

-- AWS_OP_SUCCESS, or AWS_OP_ERR with the code that aws_last_error() returns.
pub data OpResult : Type 0 where
  success : OpResult
  failure : AwsError → OpResult

abbrev pub succeeded : OpResult → Bool
succeeded success = true
succeeded (failure e) = false

-- enum aws_task_status
pub data TaskStatus : Type 0 where
  run_ready canceled : TaskStatus
