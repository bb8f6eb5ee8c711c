-- ===== src/Stream.antt =====
-- source/stream.c: aws_input_stream_read and the stream over a byte cursor. A cursor is the list of
-- its bytes; the buffer that is read into is what it holds and a capacity.
pub mod Async
pub mod Reads
mod Tests
use aws_c_io.Base.{
  ℕ, zero, suc, ◌+◌, ◌-◌, Bool, true, false, ◌||◌, Option, none, some, List, [], ◌∷◌, ◌++◌, ◌==◌,
  if◌then◌else◌, ltb, leb, length, take, drop, AwsError, OpResult, success, failure,
  invalid_argument, stream_invalid_seek_position,
}

-- int64_t
pub data ℤ : Type 0 where
  pos negsuc : ℕ → ℤ

-- enum aws_stream_seek_basis, with any other value
pub data SeekBasis : Type 0 where
  from_begin from_end other_basis : SeekBasis

-- struct aws_input_stream_byte_cursor_impl
pub record CursorStream : Type 0 where
  pub original_cursor : List ℕ
  pub current_cursor : List ℕ

-- struct aws_byte_buf
pub record Buffer : Type 0 where
  pub content : List ℕ
  pub capacity : ℕ

-- The offset from the start that is asked for, where it lies in the stream.
abbrev within : ℕ → ℕ → Option ℕ
within n len = if ltb len n then none else some n

abbrev before_end : ℕ → ℕ → Option ℕ
before_end n len = if ltb len n then none else some (len - n)

pub final_offset : ℤ → SeekBasis → ℕ → Option ℕ
final_offset (pos n) from_begin len = within n len
final_offset (negsuc n) from_begin len = none
final_offset (pos n) from_end len = if ltb 0 n then none else some (len - 0)
final_offset (negsuc n) from_end len =
    if n == 9223372036854775807 then none else before_end (suc n) len
final_offset offset other_basis len = none

abbrev seek_error : SeekBasis → AwsError
seek_error other_basis = invalid_argument
seek_error _ = stream_invalid_seek_position

-- s_aws_input_stream_byte_cursor_seek
pub seek : ℤ → SeekBasis → CursorStream → CursorStream × OpResult
unfolding final_offset
seek offset basis s = elim (final_offset offset basis (length s.original_cursor)) [
  | none ↦ (s, failure (seek_error basis))
  | some n ↦ (record s { current_cursor = drop n s.original_cursor }, success)
]

-- s_aws_input_stream_byte_cursor_read, for a buffer that it is handed empty
abbrev pub read_size : ℕ → CursorStream → ℕ
read_size room s = if ltb (length s.current_cursor) room then length s.current_cursor else room

pub cursor_read : ℕ → CursorStream → CursorStream × List ℕ
cursor_read room s = (
  record s { current_cursor = drop (read_size room s) s.current_cursor },
  take (read_size room s) s.current_cursor,
)

-- aws_input_stream_read: the stream fills a buffer that starts behind what there is.
pub stream_read : Buffer → CursorStream → Buffer × CursorStream
unfolding cursor_read
stream_read dest s =
    if dest.capacity == length dest.content
    then (dest, s)
    else (let r = cursor_read (dest.capacity - length dest.content) s in
        (record dest { content = dest.content ++ r.1 }, r.0))

-- s_aws_input_stream_byte_cursor_get_status, which is always valid
pub is_end_of_stream : CursorStream → Bool
is_end_of_stream s = length s.current_cursor == 0

-- s_aws_input_stream_byte_cursor_get_length; `none` is AWS_ERROR_OVERFLOW_DETECTED.
pub get_length : CursorStream → Option ℤ
get_length s =
    if ltb 9223372036854775807 (length s.original_cursor)
    then none
    else some (pos (length s.original_cursor))
