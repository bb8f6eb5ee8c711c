-- ===== src/Stream/Tests.antt =====
-- Runs of the stream over a byte cursor of source/stream.c.
use aws_c_io.Base.{ℕ, List, true, false, none, refl, ◌≡◌, [], ◌∷◌, arith}
use aws_c_io.Stream.{CursorStream, Buffer, pos, from_begin, from_end, seek, stream_read}
use aws_c_io.Stream.Reads.{stream_read-seek, empty_of, minus}
use aws_c_io.Stream.Async.{
  ReadStep, IsReader, IsFilled, fill_loop, read_to_fill, fill_loop-read_to_fill,
}

-- The bytes 1 to 4, of which the first has been read.
abbrev bytes : CursorStream
bytes = record { original_cursor = 1 ∷ 2 ∷ 3 ∷ 4 ∷ []; current_cursor = 2 ∷ 3 ∷ 4 ∷ [] }

abbrev partly_full : Buffer
partly_full = record { content = 9 ∷ []; capacity = 3 }

stream_read-seek_example :
    ((stream_read (empty_of 2) (seek (pos 1) from_begin bytes).0).0.content ≡ 2 ∷ 3 ∷ [])
    × ((stream_read (empty_of 2) (seek (minus 1) from_end bytes).0).0.content ≡ 4 ∷ [])
stream_read-seek_example = stream_read-seek 1 2 bytes (omega arith) (omega arith)

-- A stream that reads one byte at a time, each read done later, until its end
abbrev one_byte : List ℕ → ℕ → List ℕ × ReadStep
one_byte [] n = ([], record { bytes = []; is_done = true; error_code = none; eof = true })
one_byte (x ∷ xs) n =
    (xs, record { bytes = x ∷ []; is_done = false; error_code = none; eof = false })

one_byte-IsReader : IsReader one_byte
one_byte-IsReader [] n h = (omega arith, refl)
one_byte-IsReader (x ∷ xs) n h = (omega (arith, h), refl)

fill_loop-read_to_fill_example : IsFilled one_byte (
    fill_loop one_byte 12
      (read_to_fill one_byte (7 ∷ 8 ∷ 9 ∷ []) (record { content = 5 ∷ []; capacity = 3 })))
fill_loop-read_to_fill_example =
    fill_loop-read_to_fill one_byte (7 ∷ 8 ∷ 9 ∷ []) (record { content = 5 ∷ []; capacity = 3 })
      one_byte-IsReader (omega arith)
