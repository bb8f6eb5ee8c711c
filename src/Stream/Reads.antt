-- ===== src/Stream/Reads.antt =====
-- What the reads of the stream over a byte cursor in source/stream.c deliver.
use aws_c_io.Base.{
  take-drop, append_assoc, length-take, ℕ, zero, suc, ◌+◌, ◌-◌, ◌≤◌, ◌<◌, ◌≡◌, List, [], ◌∷◌, ◌++◌,
  length, take, drop, length-append, failure, stream_invalid_seek_position, refl, arith, min,
}
use aws_c_io.Stream.{
  ℤ, pos, negsuc, from_begin, from_end, CursorStream, Buffer, final_offset, seek, cursor_read,
  stream_read, read_size,
}

-- A read moves bytes from the front of the stream to the end of the buffer: none is lost, doubled or
-- changed, what the buffer held stays, and it takes as many as both sides allow.
pub stream_read_moves :
    (dest : Buffer) (s : CursorStream)
    → length dest.content ≤ dest.capacity
    → ((stream_read dest s).0.content ++ (stream_read dest s).1.current_cursor
        ≡ dest.content ++ s.current_cursor)
      × (length (stream_read dest s).0.content
          ≡ min dest.capacity (length dest.content + length s.current_cursor))
unfolding stream_read cursor_read
stream_read_moves dest s h =
    let n : ℕ = read_size (dest.capacity - length dest.content) s in
    ground (
      arith,
      append_assoc dest.content (take n s.current_cursor) (drop n s.current_cursor),
      take-drop n s.current_cursor,
      length-append dest.content (take n s.current_cursor),
      length-take n s.current_cursor,
    )

abbrev pub minus : ℕ → ℤ
minus zero = pos 0
minus (suc n) = negsuc n

abbrev pub empty_of : ℕ → Buffer
empty_of room = record { content = []; capacity = room }

take_all : (xs : List ℕ) (n : ℕ) → length xs ≤ n → take n xs ≡ take (length xs) xs
take_all [] zero h = refl
take_all [] (suc n) h = refl
take_all (x ∷ xs) zero h = ground arith
take_all (x ∷ xs) (suc n) h = ground (arith, take_all xs n)

take_zero : (n : ℕ) (xs : List ℕ) → n ≡ 0 → take n xs ≡ []
take_zero zero xs e = refl
take_zero (suc n) xs e = ground arith

read_from :
    (room : ℕ) (s : CursorStream)
    → (stream_read (empty_of room) s).0.content ≡ take room s.current_cursor
unfolding stream_read cursor_read
read_from room s = ground (arith, take_all s.current_cursor room, take_zero room s.current_cursor)

-- After a seek to a place in the stream, from its start or back from its end, a read into an empty
-- buffer gives the bytes from there on, as many as the buffer has room for.
pub stream_read-seek :
    (n room : ℕ) (s : CursorStream)
    → n ≤ length s.original_cursor
    → length s.original_cursor < 9223372036854775808
    → ((stream_read (empty_of room) (seek (pos n) from_begin s).0).0.content
        ≡ take room (drop n s.original_cursor))
      × ((stream_read (empty_of room) (seek (minus n) from_end s).0).0.content
          ≡ take room (drop (length s.original_cursor - n) s.original_cursor))
unfolding seek final_offset
stream_read-seek zero room s h g = ground (
  arith,
  read_from room s,
  read_from room (record s { current_cursor = s.original_cursor }),
  read_from room
      (record s { current_cursor = drop (length s.original_cursor - 0) s.original_cursor }),
)
stream_read-seek (suc n) room s h g = ground (
  arith,
  read_from room (record s { current_cursor = drop (suc n) s.original_cursor }),
  read_from room
      (record s { current_cursor = drop (length s.original_cursor - suc n) s.original_cursor }),
)

-- A seek beyond either end fails and leaves the stream where it is.
pub seek_beyond :
    (n : ℕ) (s : CursorStream)
    → length s.original_cursor < n
    → (seek (pos n) from_begin s ≡ (s, failure stream_invalid_seek_position))
      × (seek (minus n) from_begin s ≡ (s, failure stream_invalid_seek_position))
      × (seek (pos n) from_end s ≡ (s, failure stream_invalid_seek_position))
      × (seek (minus n) from_end s ≡ (s, failure stream_invalid_seek_position))
unfolding seek final_offset
seek_beyond zero s h = ground arith
seek_beyond (suc n) s h = ground arith
