-- ===== src/Stream/Async.antt =====
-- source/async_stream.c: reads that fill a buffer. The stream of a user is `around`, which is given the space that is
-- left and answers a future; a future that is not done is so at a later step, which calls the job back.
use aws_c_io.Base.{
  ℕ, zero, suc, ◌+◌, ◌-◌, ◌*◌, ◌≤◌, ◌<◌, ◌≡◌, ◌⊎◌, Bool, true, false, ◌||◌, ◌&&◌, not, Option, none,
  some, List, [], ◌++◌, ◌==◌, leb, if◌then◌else◌, length, AwsError, is_some, arith, refl,
  Bool-cases, inl, inr, length-append,
}
use aws_c_io.Stream.{Buffer}

-- The future of a read: the bytes that it puts into the buffer until it is done, and its error or result
pub record ReadStep : Type 0 where
  pub bytes : List ℕ
  pub is_done : Bool
  pub error_code : Option AwsError
  pub eof : Bool

-- Where the job is: in its loop, called back by a future, or complete.
pub data JobState : Type 0 where
  running waiting : JobState
  finished : Option AwsError → Bool → JobState

-- struct aws_async_input_stream_fill_job
pub record FillJob (S : Type 0) : Type 0 where
  pub source : S
  pub dest : Buffer
  pub read_step : Option ReadStep
  pub state : JobState

abbrev pub space : Buffer → ℕ
space b = b.capacity - length b.content

abbrev pub is_full : Buffer → Bool
is_full b = length b.content == b.capacity

abbrev pub put : List ℕ → Buffer → Buffer
put bytes b = record b { content = b.content ++ bytes }

module _ {S : Type 0} (around : S → ℕ → S × ReadStep) where
  -- aws_async_input_stream_read, in the job's loop; `other_code` is AWS_ERROR_SHORT_BUFFER.
  pub start_read : FillJob S → FillJob S
  start_read j =
      let (source, st) = around j.source (space j.dest) in
      let short : ReadStep = record {
        bytes = [];
        is_done = true;
        error_code = some AwsError.other_code;
        eof = false;
      } in
      if is_full j.dest then record j { read_step = some short } else record j {
        source = source;
        dest = if st.is_done then put st.bytes j.dest else j.dest;
        read_step = some st;
      }

  -- A read that is done completes the job, or the next one follows.
  pub finish_read : ReadStep → FillJob S → FillJob S
  finish_read st j =
      if is_some st.error_code || st.eof || is_full j.dest
      then record j {
        read_step = none;
        state = finished st.error_code (not (is_some st.error_code) && st.eof);
      }
      else record j { read_step = none }

  -- s_async_stream_fill_job_loop: one round, or the callback that enters it
  pub fill_round : JobState → Option ReadStep → FillJob S → FillJob S
  unfolding start_read finish_read
  fill_round running none j = start_read j
  fill_round running (some st) j =
      if st.is_done then finish_read st j else record j { state = waiting }
  fill_round waiting none j = j
  fill_round waiting (some st) j = record j {
    dest = put st.bytes j.dest;
    read_step = some (record st { is_done = true });
    state = running;
  }
  fill_round (finished e eof) st j = j

  pub fill_loop : ℕ → FillJob S → FillJob S
  unfolding fill_round
  fill_loop zero j = j
  fill_loop (suc fuel) j = fill_loop fuel (fill_round j.state j.read_step j)

  -- aws_async_input_stream_read_to_fill
  pub read_to_fill : S → Buffer → FillJob S
  read_to_fill source dest = record {
    source = source;
    dest = dest;
    read_step = none;
    state = if is_full dest then finished (some AwsError.other_code) false else running;
  }

  abbrev ends : ReadStep → Bool
  ends st = is_some st.error_code || st.eof

  -- What the vtable asks of a read: it fits, and it reads a byte, comes to the end or fails.
  abbrev pub IsReader : Type 0
  IsReader =
      (s : S) (n : ℕ)
      → 0 < n
      → (length (around s n).1.bytes ≤ n)
        × ((ends (around s n).1 || leb 1 (length (around s n).1.bytes)) ≡ true)

  abbrev is_complete : JobState → Bool
  is_complete (finished e eof) = true
  is_complete other = false

  -- A job that is complete, with an error, at the end of the stream, or with a full buffer
  abbrev pub IsFilled : FillJob S → Type 0
  IsFilled j =
      (e : Option AwsError) × (eof : Bool) × (j.state ≡ finished e eof)
      × ((is_some e || eof || is_full j.dest) ≡ true)

  -- The rounds that are left
  abbrev rounds : JobState → Option ReadStep → Buffer → ℕ
  rounds running none b = 4 * space b + 4
  rounds running (some st) b =
      if st.is_done
      then (if ends st then 1 else 4 * space b + 5)
      else (if ends st then 3 else 4 * (space b - length st.bytes) + 7)
  rounds waiting none b = 0
  rounds waiting (some st) b = if ends st then 2 else 4 * (space b - length st.bytes) + 6
  rounds (finished e eof) st b = 0

  -- What is read fits. A job that waits has something to wait for; one that is complete has an error, has come to the
  -- end, or has filled the buffer.
  abbrev IsSound : JobState → Option ReadStep → Buffer → Type 0
  IsSound running none b = length b.content ≤ b.capacity
  IsSound running (some st) b =
      length b.content + (if st.is_done then 0 else length st.bytes) ≤ b.capacity
  IsSound waiting none b = ⊥
  IsSound waiting (some st) b = length b.content + length st.bytes ≤ b.capacity
  IsSound (finished e eof) st b = (is_some e || eof || is_full b) ≡ true

  abbrev job : JobState → Option ReadStep → S → Buffer → FillJob S
  job state r source dest = record { source = source; dest = dest; read_step = r; state = state }

  -- A job in its loop, after a round
  abbrev Advances : ℕ → FillJob S → Type 0
  Advances n j = (rounds j.state j.read_step j.dest < n) × IsSound j.state j.read_step j.dest

  start-Advances :
      (source : S) (dest : Buffer)
      → IsReader
      → length dest.content ≤ dest.capacity
      → Advances (rounds running none dest) (start_read (job running none source dest))
  unfolding start_read
  start-Advances source dest h s = ground (
    arith,
    h source (space dest),
    length-append dest.content (around source (space dest)).1.bytes,
  )

  finish-Advances :
      (st : ReadStep) (source : S) (dest : Buffer)
      → IsSound running (some st) dest
      → st.is_done ≡ true
      → Advances
          (rounds running (some st) dest)
          (finish_read st (job running (some st) source dest))
  unfolding finish_read
  finish-Advances st source dest s d = ground (arith, d)

  wake-Advances :
      (st : ReadStep) (source : S) (dest : Buffer)
      → IsSound waiting (some st) dest
      → Advances
          (rounds waiting (some st) dest)
          (fill_round waiting (some st) (job waiting (some st) source dest))
  unfolding fill_round
  wake-Advances st source dest s = ground (arith, length-append dest.content st.bytes)

  wait-Advances :
      (st : ReadStep) (source : S) (dest : Buffer)
      → IsSound running (some st) dest
      → st.is_done ≡ false
      → Advances (rounds running (some st) dest) (job waiting (some st) source dest)
  wait-Advances st source dest s d = ground (arith, d)

  if-Advances :
      (n : ℕ) (test : Bool) (x y : FillJob S)
      → (test ≡ true → Advances n x)
      → (test ≡ false → Advances n y)
      → Advances n (if test then x else y)
  if-Advances n true x y h g = h refl
  if-Advances n false x y h g = g refl

  round-Advances :
      (state : JobState) (r : Option ReadStep) (source : S) (dest : Buffer)
      → IsReader
      → IsSound state r dest
      → (is_complete state ≡ true)
        ⊎ Advances (rounds state r dest) (fill_round state r (job state r source dest))
  unfolding fill_round
  round-Advances running none source dest h s = inr (start-Advances source dest h s)
  round-Advances running (some st) source dest h s = inr (
      if-Advances (rounds running (some st) dest) st.is_done
        (finish_read st (job running (some st) source dest)) (job waiting (some st) source dest)
        (finish-Advances st source dest s) (wait-Advances st source dest s))
  round-Advances waiting none source dest h s = absurd s
  round-Advances waiting (some st) source dest h s = inr (wake-Advances st source dest s)
  round-Advances (finished e eof) r source dest h s = inl refl

  next_round :
      (fuel : ℕ) (state : JobState) (r : Option ReadStep) (source : S) (dest : Buffer)
      → IsReader
      → IsSound state r dest
      → rounds state r dest ≤ suc fuel
      → ((state' : JobState) (r' : Option ReadStep) (source' : S) (dest' : Buffer)
          → IsReader
          → IsSound state' r' dest'
          → rounds state' r' dest' ≤ fuel
          → IsFilled (fill_loop fuel (job state' r' source' dest')))
      → (is_complete state ≡ false)
      → IsFilled (fill_loop fuel (fill_round state r (job state r source dest)))
  next_round fuel state r source dest h s le rec open_job =
      elim (round-Advances state r source dest h s) [
        | inl q ↦ absurd (cc)
        | inr a ↦
            let j = fill_round state r (job state r source dest) in
            rec j.state j.read_step j.source j.dest h a.1 (omega (arith, a.0, le))
      ]

  fill_loop-IsFilled :
      (fuel : ℕ) (state : JobState) (r : Option ReadStep) (source : S) (dest : Buffer)
      → IsReader
      → IsSound state r dest
      → rounds state r dest ≤ fuel
      → IsFilled (fill_loop fuel (job state r source dest))
  unfolding fill_loop
  fill_loop-IsFilled zero (finished e eof) r source dest h s le = (e, eof, refl, s)
  fill_loop-IsFilled zero running none source dest h s le = absurd (omega (arith, le))
  fill_loop-IsFilled zero running (some st) source dest h s le = absurd (ground (arith, le))
  fill_loop-IsFilled zero waiting none source dest h s le = absurd s
  fill_loop-IsFilled zero waiting (some st) source dest h s le = absurd (ground (arith, le))
  fill_loop-IsFilled (suc fuel) (finished e eof) r source dest h s le =
      fill_loop-IsFilled fuel (finished e eof) r source dest h s (omega arith)
  fill_loop-IsFilled (suc fuel) running r source dest h s le =
      next_round fuel running r source dest h s le (fill_loop-IsFilled fuel) refl
  fill_loop-IsFilled (suc fuel) waiting r source dest h s le =
      next_round fuel waiting r source dest h s le (fill_loop-IsFilled fuel) refl

  -- A stream that does what the vtable asks for: the job of aws_async_input_stream_read_to_fill completes, however its
  -- reads do, with an error, at the end of the stream, or with a full buffer.
  pub fill_loop-read_to_fill :
      (source : S) (dest : Buffer)
      → IsReader
      → length dest.content ≤ dest.capacity
      → IsFilled (fill_loop (4 * space dest + 4) (read_to_fill source dest))
  unfolding read_to_fill
  fill_loop-read_to_fill source dest h s = elim (Bool-cases (is_full dest)) [
    | inl q ↦ rw q (
        fill_loop-IsFilled (4 * space dest + 4) (finished (some AwsError.other_code) false) none
          source dest h refl (omega arith))
    | inr q ↦
        rw q (fill_loop-IsFilled (4 * space dest + 4) running none source dest h s (omega arith))
  ]
