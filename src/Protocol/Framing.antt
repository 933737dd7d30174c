-- ===== src/Protocol/Framing.antt =====
-- The length-prefixed JSON messages of riperf3/src/protocol.rs and the results read. A connection is
-- what its next reads find: bytes, the end, or an error. Memory is taken to be available.
pub mod Segments
pub mod Warnings
use riperf.Base.{
  ℕ, zero, suc, ◌+◌, ◌-◌, ◌%◌, ◌^◌, Bool, true, false, not, ◌&&◌, ◌||◌, List, [], ◌∷◌, ◌++◌, Option,
  none, some, ℤ, pos, Bytes, ltb, leb, ◌==◌, if◌then◌else◌, length, take, drop, min, get_or, word32,
  signed32, is_some,
}

-- The end stands for the peer's, and for the idle and overall bounds.
pub data Arrival : Type 0 where
  data_in : Bytes → Arrival
  ended : Arrival
  failed : ℕ → Arrival

abbrev pub Connection : Type 0
Connection = List Arrival

pub data Read : Type 0 where
  bytes : Bytes → Read
  end_of_stream : Read
  read_error : ℕ → Read

-- A read of at most `n` bytes; what it does not take stays. Nothing more to come is the deadline.
unfoldable pub nread_step : ℕ → Connection → Read × Connection
nread_step n [] = (end_of_stream, [])
nread_step n (data_in [] ∷ c) = (end_of_stream, c)
nread_step n (data_in (b ∷ bs) ∷ c) =
    if leb (length (b ∷ bs)) n
    then (bytes (b ∷ bs), c)
    else (bytes (take n (b ∷ bs)), data_in (drop n (b ∷ bs)) ∷ c)
nread_step n (ended ∷ c) = (end_of_stream, c)
nread_step n (failed e ∷ c) = (read_error e, c)

-- All the bytes, or those that came before the end or the error.
pub data Filled : Type 0 where
  full : Bytes → Filled
  short : Bytes → Filled
  broken : ℕ → Bytes → Filled

-- The loop that reads until `want` more bytes are in, at most `chunk` at a time, behind those it has.
-- Each read brings a byte or ends it, so `want` rounds are enough.
unfoldable pub fill : ℕ → ℕ → ℕ → Bytes → Connection → Filled × Connection
unfolding nread_step
fill fuel chunk zero got c = (full got, c)
fill zero chunk (suc want) got c = (short got, c)
fill (suc fuel) chunk (suc want) got c =
    let (r, c') = nread_step (min chunk (suc want)) c in
    elim r [
      | bytes b ↦ fill fuel chunk (suc want - length b) (got ++ b) c'
      | end_of_stream ↦ (short got, c')
      | read_error e ↦ (broken e got, c')
    ]

abbrev pub nread_exact : ℕ → Connection → Filled × Connection
unfolding fill
nread_exact want c = fill want want want [] c

-- `u32::from_be_bytes`
abbrev pub prefix_len : Bytes → ℕ
prefix_len b = word32 (get_or b 0 0) (get_or b 1 0) (get_or b 2 0) (get_or b 3 0)

-- The errors of the reads
pub data ReadFailure : Type 0 where
  unexpected_eof : ReadFailure
  io : ℕ → ReadFailure
  too_large : ℕ → ℕ → ReadFailure
  bad_json : ReadFailure

pub data JsonRead (J : Type 0) : Type 0 where
  value : J → JsonRead J
  failure : ReadFailure → JsonRead J

-- The warnings of the results read
pub data Warning : Type 0 where
  size_short : ℕ → Warning
  size_failed : ℕ → Warning
  zero_size : Warning
  body_short : ℤ → ℤ → Warning
  body_failed : ℕ → Warning

pub data ResultsRead (J : Type 0) : Type 0 where
  results : J → ResultsRead J
  -- `RecvResultsFailed`, with the warning if there is one
  recv_results_failed : Option Warning → ResultsRead J

-- The chunk of a read
abbrev pub read_chunk : ℕ
read_chunk = 65536

-- A JSON type with its parser of the first value of a text.
module _ (J : Type 0) (json_first_value : Bytes → Option J) where
  json_value : Filled × Connection → JsonRead J × Connection
  json_value (short b, c) = (failure unexpected_eof, c)
  json_value (broken e b, c) = (failure (io e), c)
  json_value (full body, c) = elim (json_first_value body) [
    | none ↦ (failure bad_json, c)
    | some v ↦ (value v, c)
  ]

  json_sized : ℕ → Filled × Connection → JsonRead J × Connection
  unfolding json_value
  json_sized max_len (short b, c) = (failure unexpected_eof, c)
  json_sized max_len (broken e b, c) = (failure (io e), c)
  json_sized max_len (full b, c) =
      let len = prefix_len b in
      if ltb 0 max_len && ltb max_len len
      then (failure (too_large len max_len), c)
      else json_value (nread_exact len c)

  unfoldable pub json_read_bounded : ℕ → Connection → JsonRead J × Connection
  unfolding json_sized
  json_read_bounded max_len c = json_sized max_len (nread_exact 4 c)

  results_value : ℕ → Filled × Connection → ResultsRead J × Connection
  results_value len (short b, c) = (
    recv_results_failed
        (some (body_short (signed32 (len % 2 ^ 32)) (signed32 (length b % 2 ^ 32)))),
    c,
  )
  results_value len (broken e b, c) = (recv_results_failed (some (body_failed e)), c)
  results_value len (full body, c) = elim (json_first_value body) [
    | none ↦ (recv_results_failed none, c)
    | some v ↦ (results v, c)
  ]

  results_sized : Filled × Connection → ResultsRead J × Connection
  unfolding fill results_value
  results_sized (short b, c) = (recv_results_failed (some (size_short (length b))), c)
  results_sized (broken e b, c) = (recv_results_failed (some (size_failed e)), c)
  results_sized (full b, c) =
      let len = prefix_len b in
      if len == 0
      then (recv_results_failed (some zero_size), c)
      else results_value len (fill len (min read_chunk len) len [] c)

  -- `recv_results`, up to the validation of the value
  unfoldable pub recv_results : Connection → ResultsRead J × Connection
  unfolding results_sized
  recv_results c = results_sized (nread_exact 4 c)
