-- ===== src/Stream/Header/RoundTrip.antt =====
-- A header is read back from the bytes it was written to.
use riperf.Base.{
  ◌%◌, ◌^◌, ◌≤◌, ◌<◌, ◌≡◌, Bool, true, false, ◌∷◌, ◌++◌, some, arith, if◌then◌else◌, length,
  length-drop, drop, Bytes, be32, be64,
}
use riperf.Stream.Header.{UdpHeader, wire_size, write_to, read_from}

-- The bytes that `write_to` puts at the front.
abbrev pub header_bytes : UdpHeader → Bool → Bytes
header_bytes h use_64bit =
    be32 h.sec ++ be32 h.usec ++ (if use_64bit then be64 h.seq else be32 (h.seq % 2 ^ 32))

write_to_lem :
    (h : UdpHeader) (buf : Bytes) (b : Bool)
    → wire_size b ≤ length buf
    → write_to h buf b ≡ some (header_bytes h b ++ drop (wire_size b) buf)
unfolding write_to
write_to_lem h (a0 ∷ a1 ∷ a2 ∷ a3 ∷ a4 ∷ a5 ∷ a6 ∷ a7 ∷ a8 ∷ a9 ∷ a10 ∷ a11 ∷ r) false e =
    ground arith
write_to_lem h
      (a0 ∷ a1 ∷ a2 ∷ a3 ∷ a4 ∷ a5 ∷ a6 ∷ a7 ∷ a8 ∷ a9 ∷ a10 ∷ a11 ∷ a12 ∷ a13 ∷ a14 ∷ a15 ∷ r) true
      e =
    ground arith
write_to_lem h _ true e = absurd (omega arith)
write_to_lem h _ false e = absurd (omega arith)

-- A header whose fields fit their words, written to a buffer that has room for it, is read back
-- from the result, with the low 32 bits of its sequence number when the counters are 32 bits wide.
pub read_from-write_to :
    (h : UdpHeader) (buf : Bytes) (b : Bool)
    → h.sec < 2 ^ 32
    → h.usec < 2 ^ 32
    → h.seq < 2 ^ 64
    → wire_size b ≤ length buf
    → (out : Bytes) × (write_to h buf b ≡ some out)
      × (length out ≡ length buf)
      × (read_from out b ≡ some (record h { seq = if b then h.seq else h.seq % 2 ^ 32 }))
unfolding read_from
read_from-write_to h buf true p q r e = (
  header_bytes h true ++ drop (wire_size true) buf,
  write_to_lem h buf true e,
  omega (arith, length-drop 16 buf),
  ground arith,
)
read_from-write_to h buf false p q r e = (
  header_bytes h false ++ drop (wire_size false) buf,
  write_to_lem h buf false e,
  omega (arith, length-drop 12 buf),
  ground arith,
)
