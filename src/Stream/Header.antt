-- ===== src/Stream/Header.antt =====
-- The header of a UDP datagram (`UdpHeader` of riperf3/src/stream.rs). A write out of the buffer's
-- range, where the source panics, is `none`.
pub mod RoundTrip
use riperf.Base.{
  ℕ, suc, ◌+◌, ◌*◌, ◌/◌, ◌%◌, ◌^◌, Bool, true, false, List, [], ◌∷◌, ◌++◌, Option, none, some, ltb,
  if◌then◌else◌, length, get_or, take, drop, Bytes, be32, be64, word32,
}

pub record UdpHeader : Type 0 where
  pub sec : ℕ  -- u32
  pub usec : ℕ  -- u32
  pub seq : ℕ  -- u64

abbrev pub udp_header_size_32 : ℕ
udp_header_size_32 = 12

abbrev pub udp_header_size_64 : ℕ
udp_header_size_64 = 16

abbrev pub wire_size : Bool → ℕ
wire_size use_64bit = if use_64bit then udp_header_size_64 else udp_header_size_32

-- `buf[off..off + n].copy_from_slice(src)`, with n the length of `src`
copy_at : ℕ → Bytes → Bytes → Option Bytes
copy_at off src buf =
    if ltb (length buf) (off + length src)
    then none
    else some (take off buf ++ src ++ drop (off + length src) buf)

infixl 5 ◌>>=◌
abbrev ◌>>=◌ : {A B : Type 0} → Option A → (A → Option B) → Option B
none >>= f = none
some a >>= f = f a

unfoldable pub write_to : UdpHeader → Bytes → Bool → Option Bytes
unfolding copy_at
write_to h buf use_64bit = do
  b₁ ← copy_at 0 (be32 h.sec) buf
  b₂ ← copy_at 4 (be32 h.usec) b₁
  if use_64bit then copy_at 8 (be64 h.seq) b₂ else copy_at 8 (be32 (h.seq % 2 ^ 32)) b₂

-- `u32::from_be_bytes(buf[off..off + 4])`, once the buffer is long enough
abbrev word_at : Bytes → ℕ → ℕ
word_at buf off =
    word32 (get_or buf off 0) (get_or buf (off + 1) 0) (get_or buf (off + 2) 0)
      (get_or buf (off + 3) 0)

unfoldable pub read_from : Bytes → Bool → Option UdpHeader
read_from buf use_64bit =
    if ltb (length buf) (wire_size use_64bit)
    then none
    else some (record {
      sec = word_at buf 0;
      usec = word_at buf 4;
      seq = if use_64bit then word_at buf 8 * 2 ^ 32 + word_at buf 12 else word_at buf 8;
    })
