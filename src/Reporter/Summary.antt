-- ===== src/Reporter/Summary.antt =====
-- `StreamSummary`, `sum_summaries` and `final_summary_rows` of riperf3/src/reporter.rs. A role tag is its
-- bytes; the sums of packets are integers, which an i64 holds.
use riperf.Base.{
  ℕ, ◌%◌, ◌^◌, Bool, true, false, ◌&&◌, not, List, [], ◌∷◌, ◌++◌, Option, none, some, ℤ, pos,
  negsuc, ◌+ℤ◌, Bytes, bytes_eq, any, keep, sum, map, length, if◌then◌else◌, is_some,
}
use riperf.Base.Float.{Float}

pub record StreamSummary (F : Float) : Type 0 where
  pub stream_id : ℤ
  pub start : F.Carrier
  pub end : F.Carrier
  pub bytes : ℕ
  pub is_sender : Bool
  pub retransmits : Option ℤ
  pub jitter : Option F.Carrier
  pub lost : Option ℤ
  pub total_packets : Option ℤ
  pub role_tag : Option Bytes

-- A group: the role tag and whether its streams send.
abbrev pub Key : Type 0
Key = Option Bytes × Bool

abbrev pub tag_eq : Option Bytes → Option Bytes → Bool
tag_eq none none = true
tag_eq (some a) (some b) = bytes_eq a b
tag_eq none (some b) = false
tag_eq (some a) none = false

abbrev pub bool_eq : Bool → Bool → Bool
bool_eq true b = b
bool_eq false b = not b

abbrev pub key_eq : Key → Key → Bool
key_eq a b = tag_eq a.0 b.0 && bool_eq a.1 b.1

-- The values of a list of options
abbrev pub present {ℓ} : {A : Type ℓ} → List (Option A) → List A
present [] = []
present (none ∷ os) = present os
present (some a ∷ os) = a ∷ present os

abbrev pub sum_ℤ : List ℤ → ℤ
sum_ℤ [] = pos 0
sum_ℤ (x ∷ xs) = x +ℤ sum_ℤ xs

abbrev pub sum_f64 : (F : Float) → F.Carrier → List F.Carrier → F.Carrier
sum_f64 F acc [] = acc
sum_f64 F acc (x ∷ xs) = sum_f64 F (F.add acc x) xs

module _ {F : Float} where
  open F use {div, of_ℕ}

  abbrev pub key : StreamSummary F → Key
  key s = (s.role_tag, s.is_sender)

  -- The keys in the order in which they first occur, behind those found already.
  unfoldable pub collect_keys : List Key → List (StreamSummary F) → List Key
  collect_keys keys [] = keys
  collect_keys keys (s ∷ ss) =
      if any (key_eq (key s)) keys
      then collect_keys keys ss
      else collect_keys (keys ++ key s ∷ []) ss

  abbrev pub group : Key → List (StreamSummary F) → List (StreamSummary F)
  group k = keep (λ s. key_eq (key s) k)

  -- The row of a group, if it has more than one stream.
  unfoldable pub sum_row : Key → List (StreamSummary F) → Option (StreamSummary F)
  sum_row k [] = none
  sum_row k (g ∷ []) = none
  sum_row k (g ∷ h ∷ r) =
      let streams = g ∷ h ∷ r in
      let is_udp = any (λ s. is_some s.total_packets) streams in
      let jitters = present (map (λ s. s.jitter) streams) in
      let mean = div (sum_f64 F (of_ℕ 0) jitters) (of_ℕ (length streams)) in
      some (record {
        stream_id = negsuc 0;
        start = g.start;
        end = g.end;
        bytes = sum (map (λ s. s.bytes) streams) % 2 ^ 64;
        is_sender = k.1;
        retransmits =
            if any (λ s. is_some s.retransmits) streams
            then some (sum_ℤ (present (map (λ s. s.retransmits) streams)))
            else none;
        jitter = if is_udp && any (λ s. is_some s.jitter) streams then some mean else none;
        lost = if is_udp then some (sum_ℤ (present (map (λ s. s.lost) streams))) else none;
        total_packets =
            if is_udp then some (sum_ℤ (present (map (λ s. s.total_packets) streams))) else none;
        role_tag = k.0;
      })

  -- The rows of the groups, those with one stream passed over.
  unfoldable pub sum_rows : List Key → List (StreamSummary F) → List (StreamSummary F)
  unfolding sum_row
  sum_rows keys streams = present (map (λ k. sum_row k (group k streams)) keys)

  unfoldable pub sum_summaries : List (StreamSummary F) → List (StreamSummary F)
  unfolding collect_keys sum_rows
  sum_summaries streams = sum_rows (collect_keys [] streams) streams

  unfoldable pub final_summary_rows : List (StreamSummary F) → List (StreamSummary F)
  unfolding sum_summaries
  final_summary_rows per_stream = per_stream ++ sum_summaries per_stream
