-- ===== src/Protocol/JsonText.antt =====
-- How a JSON text is cleaned before it is parsed, and its first value: `normalize_cjson_whitespace` and
-- `json_first_value` of riperf3/src/protocol.rs.
pub mod Pieces
use riperf.Base.{
  ℕ, Bool, true, false, not, ◌&&◌, ◌||◌, List, [], ◌∷◌, Option, none, some, Bytes, any, ltb, leb,
  ◌==◌, if◌then◌else◌,
}

-- What cJSON skips between tokens and serde does not
abbrev pub is_ctrl_ws : ℕ → Bool
is_ctrl_ws b = leb 0x01 b && ltb b 0x20 && not (b == b'\t' || b == b'\n' || b == b'\r')

abbrev pub quote : ℕ
quote = b'"'

abbrev pub backslash : ℕ
backslash = b'\\'

-- The loop over the bytes, from `in_string` and `escaped`.
unfoldable pub normalized : Bool → Bool → Bytes → Bytes
normalized in_string escaped [] = []
normalized true true (b ∷ r) = b ∷ normalized true false r
normalized true false (b ∷ r) =
    let behind_backslash = normalized true true r in
    let behind_string = normalized false false r in
    let inside = normalized true false r in
    if b == backslash
    then b ∷ behind_backslash
    else if b == quote
    then b ∷ behind_string
    else b ∷ inside
normalized false escaped (b ∷ r) =
    let inside = normalized true escaped r in
    let outside = normalized false escaped r in
    if b == quote then b ∷ inside else if is_ctrl_ws b then b' ' ∷ outside else b ∷ outside

unfoldable pub normalize_cjson_whitespace : Bytes → Bytes
unfolding normalized
normalize_cjson_whitespace buf =
    if not (any is_ctrl_ws buf) then buf else normalized false false buf

-- `strip_prefix(UTF8_BOM).unwrap_or(buf)`
unfoldable pub strip_bom : Bytes → Bytes
strip_bom (a ∷ b ∷ c ∷ r) = if a == 0xEF && b == 0xBB && c == 0xBF then r else a ∷ b ∷ c ∷ r
strip_bom buf = buf

-- serde's stream of the values of a text: its first one, or the end; and its parser of a whole text.
module _ (J : Type 0) (next : Bytes → Option (Option J)) (from_slice : Bytes → Option J) where
  unfoldable pub json_first_value : Bytes → Option J
  unfolding strip_bom normalize_cjson_whitespace
  json_first_value buf =
      let text = normalize_cjson_whitespace (strip_bom buf) in
      elim (next text) [ some v ↦ v | none ↦ from_slice text ]
