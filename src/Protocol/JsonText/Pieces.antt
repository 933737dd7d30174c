-- ===== src/Protocol/JsonText/Pieces.antt =====
-- Which bytes of a JSON text the cleaning changes.
use riperf.Base.{
  ℕ, ◌≡◌, refl, sym, ◌∙◌, ap, Bool, true, false, List, [], ◌∷◌, ◌++◌, map, Bytes, any, All, ◌==◌,
  if◌then◌else◌, arith, Bool-cases, inl, inr,
}
use riperf.Protocol.JsonText.{is_ctrl_ws, quote, backslash, normalized, normalize_cjson_whitespace}

-- A character of a string: one byte, or a backslash and the byte behind it.
pub data StringChar : Type 0 where
  plain : ℕ → StringChar
  escape : ℕ → StringChar

-- A text is bytes outside of strings, and strings.
pub data Piece : Type 0 where
  outside : ℕ → Piece
  text : List StringChar → Piece

abbrev pub IsChar : StringChar → Type 0
IsChar (plain b) = ((b == quote) ≡ false) × ((b == backslash) ≡ false)
IsChar (escape b) = Unit

abbrev pub IsPiece : Piece → Type 0
IsPiece (outside b) = (b == quote) ≡ false
IsPiece (text cs) = All IsChar cs

abbrev pub chars : List StringChar → Bytes
chars [] = []
chars (plain b ∷ cs) = b ∷ chars cs
chars (escape b ∷ cs) = backslash ∷ b ∷ chars cs

abbrev pub written : List Piece → Bytes
written [] = []
written (outside b ∷ ps) = b ∷ written ps
written (text cs ∷ ps) = quote ∷ (chars cs ++ quote ∷ written ps)

-- A blank for each control byte outside of strings
abbrev pub blanked : Piece → Piece
blanked (outside b) = outside (if is_ctrl_ws b then b' ' else b)
blanked (text cs) = text cs

normalized-chars :
    (cs : List StringChar) (r : Bytes)
    → All IsChar cs
    → normalized true false (chars cs ++ quote ∷ r) ≡ chars cs ++ quote ∷ normalized false false r
unfolding normalized
normalized-chars [] r h = refl
normalized-chars (plain b ∷ cs) r (h, k) = rw (normalized, h.1, h.0, normalized-chars cs r k) refl
normalized-chars (escape b ∷ cs) r (h, k) = rw (normalized-chars cs r k) refl

normalized-written :
    (ps : List Piece)
    → All IsPiece ps
    → normalized false false (written ps) ≡ written (map blanked ps)
unfolding normalized
normalized-written [] h = refl
normalized-written (outside b ∷ ps) (h, k) = elim (Bool-cases (is_ctrl_ws b)) [
  | inl e ↦ rw (h, e, normalized-written ps k) refl
  | inr e ↦ rw (h, e, normalized-written ps k) refl
]
normalized-written (text cs ∷ ps) (h, k) =
    ap (◌∷◌ quote) (
      normalized-chars cs (written ps) h
      ∙ ap (λ r. chars cs ++ quote ∷ r) (normalized-written ps k))

any_tail : (b : ℕ) (r : Bytes) → any is_ctrl_ws (b ∷ r) ≡ false → any is_ctrl_ws r ≡ false
any_tail b r e = ground (arith, e)

any_head : (b : ℕ) (r : Bytes) → any is_ctrl_ws (b ∷ r) ≡ false → is_ctrl_ws b ≡ false
any_head b r e = ground (arith, e)

-- With no such byte the loop changes nothing.
normalized_clean :
    (in_string escaped : Bool) (buf : Bytes)
    → any is_ctrl_ws buf ≡ false
    → normalized in_string escaped buf ≡ buf
unfolding normalized
normalized_clean true true [] e = refl
normalized_clean true false [] e = refl
normalized_clean false escaped [] e = refl
normalized_clean true true (b ∷ r) e = ap (◌∷◌ b) (normalized_clean true false r (any_tail b r e))
normalized_clean true false (b ∷ r) e =
    let clean = any_tail b r e in
    ground (
      arith,
      normalized_clean true true r clean,
      normalized_clean false false r clean,
      normalized_clean true false r clean,
    )
normalized_clean false escaped (b ∷ r) e =
    let clean = any_tail b r e in
    ground (
      arith,
      any_head b r e,
      normalized_clean true escaped r clean,
      normalized_clean false escaped r clean,
    )

-- In a text of bytes outside of strings and of strings, the cleaning puts a blank for each control byte from
-- 0x01 to 0x1F that is outside of the strings, but for tab, newline and carriage return, and changes nothing
-- else.
pub normalize_cjson_whitespace-written :
    (ps : List Piece)
    → All IsPiece ps
    → normalize_cjson_whitespace (written ps) ≡ written (map blanked ps)
unfolding normalize_cjson_whitespace
normalize_cjson_whitespace-written ps h = elim (Bool-cases (any is_ctrl_ws (written ps))) [
  | inl dirty ↦ rw (dirty) (normalized-written ps h)
  | inr clean ↦
      rw (clean) (sym (normalized_clean false false (written ps) clean) ∙ normalized-written ps h)
]

pub normalize_cjson_whitespace_clean :
    (buf : Bytes) → any is_ctrl_ws buf ≡ false → normalize_cjson_whitespace buf ≡ buf
unfolding normalize_cjson_whitespace
normalize_cjson_whitespace_clean buf e = rw e refl
