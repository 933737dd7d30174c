-- ===== src/Base/Text.antt =====
-- Methods of `str` on the bytes of a text. Blanks are the ASCII ones.
use Prim.Native.Nat.{ℕ}
use mathlib.Core.Bool.{Bool, false, ◌||◌}
use mathlib.Core.Option.{Option, none, some}
use mathlib.Core.List.{List, [], ◌∷◌, ◌++◌}
use riperf.Base.Tests.{leb, ◌==◌, if◌then◌else◌}
use riperf.Base.Words.{Bytes}

abbrev pub is_space : ℕ → Bool
is_space c = (if leb 9 c then leb c 13 else false) || c == 32

abbrev pub trim_start : Bytes → Bytes
trim_start [] = []
trim_start (c ∷ s) = let rest = trim_start s in if is_space c then rest else c ∷ s

-- The end is cut where only blanks follow.
abbrev pub trim_end : Bytes → Bytes
trim_end [] = []
trim_end (c ∷ s) = let rest = trim_end s in elim (trim_start (c ∷ s)) [ [] ↦ [] | _ ∷ _ ↦ c ∷ rest ]

unfoldable pub trim : Bytes → Bytes
trim s = trim_end (trim_start s)

-- `strip_prefix`
unfoldable pub strip_prefix : Bytes → Bytes → Option Bytes
strip_prefix [] s = some s
strip_prefix (p ∷ ps) [] = none
strip_prefix (p ∷ ps) (c ∷ s) = let rest = strip_prefix ps s in if p == c then rest else none

-- `split_once` at a byte
unfoldable pub split_once : ℕ → Bytes → Option (Bytes × Bytes)
split_once sep [] = none
split_once sep (c ∷ s) =
    let rest : Option (Bytes × Bytes) = elim (split_once sep s) [
      | none ↦ none
      | some (a, b) ↦ some (c ∷ a, b)
    ] in
    if c == sep then some ([], s) else rest

-- The end of a line: a carriage return before the newline goes with it.
abbrev pub strip_cr : Bytes → Bytes
strip_cr [] = []
strip_cr (c ∷ []) = if c == b'\r' then [] else c ∷ []
strip_cr (c ∷ d ∷ s) = c ∷ strip_cr (d ∷ s)

abbrev pub last_line : Bytes → List Bytes
last_line [] = []
last_line (b ∷ line) = (b ∷ line) ∷ []

-- `lines`, behind the part `line` of the first one: a last line that is empty is none.
unfoldable pub lines_from : Bytes → Bytes → List Bytes
lines_from line [] = last_line line
lines_from line (c ∷ s) =
    let next = strip_cr line ∷ lines_from [] s in
    let same = lines_from (line ++ c ∷ []) s in if c == b'\n' then next else same
