-- ===== src/Prelude/Strings.antt =====
-- More of Go's packages `strings` and `net`: trimming, case, positions, host and port.
use Prim.Native.Nat.{ℕ, suc, ◌+◌}
use mathlib.Core.Path.{◌≡◌, refl}
use mathlib.Core.Bool.{Bool, true, false, ◌&&◌, ◌||◌}
use mathlib.Core.List.{[], ◌∷◌}
use mathlib.Core.Option
use mathlib.Core.Option.{Option, none, some}
use native.Mathlib.Omega.{arith}
use lamund.Prelude.Tests.{leb, ◌==◌, if◌then◌else◌}
use lamund.Prelude.Lists.{take, drop, any}
use lamund.Prelude.Text.{Bytes, beq, has_prefix}

-- strings.ToLower on ASCII letters
unfoldable pub lower_byte : ℕ → ℕ
lower_byte c = if leb b'A' c && leb c b'Z' then c + 32 else c

unfoldable pub lower : Bytes → Bytes
unfolding lower_byte
lower [] = []
lower (c ∷ s) = lower_byte c ∷ lower s

pub lower_idem : (s : Bytes) → lower (lower s) ≡ lower s
unfolding lower
lower_idem [] = refl
lower_idem (c ∷ s) = ground (arith, lower_idem s)

abbrev pub is_empty : Bytes → Bool
is_empty [] = true
is_empty (c ∷ s) = false

-- strings.TrimLeftFunc and TrimRightFunc
unfoldable pub trim_left : (ℕ → Bool) → Bytes → Bytes
trim_left p [] = []
trim_left p (c ∷ s) = let rest = trim_left p s in if p c then rest else c ∷ s

unfoldable pub trim_right : (ℕ → Bool) → Bytes → Bytes
trim_right p [] = []
trim_right p (c ∷ s) = let rest = trim_right p s in if p c && is_empty rest then [] else c ∷ rest

unfoldable pub trim : (ℕ → Bool) → Bytes → Bytes
unfolding trim_left trim_right
trim p s = trim_right p (trim_left p s)

abbrev pub is_slash : ℕ → Bool
is_slash c = c == b'/'

-- the white space of strings.TrimSpace within ASCII
abbrev pub is_space : ℕ → Bool
is_space c = c == 32 || (leb 9 c && leb c 13)

unfoldable pub trim_space : Bytes → Bytes
unfolding trim
trim_space s = trim is_space s

-- strings.TrimSuffix(s, suffix)
unfoldable pub trim_suffix : Bytes → Bytes → Bytes
trim_suffix [] p = []
trim_suffix (c ∷ s) p = let rest = trim_suffix s p in if beq (c ∷ s) p then [] else c ∷ rest

-- strings.HasSuffix(s, suffix)
unfoldable pub has_suffix : Bytes → Bytes → Bool
has_suffix [] p = beq [] p
has_suffix (c ∷ s) p = beq (c ∷ s) p || has_suffix s p

-- strings.IndexByte and LastIndexByte
unfoldable pub index_byte : ℕ → Bytes → Option ℕ
index_byte b [] = none
index_byte b (c ∷ s) = let rest = index_byte b s in if c == b then some 0 else Option.map suc rest

unfoldable pub last_index_byte : ℕ → Bytes → Option ℕ
last_index_byte b [] = none
last_index_byte b (c ∷ s) = elim (last_index_byte b s) [
  | some i ↦ some (suc i)
  | none ↦ if c == b then some 0 else none
]

abbrev has_byte : ℕ → Bytes → Bool
has_byte b s = any (λ c. c == b) s

-- The host of a bracketed address, `end` the place of `]` and `i` of the last colon.
abbrev bracketed : Bytes → ℕ → Option ℕ → Option Bytes
bracketed s i none = none
bracketed s i (some end) =
    if suc end == i && (has_byte b'[' (drop 1 s) || has_byte b']' (drop (suc end) s))
    then none
    else if suc end == i
    then some (drop 1 (take end s))
    else none

-- net.SplitHostPort; `none` stands for its errors. Only the host is used by the program.
unfoldable pub split_host : Bytes → Option Bytes
unfolding has_prefix index_byte last_index_byte
split_host s = elim (last_index_byte b':' s) [
  | none ↦ none
  | some i ↦
      if has_prefix s (b'[' ∷ [])
      then bracketed s i (index_byte b']' s)
      else if has_byte b':' (take i s) || has_byte b'[' s || has_byte b']' s
      then none
      else some (take i s)
]
