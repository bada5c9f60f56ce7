-- ===== src/Domain.antt =====
-- internal/store/domain.go: the validation of host names. `none` is the nil error; the messages of
-- the errors are left out. Go walks the runes of a label and the model its bytes: a byte from 128
-- on belongs to a rune that the test refuses too.
pub mod Rules
use lamund.Prelude.{
  ℕ, Bool, true, false, ◌&&◌, ◌||◌, Option, none, some, List, [], ◌∷◌, Bytes, codes, contains,
  split, length, ltb, leb, ◌==◌, if◌then◌else◌,
}

pub data DomainError : Type 0 where
  bad_length wildcard no_dot label_length label_hyphen bad_char : DomainError

unfoldable pub first_is : ℕ → Bytes → Bool
first_is b [] = false
first_is b (c ∷ s) = c == b

unfoldable pub last_is : ℕ → Bytes → Bool
last_is b [] = false
last_is b (c ∷ []) = c == b
last_is b (c ∷ d ∷ s) = last_is b (d ∷ s)

unfoldable pub is_ldh : ℕ → Bool
is_ldh c = (leb b'a' c && leb c b'z') || (leb b'0' c && leb c b'9') || c == b'-'

-- the loop over the characters of a label
unfoldable pub check_chars : Bytes → Option DomainError
unfolding is_ldh
check_chars [] = none
check_chars (c ∷ s) = if is_ldh c then check_chars s else some bad_char

unfoldable pub check_label : Bytes → Option DomainError
unfolding check_chars first_is last_is
check_label l =
    if length l == 0 || ltb 63 (length l)
    then some label_length
    else if first_is b'-' l || last_is b'-' l
    then some label_hyphen
    else check_chars l

-- the loop over the labels
abbrev or_else : Option DomainError → Option DomainError → Option DomainError
or_else (some e) next = some e
or_else none next = next

unfoldable pub check_labels : List Bytes → Option DomainError
unfolding check_label
check_labels [] = none
check_labels (l ∷ ls) = or_else (check_label l) (check_labels ls)

unfoldable pub validate_domain : Bytes → Option DomainError
unfolding check_labels contains split
validate_domain d =
    if length d == 0 || ltb 253 (length d)
    then some bad_length
    else if contains d (codes "*")
    then some wildcard
    else if ltb (length (split b'.' d)) 2
    then some no_dot
    else check_labels (split b'.' d)
