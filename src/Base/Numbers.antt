-- ===== src/Base/Numbers.antt =====
-- Python's `int` of a text, over the ASCII characters: surrounding white space, a sign, digits
-- with single underscores between them.
use Prim.Native.Nat.{ℕ, zero, suc, ◌+◌, ◌-◌, ◌*◌}
use mathlib.Core.Bool.{Bool, true, false, ◌&&◌}
use mathlib.Core.Option
use mathlib.Core.Option.{Option, none, some}
use mathlib.Core.List.{List, [], ◌∷◌, reverse}
use gaia_server.Base.Bools.{leb, eqb, if◌then◌else◌}
use gaia_server.Base.Text.{is_space}

-- `negsuc n` is -(n + 1).
pub data ℤ : Type 0 where
  pos : ℕ → ℤ
  negsuc : ℕ → ℤ

-- `i + 1`
unfoldable pub add_one : ℤ → ℤ
add_one (pos n) = pos (n + 1)
add_one (negsuc zero) = pos 0
add_one (negsuc (suc n)) = negsuc n

abbrev pub negate : ℕ → ℤ
negate zero = pos 0
negate (suc n) = negsuc n

abbrev is_digit : ℕ → Bool
is_digit c = leb b'0' c && leb c b'9'

drop_spaces : List ℕ → List ℕ
drop_spaces [] = []
drop_spaces (c ∷ cs) = let rest = drop_spaces cs in if is_space c then rest else c ∷ cs

-- `n` is the value so far, and the flag says that the last character was a digit.
digits : ℕ → Bool → List ℕ → Option ℕ
digits n true [] = some n
digits n false [] = none
digits n after (c ∷ cs) =
    let number = digits (n * 10 + (c - b'0')) true cs in
    let gap = digits n false cs in
    if is_digit c then number else if after && eqb c b'_' then gap else none

signed : List ℕ → Option ℤ
unfolding digits
signed [] = none
signed (c ∷ cs) =
    if eqb c b'-'
    then Option.map negate (digits 0 false cs)
    else if eqb c b'+'
    then Option.map pos (digits 0 false cs)
    else Option.map pos (digits 0 false (c ∷ cs))

-- `int(s)`, or `none` where it raises ValueError.
unfoldable pub int : List ℕ → Option ℤ
unfolding signed drop_spaces
int cs = signed (reverse (drop_spaces (reverse (drop_spaces cs))))

-- `i > 0`
abbrev pub is_positive : ℤ → Bool
is_positive (pos zero) = false
is_positive (pos (suc n)) = true
is_positive (negsuc n) = false
