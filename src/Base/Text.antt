-- ===== src/Base/Text.antt =====
-- What the program uses of Python's `str`. A character is its code point.
use Prim.Native.Nat.{◌-◌, ℕ, zero, suc, ◌+◌, ◌/◌, ◌%◌}
use Prim.Native.Char.{code}
use Prim.Native.String.{String}
use mathlib.Core.Path.{◌≡◌, refl}
use mathlib.Core.Bool.{Bool, true, false, not, ◌&&◌, ◌||◌}
use mathlib.Core.Option.{Option, none, some}
use mathlib.Core.List.{List, [], ◌∷◌, ◌++◌}
use native.Mathlib.Omega.{arith}
use text.Mathlib.Text.{◌==◌}
use gaia_server.Base.Bools.{ltb, leb, eqb, if◌then◌else◌}

abbrev pub codes : String → List ℕ
codes String.[] = []
codes (String.◌∷◌ c s) = code c ∷ codes s

abbrev pub Bytes : Type 0
Bytes = List ℕ

-- Equality of two byte strings.
abbrev pub equal_bytes : Bytes → Bytes → Bool
equal_bytes [] [] = true
equal_bytes [] (y ∷ ys) = false
equal_bytes (x ∷ xs) [] = false
equal_bytes (x ∷ xs) (y ∷ ys) = eqb x y && equal_bytes xs ys

pub equal_bytes→eq : (xs ys : Bytes) → equal_bytes xs ys ≡ true → xs ≡ ys
equal_bytes→eq [] [] h = refl
equal_bytes→eq [] (y ∷ ys) h = cc
equal_bytes→eq (x ∷ xs) [] h = cc
equal_bytes→eq (x ∷ xs) (y ∷ ys) h = ground (arith, equal_bytes→eq xs ys)

pub equal_bytes_refl : (xs : Bytes) → equal_bytes xs xs ≡ true
equal_bytes_refl [] = refl
equal_bytes_refl (x ∷ xs) = ground (arith, equal_bytes_refl xs)

-- UTF-8.
unfoldable pub encode_char : ℕ → Bytes
encode_char c =
    if ltb c 0x80
    then c ∷ []
    else if ltb c 0x800
    then (0xc0 + c / 64) ∷ (0x80 + c % 64) ∷ []
    else if ltb c 0x10000
    then (0xe0 + c / 4096) ∷ (0x80 + c / 64 % 64) ∷ (0x80 + c % 64) ∷ []
    else (0xf0 + c / 262144) ∷ (0x80 + c / 4096 % 64) ∷ (0x80 + c / 64 % 64) ∷ (0x80 + c % 64) ∷ []

-- `s.encode()`
unfoldable pub encode : String → Bytes
unfolding encode_char
encode String.[] = []
encode (String.◌∷◌ c s) = encode_char (code c) ++ encode s

-- `s.endswith(t)`
unfoldable pub ends_with : String → String → Bool
ends_with String.[] t = String.[] == t
ends_with (String.◌∷◌ c s) t = String.◌∷◌ c s == t || ends_with s t

-- `s.lstrip("/")`
unfoldable pub lstrip_slash : String → String
lstrip_slash String.[] = String.[]
lstrip_slash (String.◌∷◌ c s) =
    let rest = lstrip_slash s in if eqb (code c) b'/' then rest else String.◌∷◌ c s

-- `not not s` for an optional text: `None` and the empty text are false.
abbrev pub truthy : Option String → Bool
truthy none = false
truthy (some String.[]) = false
truthy (some (String.◌∷◌ c s)) = true

-- `s[:n]`
unfoldable pub take_chars : ℕ → String → String
take_chars zero s = String.[]
take_chars (suc n) String.[] = String.[]
take_chars (suc n) (String.◌∷◌ c s) = String.◌∷◌ c (take_chars n s)

-- `s.split("/", 1)`: the text before the first slash, and the rest if there is one.
unfoldable pub split_slash : String → String × Option String
split_slash String.[] = (String.[], none)
split_slash (String.◌∷◌ c s) =
    let (head, rest) = split_slash s in
    if eqb (code c) b'/' then (String.[], some s) else (String.◌∷◌ c head, rest)

-- White space, as `str.split` and `int` see it in ASCII.
abbrev pub is_space : ℕ → Bool
is_space c = leb 9 c && leb c 13 || leb 28 c && leb c 32

-- `len(s.split())`: a word begins at a character that is no space, after a space or at the start.
unfoldable pub word_count_from : Bool → String → ℕ
word_count_from after_space String.[] = 0
word_count_from after_space (String.◌∷◌ c s) =
    (if after_space && not (is_space (code c)) then 1 else 0)
    + word_count_from (is_space (code c)) s

unfoldable pub word_count : String → ℕ
unfolding word_count_from
word_count s = word_count_from true s

-- `s.split(".")[0]`
unfoldable pub before_dot : String → String
before_dot String.[] = String.[]
before_dot (String.◌∷◌ c s) =
    let rest = String.◌∷◌ c (before_dot s) in if eqb (code c) b'.' then String.[] else rest

-- `s.upper()`, over the ASCII characters.
abbrev pub upper : ℕ → ℕ
upper c = if leb b'a' c && leb c b'z' then c - 32 else c

abbrev pub uppered : List ℕ → List ℕ
uppered [] = []
uppered (c ∷ cs) = upper c ∷ uppered cs

-- `s.lower() == "true"`. No character outside ASCII has one of these four letters as its lower case.
abbrev pub lower : ℕ → ℕ
lower c = if leb b'A' c && leb c b'Z' then c + 32 else c

abbrev pub lowered : List ℕ → List ℕ
lowered [] = []
lowered (c ∷ cs) = lower c ∷ lowered cs

unfoldable pub is_true : String → Bool
is_true s = equal_bytes (lowered (codes s)) (codes "true")
