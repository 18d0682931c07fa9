-- ===== src/Prelude/Text.antt =====
-- What the queue does with Python strings: truth value, `str.strip`, `" ".join(task.split())`,
-- `COALESCE(NULLIF(new, ''), old)`, f-strings and decimal numbers.
use Prim.Native.Nat.{ℕ, zero, suc, ◌/◌, ◌%◌}
use Prim.Native.Char.{Char, code}
use Prim.Native.String
use Prim.Native.String.{String}
use mathlib.Core.Path.{◌≡◌, refl}
use mathlib.Core.Bool.{Bool, true, false, not, ◌&&◌, ◌||◌}
use mathlib.Core.Option.{Option, none, some}
use mathlib.Core.List.{List, [], ◌∷◌}
use mergetrain.Prelude.Tests.{leb, nat_eq, if◌then◌else◌}

-- Python's truth value of a string.
abbrev pub nonempty : String → Bool
nonempty String.[] = false
nonempty (String.◌∷◌ _ _) = true

-- `COALESCE(NULLIF(new, ''), old)`
abbrev pub keep_text : String → String → String
keep_text new old = if nonempty new then new else old

abbrev pub keep {ℓ} : {A : Type ℓ} → Option A → A → A
keep none old = old
keep (some new) _ = new

infixr 65 ◌<>◌
abbrev pub ◌<>◌ : String → String → String
s <> t = String.◌++◌ s t

-- `text[:n]`
pub prefix : ℕ → String → String
prefix zero s = ""
prefix (suc n) String.[] = ""
prefix (suc n) (String.◌∷◌ c s) = String.◌∷◌ c (prefix n s)

-- The characters that `str.isspace` and so `str.split` and `str.strip` take for space.
unfoldable pub is_space : Char → Bool
is_space c =
    let n = code c in
    (leb 9 n && leb n 13)
    || (leb 28 n && leb n 32)
    || nat_eq n 0x85
    || nat_eq n 0xa0
    || nat_eq n 0x1680
    || (leb 0x2000 n && leb n 0x200a)
    || nat_eq n 0x2028
    || nat_eq n 0x2029
    || nat_eq n 0x202f
    || nat_eq n 0x205f
    || nat_eq n 0x3000

unfoldable pub strip_left : String → String
strip_left String.[] = ""
strip_left (String.◌∷◌ c s) = let rest = strip_left s in if is_space c then rest else String.◌∷◌ c s

unfoldable pub strip_right : String → String
strip_right String.[] = ""
strip_right (String.◌∷◌ c s) =
    let rest = strip_right s in if is_space c && not (nonempty rest) then "" else String.◌∷◌ c rest

-- `text.strip()`
unfoldable pub strip : String → String
unfolding strip_left strip_right is_space
strip s = strip_right (strip_left s)

-- The words of a text joined by one space: `started` once a word was written, `gap` after a space.
unfoldable pub join_words : Bool → Bool → String → String
join_words started gap String.[] = ""
join_words started gap (String.◌∷◌ c s) =
    let space = is_space c in
    let rest = join_words (started || not space) space s in
    if space then rest else if started && gap then " " <> String.◌∷◌ c rest else String.◌∷◌ c rest

-- `" ".join(text.split())`
unfoldable pub one_line : String → String
unfolding join_words is_space
one_line s = join_words false false s

digit : ℕ → String
digit zero = "0"
digit (suc zero) = "1"
digit (suc (suc zero)) = "2"
digit (suc (suc (suc zero))) = "3"
digit (suc (suc (suc (suc zero)))) = "4"
digit (suc (suc (suc (suc (suc zero))))) = "5"
digit (suc (suc (suc (suc (suc (suc zero)))))) = "6"
digit (suc (suc (suc (suc (suc (suc (suc zero))))))) = "7"
digit (suc (suc (suc (suc (suc (suc (suc (suc zero)))))))) = "8"
digit _ = "9"

-- A number has no more digits than its value and one.
digits : ℕ → ℕ → String → String
digits zero n acc = acc
digits (suc fuel) n acc =
    let more = digits fuel (n / 10) (digit (n % 10) <> acc) in
    if leb 10 n then more else digit n <> acc

-- `str(n)`
pub decimal : ℕ → String
unfolding digits digit
decimal n = digits (suc n) n ""

-- `",".join(str(n) for n in numbers)`
pub comma_join : List ℕ → String
unfolding decimal
comma_join [] = ""
comma_join (n ∷ []) = decimal n
comma_join (n ∷ m ∷ ns) = let rest = comma_join (m ∷ ns) in decimal n <> "," <> rest

-- `"\n".join(texts)`
unfoldable pub join_lines : List String → String
join_lines [] = ""
join_lines (t ∷ []) = t
join_lines (t ∷ u ∷ ts) = let rest = join_lines (u ∷ ts) in t <> "\n" <> rest

-- A character in front of the first of some texts
unfoldable pub push_char : Char → List String → List String
push_char c [] = String.◌∷◌ c "" ∷ []
push_char c (t ∷ ts) = String.◌∷◌ c t ∷ ts

-- `text.split("\n")`
unfoldable pub split_lines : String → List String
unfolding push_char
split_lines String.[] = "" ∷ []
split_lines (String.◌∷◌ c s) =
    let rest = split_lines s in if nat_eq (code c) 10 then "" ∷ rest else push_char c rest

strip_test : strip "  fix/a \t" <> decimal 1204 <> one_line " a  b\n c " ≡ "fix/a1204a b c"
unfolding strip decimal one_line
strip_test = refl

-- `text.startswith(prefix)`
unfoldable pub has_prefix : String → String → Bool
has_prefix String.[] s = true
has_prefix (String.◌∷◌ c p) String.[] = false
has_prefix (String.◌∷◌ c p) (String.◌∷◌ d s) = nat_eq (code c) (code d) && has_prefix p s
