-- ===== src/Paths/Segment/Spells.antt =====
-- What a file name pattern stands for, as a relation, and that fnmatchcase decides it.
use Prim.Native.Char.{Char}
use mergetrain.Prelude.{
  Bool, true, ◌&&◌, ◌||◌, List, [], ◌∷◌, String, ◌≡◌, ◌↔◌, inl, inr, refl, Bool-cases, arith,
}
use mergetrain.Paths.Segment.{
  Token, star, any, literal, class, admits, some_suffix, starts_with, match_tokens, fnmatchcase,
  tokens, between,
}

-- `*` stands for any text, every other part of the pattern for one character that it admits.
pub data Spells : List Token → String → Type 0 where
  done : Spells [] ""
  none_more : {ts : List Token} {s : String} → Spells ts s → Spells (star ∷ ts) s
  one_more :
      {ts : List Token} {s : String} (c : Char)
      → Spells (star ∷ ts) s
      → Spells (star ∷ ts) (String.◌∷◌ c s)
  one_char :
      {t : Token} {ts : List Token} {c : Char} {s : String}
      → admits t c ≡ true
      → Spells ts s
      → Spells (t ∷ ts) (String.◌∷◌ c s)

some_suffix-Spells :
    (ts : List Token) (p : String → Bool)
    → ((s : String) → p s ≡ true → Spells ts s)
    → (s : String) → some_suffix p s ≡ true
    → Spells (star ∷ ts) s
unfolding some_suffix
some_suffix-Spells ts p h String.[] e = none_more (h "" e)
some_suffix-Spells ts p h (String.◌∷◌ c s) e = elim (Bool-cases (p (String.◌∷◌ c s))) [
  | inl here ↦ none_more (h (String.◌∷◌ c s) here)
  | inr later ↦ one_more c (some_suffix-Spells ts p h s (ground arith))
]

starts_with-Spells :
    (t : Token) (ts : List Token) (p : String → Bool)
    → ((s : String) → p s ≡ true → Spells ts s)
    → (s : String) → starts_with (admits t) p s ≡ true
    → Spells (t ∷ ts) s
starts_with-Spells t ts p h String.[] e = absurd (ground arith)
starts_with-Spells t ts p h (String.◌∷◌ c s) e =
    let admitted : admits t c ≡ true = ground arith in one_char admitted (h s (ground arith))

match_tokens-Spells : (ts : List Token) (s : String) → match_tokens ts s ≡ true → Spells ts s
unfolding match_tokens
match_tokens-Spells [] String.[] e = done
match_tokens-Spells [] (String.◌∷◌ c s) e = absurd (ground arith)
match_tokens-Spells (star ∷ ts) s e =
    some_suffix-Spells ts (match_tokens ts) (match_tokens-Spells ts) s e
match_tokens-Spells (any ∷ ts) s e =
    starts_with-Spells any ts (match_tokens ts) (match_tokens-Spells ts) s e
match_tokens-Spells (literal d ∷ ts) s e =
    starts_with-Spells (literal d) ts (match_tokens ts) (match_tokens-Spells ts) s e
match_tokens-Spells (class negated written ∷ ts) s e =
    starts_with-Spells (class negated written) ts (match_tokens ts) (match_tokens-Spells ts) s e

some_suffix-here : (p : String → Bool) (s : String) → p s ≡ true → some_suffix p s ≡ true
unfolding some_suffix
some_suffix-here p String.[] h = h
some_suffix-here p (String.◌∷◌ c s) h = ground arith

pub or_later : (a b : Bool) → b ≡ true → a || b ≡ true
or_later a b h = ground arith

pub both : (a b : Bool) → a ≡ true → b ≡ true → a && b ≡ true
both a b h k = ground arith

admitted_start :
    (t : Token) (ts : List Token) (c : Char) (s : String)
    → admits t c ≡ true
    → match_tokens ts s ≡ true
    → match_tokens (t ∷ ts) (String.◌∷◌ c s) ≡ true
unfolding match_tokens admits
admitted_start star ts c s a m = absurd (ground arith)
admitted_start any ts c s a m = both (admits any c) (match_tokens ts s) a m
admitted_start (literal d) ts c s a m = both (admits (literal d) c) (match_tokens ts s) a m
admitted_start (class negated written) ts c s a m =
    both (admits (class negated written) c) (match_tokens ts s) a m

Spells-match_tokens : {ts : List Token} {s : String} → Spells ts s → match_tokens ts s ≡ true
unfolding match_tokens some_suffix
Spells-match_tokens done = refl
Spells-match_tokens (none_more {ts} {s} m) =
    some_suffix-here (match_tokens ts) s (Spells-match_tokens m)
Spells-match_tokens (one_more {ts} {s} c m) =
    or_later (match_tokens ts (String.◌∷◌ c s)) (some_suffix (match_tokens ts) s)
      (Spells-match_tokens m)
Spells-match_tokens (one_char {t} {ts} {c} {s} a m) =
    admitted_start t ts c s a (Spells-match_tokens m)

-- A name matches a file name pattern exactly where the parts of the pattern spell it.
pub fnmatchcase_iff :
    (name pattern : String)
    → (fnmatchcase name pattern ≡ true) ↔ Spells (tokens between pattern) name
unfolding fnmatchcase
fnmatchcase_iff name pattern =
    (match_tokens-Spells (tokens between pattern) name, Spells-match_tokens)
