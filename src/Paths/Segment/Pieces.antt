-- ===== src/Paths/Segment/Pieces.antt =====
-- What a pattern as users write it stands for, and that the matching of one segment decides it.
use Prim.Native.Char.{Char, code}
use mergetrain.Prelude.{
  Bool, true, false, not, ◌&&◌, ◌||◌, List, [], ◌∷◌, String, leb, nat_eq, ◌≡◌, ◌≢◌, ◌↔◌, refl, ap,
  sym, ◌∙◌, subst, map, arith, nat_column, text_column,
}
use mergetrain.Paths.Segment.{fnmatch_segment, Token, star, in_class, admits, fnmatchcase}
use mergetrain.Paths.Segment.Globs.{
  Member, member, span, positive, bang, caret, Piece, any_text, any_char, plain, class_of,
  members_onto, printed, are_members, is_piece, are_pieces, is_any, stands_for, Globs, done,
  none_more, one_more, one_char,
}
use mergetrain.Paths.Segment.Reads.{token_of, tokens-fnmatch_segment}
use mergetrain.Paths.Segment.Spells.{Spells, fnmatchcase_iff}

abbrev dash_first : String → Bool
dash_first String.[] = false
dash_first (String.◌∷◌ d s) = nat_eq (code d) 45

in_class-one :
    (c x : Char) (s : String)
    → dash_first s ≡ false
    → in_class c (String.◌∷◌ x s) ≡ nat_eq (code c) (code x) || in_class c s
unfolding in_class
in_class-one c x String.[] h = ground arith
in_class-one c x (String.◌∷◌ d String.[]) h = refl
in_class-one c x (String.◌∷◌ d (String.◌∷◌ y s)) h = rw (in_class, h) refl

no_dash : (ms : List Member) → are_members ms ≡ true → dash_first (members_onto ms "") ≡ false
unfolding members_onto are_members
no_dash [] h = refl
no_dash (member c ∷ ms) h = ground arith
no_dash (span x y ∷ ms) h = ground arith

in_class-members_onto :
    (c : Char) (ms : List Member)
    → are_members ms ≡ true
    → in_class c (members_onto ms "") ≡ is_any c ms
unfolding in_class members_onto are_members is_any
in_class-members_onto c [] h = refl
in_class-members_onto c (member d ∷ ms) h =
    in_class-one c d (members_onto ms "") (no_dash ms (ground arith))
    ∙ ap (λ b. nat_eq (code c) (code d) || b) (in_class-members_onto c ms (ground arith))
in_class-members_onto c (span x y ∷ ms) h =
    ap (λ b. (leb (code x) (code c) && leb (code c) (code y)) || b)
      (in_class-members_onto c ms (ground arith))

admits-token_of :
    (p : Piece) (c : Char) → is_piece p ≡ true → admits (token_of p) c ≡ stands_for p c
unfolding admits are_members
admits-token_of any_text c h = refl
admits-token_of any_char c h = refl
admits-token_of (plain d) c h = refl
admits-token_of (class_of positive m ms) c h = in_class-members_onto c (m ∷ ms) (ground arith)
admits-token_of (class_of bang m ms) c h = ap not (in_class-members_onto c (m ∷ ms) (ground arith))
admits-token_of (class_of caret m ms) c h = ap not (in_class-members_onto c (m ∷ ms) (ground arith))

Globs-Spells :
    {ps : List Piece} {s : String} → are_pieces ps ≡ true → Globs ps s → Spells (map token_of ps) s
unfolding are_pieces
Globs-Spells h done = Spells.done
Globs-Spells h (none_more g) = Spells.none_more (Globs-Spells (ground arith) g)
Globs-Spells h (one_more c g) = Spells.one_more c (Globs-Spells h g)
Globs-Spells h (one_char {p} {ps} {c} {s} stands g) =
    Spells.one_char (admits-token_of p c (ground arith) ∙ stands) (Globs-Spells (ground arith) g)

Spells-star :
    {ts : List Token} {s : String} (ps : List Piece)
    → ((s : String) → Spells ts s → Globs ps s)
    → Spells (star ∷ ts) s
    → Globs (any_text ∷ ps) s
unfolding admits
Spells-star ps h (Spells.none_more {ts} {s} m) = none_more (h s m)
Spells-star ps h (Spells.one_more c m) = one_more c (Spells-star ps h m)
Spells-star ps h (Spells.one_char a m) = absurd (ground arith)

Spells-char :
    {t : Token} {ts : List Token} {s : String} (p : Piece) (ps : List Piece)
    → t ≢ star
    → ((c : Char) → admits t c ≡ stands_for p c)
    → ((s : String) → Spells ts s → Globs ps s)
    → Spells (t ∷ ts) s
    → Globs (p ∷ ps) s
Spells-char p ps n same h (Spells.none_more m) = absurd (n refl)
Spells-char p ps n same h (Spells.one_more c m) = absurd (n refl)
Spells-char p ps n same h (Spells.one_char {t} {ts} {c} {s} a m) =
    one_char (sym (same c) ∙ a) (h s m)

Spells-Globs :
    (ps : List Piece) (s : String) → are_pieces ps ≡ true → Spells (map token_of ps) s → Globs ps s
unfolding are_pieces
Spells-Globs [] _ h Spells.done = done
Spells-Globs (any_text ∷ ps) s h m = Spells-star ps (λ s. Spells-Globs ps s (ground arith)) m
Spells-Globs (any_char ∷ ps) s h m =
    Spells-char any_char ps (λ e. cc) (λ c. admits-token_of any_char c (ground arith))
      (λ s. Spells-Globs ps s (ground arith)) m
Spells-Globs (plain d ∷ ps) s h m =
    Spells-char (plain d) ps (λ e. cc) (λ c. admits-token_of (plain d) c (ground arith))
      (λ s. Spells-Globs ps s (ground arith)) m
Spells-Globs (class_of sign x xs ∷ ps) s h m =
    Spells-char (class_of sign x xs) ps (λ e. cc)
      (λ c. admits-token_of (class_of sign x xs) c (ground arith))
      (λ s. Spells-Globs ps s (ground arith)) m

pub fnmatchcase-printed :
    (name : String) (ps : List Piece)
    → are_pieces ps ≡ true
    → (fnmatchcase name (fnmatch_segment (printed ps)) ≡ true) ↔ Globs ps name
fnmatchcase-printed name ps h =
    let read = tokens-fnmatch_segment ps h in
    let decided = fnmatchcase_iff name (fnmatch_segment (printed ps)) in
    (
      λ e. Spells-Globs ps name h (subst (λ ts. Spells ts name) read (decided.0 e)),
      λ g. decided.1 (subst (λ ts. Spells ts name) (sym read) (Globs-Spells h g)),
    )
