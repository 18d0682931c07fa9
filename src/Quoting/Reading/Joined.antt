-- ===== src/Quoting/Reading/Joined.antt =====
-- Reading one text after another.
use text.Mathlib.TextLemmas.{nil-append, cons-append, append_assoc}
use mergetrain.Prelude.{◌≡◌, refl, ap, sym, ◌∙◌, Option, none, some, String, ◌<>◌}
use mergetrain.Quoting.Reading.{Mode, read_char, read, after}

abbrev pub followed : Option (String × Mode) → String → Option (String × Mode)
followed none t = none
followed (some (text, mode)) t = after text (read mode t)

after_empty : (o : Option (String × Mode)) → after "" o ≡ o
after_empty none = refl
after_empty (some (text, mode)) = ap (λ t. some (t, mode)) (nil-append text)

after-after : (a b : String) (o : Option (String × Mode)) → after a (after b o) ≡ after (a <> b) o
after-after a b none = refl
after-after a b (some (text, mode)) = ap (λ t. some (t, mode)) (sym (append_assoc a b text))

after-followed :
    (a : String) (o : Option (String × Mode)) (t : String)
    → after a (followed o t) ≡ followed (after a o) t
after-followed a none t = refl
after-followed a (some (b, mode)) t = after-after a b (read mode t)

char_followed :
    (o : Option (String × Mode)) (s t : String)
    → ((next : Mode) → read next (s <> t) ≡ followed (read next s) t)
    → (elim o [ none ↦ none | some (text, next) ↦ after text (read next (s <> t)) ])
      ≡ followed (elim o [ none ↦ none | some (text, next) ↦ after text (read next s) ]) t
char_followed none s t h = refl
char_followed (some (text, next)) s t h =
    ap (after text) (h next) ∙ after-followed text (read next s) t

-- A text is read as its first part, and then the rest in the mode that it leaves.
pub read-append : (mode : Mode) (s t : String) → read mode (s <> t) ≡ followed (read mode s) t
unfolding read
read-append mode String.[] t = ap (read mode) (nil-append t) ∙ sym (after_empty (read mode t))
read-append mode (String.◌∷◌ c s) t =
    ap (read mode) (cons-append c s t)
    ∙ char_followed (read_char mode c) s t (λ next. read-append next s t)
