-- ===== src/Quoting/Rounds/Moves.antt =====
-- Each round copies at least one character, and refuses only a path that needs quoting.
use text.Mathlib.TextLemmas.{append_assoc, append-nil, nil-append}
use mergetrain.Prelude.{
  ℕ, suc, zero, ◌≤◌, ◌≡◌, inl, inr, refl, ap, sym, ◌∙◌, Bool, true, false, not, ◌&&◌, ◌||◌, [], ◌∷◌,
  String, nonempty, ◌<>◌, has_prefix, Bool-cases, arith, nat_column, text_column,
}
use mergetrain.Quoting.Render.{is_context_free}
use mergetrain.Quoting.Reading.{one}
use mergetrain.Quoting.Reading.Rendered.{cons_one}
use mergetrain.Quoting.Scan.{Cursor, Values, copy_char, copy, doubt_if}
use mergetrain.Quoting.Rounds.{text_size}

-- Every value is literal in every context.
unfoldable pub harmless : Values → Bool
harmless [] = true
harmless ((key, value) ∷ more) = is_context_free value && harmless more

-- No key is empty.
unfoldable pub has_keys : Values → Bool
has_keys [] = true
has_keys ((key, value) ∷ more) = nonempty key && has_keys more

unfoldable pub starts_key : Values → String → Bool
starts_key [] s = false
starts_key ((key, value) ∷ more) s = has_prefix key s || starts_key more s

-- No placeholder stands anywhere in the text.
unfoldable pub lacks_keys : Values → String → Bool
lacks_keys values String.[] = true
lacks_keys values (String.◌∷◌ c s) = not (starts_key values (String.◌∷◌ c s)) && lacks_keys values s

-- What a cursor has copied and has still to read is as before, and no longer to read.
pub record Reaches (values : Values) (c d : Cursor) : Type 0 where
  pub kept : d.out <> d.rest ≡ c.out <> c.rest
  pub clean : lacks_keys values c.rest ≡ true → lacks_keys values d.rest ≡ true
  pub size : text_size d.rest ≤ text_size c.rest
  pub copied : (p : String) × (c.rest ≡ p <> d.rest) × (d.out ≡ c.out <> p)

module _ (values : Values) where
  pub Reaches-refl : (c : Cursor) → Reaches values c c
  Reaches-refl c = record {
    kept = refl;
    clean = λ h. h;
    size = ground arith;
    copied = ("", sym (nil-append c.rest), sym (append-nil c.out));
  }

  pub Reaches-trans :
      (c d e : Cursor) → Reaches values c d → Reaches values d e → Reaches values c e
  Reaches-trans c d e first second = record {
    kept = second.kept ∙ first.kept;
    clean = λ h. second.clean (first.clean h);
    size = omega (arith, first.size, second.size);
    copied =
        let (p, rest, out) = first.copied in
        let (q, more, written) = second.copied in
        (
          p <> q,
          rest ∙ ap (λ t. p <> t) more ∙ sym (append_assoc p q e.rest),
          written ∙ ap (λ t. t <> q) out ∙ append_assoc c.out p q,
        );
  }

  pub one_copied :
      (before rest out unproven : String)
      → Reaches values
          (record { before = before; rest = rest; out = out; unproven = unproven })
          (copy_char (record { before = before; rest = rest; out = out; unproven = unproven }))
  unfolding copy_char lacks_keys text_size
  one_copied before String.[] out unproven = Reaches-refl _
  one_copied before (String.◌∷◌ d s) out unproven = record {
    kept = append_assoc out (one d) s ∙ ap (λ t. out <> t) (cons_one d s);
    clean = λ h. ground arith;
    size = ground arith;
    copied = (one d, sym (cons_one d s), refl);
  }

  pub Reaches-copy : (n : ℕ) (c d : Cursor) → Reaches values c d → Reaches values c (copy n d)
  unfolding copy
  Reaches-copy zero c d h = h
  Reaches-copy (suc n) c d h =
      Reaches-copy n c (copy_char d)
        (Reaches-trans c d (copy_char d) h (one_copied d.before d.rest d.out d.unproven))

  pub Reaches-doubt_if :
      (test : Bool) (construct : String) (c d : Cursor)
      → Reaches values c d
      → Reaches values c (doubt_if test construct d)
  unfolding doubt_if
  Reaches-doubt_if test construct c d h = elim (Bool-cases (test && not (nonempty d.unproven))) [
    | inl doubted ↦
        rw doubted (record { kept = h.kept; clean = h.clean; size = h.size; copied = h.copied })
    | inr calm ↦ rw calm h
  ]
