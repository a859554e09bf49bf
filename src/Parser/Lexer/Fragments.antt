-- ===== src/Parser/Lexer/Fragments.antt =====
-- The line and the marker that an error of the lexer shows.
use mathlib.Core.Path.{subst, ap₂}
use quipudb.Prelude.{
  ℕ, suc, ◌-◌, ◌≡◌, ap, ◌∙◌, Bool, false, some, ◌++◌, map, length, get_elem?, ltb, arith,
}
use quipudb.Parser.Chars.{Text, take}
use quipudb.Parser.Chars.Slices.{take-append}
use quipudb.Parser.Errors.{
  SqlError, split_from, split_lines, source_fragment, blank, repeat, marker_width,
}
use quipudb.Parser.Scanner.{Doubles}
use quipudb.Parser.Lexer.{rejected, tokenize}
use quipudb.Parser.Lexer.Places.{
  IsPlace, last_piece, split_from-Begins, get_elem?-bound, column_after-last_piece,
}
use quipudb.Parser.Lexer.Cuts.{IsTokenized, tokenize-IsTokenized}

-- The fragment of an error: a line of the source, cut at the column of the error, and a marker as
-- far to the right as the cut.
pub record IsPointed (e : SqlError) (source : Text) : Type 0 where
  pub left : Text
  pub right : Text
  pub line_of : get_elem? (split_lines source) (e.span.line - 1) ≡ some (left ++ right)
  pub column_of : e.span.column ≡ suc (length left)
  pub shown :
      source_fragment e ≡ some (left ++ right, map blank left ++ repeat (marker_width e.span) 94)

pub source_fragment-IsPointed :
    (e : SqlError) (source : Text)
    → e.source ≡ some source
    → IsPlace source e.span.start e.span.line e.span.column
    → IsPointed e source
unfolding source_fragment split_lines
source_fragment-IsPointed e source k p =
    let (w, g) = split_from-Begins false p.before p.after in
    let left = last_piece (split_from false p.before) in
    let line : get_elem? (split_lines source) (e.span.line - 1) ≡ some (left ++ w) =
      ap₂ (λ t i. get_elem? (split_lines t) i) p.splits (omega (arith, p.line_is)) ∙ g in
    let column : e.span.column ≡ suc (length left) =
      p.column_is ∙ column_after-last_piece (split_from false p.before) in
    let not_past : ltb (length (split_lines source)) e.span.line ≡ false =
      ground (
        arith,
        p.line_is,
        get_elem?-bound (e.span.line - 1) (split_lines source) (left ++ w) line,
      ) in
    let cut : take (e.span.column - 1) (left ++ w) ≡ left =
      ap (λ n. take n (left ++ w)) (omega (arith, column)) ∙ take-append left w in
    record {
      left = left;
      right = w;
      line_of = line;
      column_of = column;
      shown =
          rw (k, not_past, line, source_fragment)
            (ap (λ l. some (left ++ w, map blank l ++ repeat (marker_width e.span) 94)) cut);
    }

module _ {F : Type 0} (doubles : Doubles F) (is_alpha : ℕ → Bool) where
  -- The error that `tokenize` gives shows the line of the source where it stands, with the marker
  -- below the first of the characters that it is about.
  pub tokenize-IsPointed :
      (source : Text) (e : SqlError)
      → tokenize doubles is_alpha source ≡ rejected e
      → IsPointed e source
  tokenize-IsPointed source e h =
      let (span, k) =
        subst (IsTokenized source 0) h (tokenize-IsTokenized doubles is_alpha source) in
      source_fragment-IsPointed e source k span.from
