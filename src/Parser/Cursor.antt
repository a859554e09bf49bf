-- ===== src/Parser/Cursor.antt =====
-- engine/parser/lexer.py: the position of the scanner. `rest` is `self._source[self._index:]`, and
-- `previous` the character before it, so that each loop is a recursion on the text that is left.
pub mod Reading
use quipudb.Prelude.{
  ℕ, zero, suc, ◌+◌, ◌-◌, ◌*◌, Bool, true, false, not, ◌&&◌, ◌||◌, Option, none, some, List, [],
  ◌∷◌, ◌++◌, any, length, ltb, ◌==◌, if◌then◌else◌,
}
use quipudb.Parser.Span.{Span}
use quipudb.Parser.Chars.{Text}

pub record Cursor : Type 0 where
  pub index : ℕ
  pub line : ℕ
  pub column : ℕ
  pub rest : Text
  pub previous : Option ℕ

abbrev pub start_of : Text → Cursor
start_of source = record { index = 0; line = 1; column = 1; rest = source; previous = none }

abbrev pub is_return : Option ℕ → Bool
is_return none = false
is_return (some c) = c == 13

-- `_advance` past the character `c`.
unfoldable pub advance_past : Cursor → ℕ → Text → Cursor
advance_past k c more =
    if c == 13
    then record {
      index = suc k.index;
      line = suc k.line;
      column = 1;
      rest = more;
      previous = some c;
    }
    else if c == 10
    then if is_return k.previous
      then record k { index = suc k.index; rest = more; previous = some c }
      else record {
        index = suc k.index;
        line = suc k.line;
        column = 1;
        rest = more;
        previous = some c;
      }
    else record k { index = suc k.index; column = suc k.column; rest = more; previous = some c }

-- `_advance`; at the end of the source, where Python raises IndexError, the scanner never calls it.
unfoldable pub advance : Cursor → Cursor
unfolding advance_past
advance k = elim k.rest [ [] ↦ k | c ∷ more ↦ advance_past k c more ]

-- `_peek` and `_peek(1)`; the empty text is `none`.
abbrev pub peek : Cursor → Option ℕ
peek k = elim k.rest [ [] ↦ none | c ∷ more ↦ some c ]

abbrev pub peek_next : Cursor → Option ℕ
peek_next k = elim k.rest [ [] ↦ none | c ∷ more ↦ elim more [ [] ↦ none | d ∷ far ↦ some d ] ]

abbrev pub is_some_of : (ℕ → Bool) → Option ℕ → Bool
is_some_of p none = false
is_some_of p (some c) = p c

-- `while not self._at_end and p(self._peek()): self._advance()`
unfoldable pub skip_while : (ℕ → Bool) → Text → Cursor → Cursor
unfolding advance
skip_while p [] k = k
skip_while p (c ∷ more) k = elim (p c) [ true ↦ skip_while p more (advance k) | false ↦ k ]

abbrev pub advance_while : (ℕ → Bool) → Cursor → Cursor
advance_while p k = skip_while p k.rest k

-- `_span_from(mark)`, where the mark is the cursor that was.
abbrev pub span_from : Cursor → Cursor → Span
span_from mark k = record {
  start = mark.index;
  end = k.index;
  line = mark.line;
  column = mark.column;
  end_line = k.line;
  end_column = k.column;
}
