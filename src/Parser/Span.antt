-- ===== src/Parser/Span.antt =====
-- engine/parser/span.py: an interval of the query, by offsets and by lines and columns.
use quipudb.Prelude.{ℕ, Bool, ◌&&◌, ◌||◌, not, List, [], ◌∷◌, ltb, ◌==◌, if◌then◌else◌}

pub record Span : Type 0 where
  pub start : ℕ
  pub end : ℕ
  pub line : ℕ
  pub column : ℕ
  pub end_line : ℕ
  pub end_column : ℕ

-- The checks of `__post_init__`: `false` is a ValueError. Offsets are never negative here.
unfoldable pub is_span : Span → Bool
is_span s =
    not (ltb s.end s.start)
    && not (ltb s.line 1 || ltb s.column 1)
    && not (ltb s.end_line 1 || ltb s.end_column 1)
    && not (ltb s.end_line s.line)
    && not (s.end_line == s.line && ltb s.end_column s.column)

-- `min(spans, key=start)` and `max(spans, key=end)`: the first of equals.
unfoldable pub first_span : Span → List Span → Span
first_span best [] = best
first_span best (s ∷ spans) = first_span (if ltb s.start best.start then s else best) spans

unfoldable pub last_span : Span → List Span → Span
last_span best [] = best
last_span best (s ∷ spans) = last_span (if ltb best.end s.end then s else best) spans

-- `combine_spans` of at least one span.
unfoldable pub combine_spans : Span → List Span → Span
unfolding first_span last_span
combine_spans s spans =
    let first = first_span s spans in
    let last = last_span s spans in
    record {
      start = first.start;
      end = last.end;
      line = first.line;
      column = first.column;
      end_line = last.end_line;
      end_column = last.end_column;
    }

unfoldable pub through : Span → Span → Span
unfolding combine_spans
through s other = combine_spans s (other ∷ [])
