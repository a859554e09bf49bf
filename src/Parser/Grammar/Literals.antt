-- ===== src/Parser/Grammar/Literals.antt =====
-- engine/parser/parser.py: `_literal`, the vectors, the points and their coordinates.
use quipudb.Prelude.{
  ℕ, zero, suc, ◌+◌, String, true, false, not, none, some, List, [], ◌∷◌, map, if◌then◌else◌,
}
use quipudb.Prelude.Int.{ℤ, pos, negsuc}
use quipudb.Parser.Span.{Span, through}
use quipudb.Parser.Chars.{codes, text_eq}
use quipudb.Parser.Errors.{
  said, invalid_date, missing_component, missing_coordinate, coordinate_range,
}
use quipudb.Parser.Tokens.{TokenKind, Token}
use quipudb.Parser.Ast.{PointLiteral, VectorLiteral, Literal}
use quipudb.Parser.Stream.{
  Env, Parser, pure, ◌>>=◌, ◌>>◌, out_of_fuel, peek_token, advance_token, is_one_of, on_match,
  on_cases, int_value, text_value, float_value, with_fuel, word_of, fail_with, fail_at,
  raise_unsupported, expect,
}
use quipudb.Parser.Grammar.Dates.{date_fields, from_iso}

abbrev pub numeric_kinds : List TokenKind
numeric_kinds = TokenKind.integer ∷ TokenKind.double_literal ∷ []

-- `while self._match(TokenKind.COMMA): items.append(item())`, with fuel.
unfoldable pub more_items {ℓ} : {F : Type 0} {A : Type ℓ} → Parser F A → ℕ → Parser F (List A)
unfolding on_match
more_items item zero s = out_of_fuel
more_items item (suc fuel) s =
    on_match (TokenKind.comma ∷ []) (λ _. do a ← item; rest ← more_items item fuel; pure (a ∷ rest))
      (pure []) s

-- An item and those after it, each behind a comma.
unfoldable pub comma_list {ℓ} : {F : Type 0} {A : Type ℓ} → Parser F A → Parser F (List A)
unfolding more_items
comma_list item = do a ← item; rest ← with_fuel (more_items item); pure (a ∷ rest)

module _ {F : Type 0} ⦃env : Env F⦄ where
  -- `_coordinate`
  unfoldable pub coordinate : String → ℤ → ℤ → Parser F (F × Span)
  unfolding peek_token advance_token
  coordinate role low high = do
    t ← peek_token
    if not (is_one_of numeric_kinds t) then fail_with t (missing_coordinate role) else do
      advance_token
      value ← float_value t
      if not (env.is_within low high value)
          then fail_with t (coordinate_range role)
          else pure (value, t.span)

  -- `_point_literal`
  unfoldable pub point_literal : Token F → Parser F (PointLiteral F)
  unfolding expect coordinate through
  point_literal start = do
    expect TokenKind.lparen (said "se esperaba '(' despues de POINT")
    latitude ← coordinate "latitud" (negsuc 89) (pos 90)
    expect TokenKind.comma (said "se esperaba ',' entre latitud y longitud")
    longitude ← coordinate "longitud" (negsuc 179) (pos 180)
    end ← expect TokenKind.rparen (said "se esperaba ')' despues de la longitud")
    pure (record {
      latitude = latitude.0;
      longitude = longitude.0;
      latitude_span = latitude.1;
      longitude_span = longitude.1;
      span = through start.span end.span;
    })

  -- One round of the loop of `_vector_literal`; `count` is `len(componentes)`.
  unfoldable pub component : ℕ → Parser F (F × Span)
  unfolding peek_token advance_token
  component count = do
    t ← peek_token
    if not (is_one_of numeric_kinds t)
        then fail_with t (missing_component (count + 1))
        else do advance_token; value ← float_value t; pure (value, t.span)

  -- The loop, from the comma after a component on.
  unfoldable pub more_components : ℕ → ℕ → Parser F (List (F × Span))
  unfolding on_match component
  more_components count zero s = out_of_fuel
  more_components count (suc fuel) s =
      on_match (TokenKind.comma ∷ [])
        (λ _. do a ← component count; rest ← more_components (count + 1) fuel; pure (a ∷ rest))
        (pure []) s

  -- `_vector_literal`
  unfoldable pub vector_literal : Token F → Parser F (VectorLiteral F)
  unfolding expect component more_components through
  vector_literal start = do
    expect TokenKind.lparen (said "se esperaba '(' despues de VECTOR")
    a ← component 0
    rest ← with_fuel (more_components 1)
    end ← expect TokenKind.rparen (said "se esperaba ',' o ')' despues de una componente de VECTOR")
    pure (record {
      components = map (λ c. c.0) (a ∷ rest);
      component_spans = map (λ c. c.1) (a ∷ rest);
      span = through start.span end.span;
    })

  -- The rest of a DATE literal.
  unfoldable pub date_literal : Token F → Parser F (Literal F)
  unfolding expect through date_fields from_iso
  date_literal start = do
    t ← expect TokenKind.string (said "se esperaba un string 'YYYY-MM-DD' despues de DATE")
    value ← text_value t
    elim (date_fields value) [
      | none ↦ fail_at t "el literal DATE debe usar el formato 'YYYY-MM-DD'"
      | some (year, month, day) ↦ elim (from_iso year month day) [
        | none ↦ fail_with t (invalid_date value)
        | some parsed ↦ pure (Literal.date parsed (through start.span t.span))
      ]
    ]

  unfoldable pub no_literal : Parser F (Literal F)
  unfolding peek_token word_of text_eq raise_unsupported
  no_literal = do
    t ← peek_token
    if text_eq (word_of t) (codes "NULL")
        then raise_unsupported t
        else fail_at t
            "se esperaba un literal entero, double, string, booleano, DATE, POINT o VECTOR"

  -- `_literal`
  unfoldable pub literal_value : Parser F (Literal F)
  unfolding on_cases date_literal point_literal vector_literal no_literal
  literal_value =
      on_cases
        ((TokenKind.integer ∷ [], λ t. do n ← int_value t; pure (Literal.integer n t.span))
          ∷ (
            TokenKind.double_literal ∷ [],
            λ t. do x ← float_value t; pure (Literal.double x t.span),
          )
          ∷ (TokenKind.string ∷ [], λ t. do w ← text_value t; pure (Literal.string w t.span))
          ∷ (TokenKind.true ∷ [], λ t. pure (Literal.boolean true t.span))
          ∷ (TokenKind.false ∷ [], λ t. pure (Literal.boolean false t.span))
          ∷ (TokenKind.date ∷ [], date_literal)
          ∷ (TokenKind.point ∷ [], λ t. do p ← point_literal t; pure (Literal.point p))
          ∷ (TokenKind.vector ∷ [], λ t. do v ← vector_literal t; pure (Literal.vector v))
          ∷ [])
        no_literal
