-- ===== src/Parser/Errors.antt =====
-- engine/parser/errors.py: an error and the line of the source that it shows. A message is one
-- value: a name for each of the lexer's, and for the parser's the text, or what is put into it.
use quipudb.Prelude.{
  ℕ, zero, suc, ◌-◌, String, Bool, true, false, Option, none, some, List, [], ◌∷◌, ◌++◌, map,
  length, get_elem?, ltb, ◌==◌, if◌then◌else◌,
}
use quipudb.Parser.Chars.{Text, take}
use quipudb.Prelude.Int.{ℤ}
use quipudb.Parser.Span.{Span}
use quipudb.Parser.Ast.{SqlTypeName, StorageKind, IndexKind}

pub data ErrorClass : Type 0 where
  lex_error parse_error semantic_error unsupported_error : ErrorClass

pub data Message : Type 0 where
  incomplete_number integer_out_of_range double_out_of_range unclosed_string : Message
  unclosed_comment unsupported_operator : Message
  unexpected_character : ℕ → Message
  said : String → Message
  not_supported unexpected_input invalid_date : Text → Message
  missing_component few_vertices : ℕ → Message
  missing_coordinate coordinate_range : String → Message
  paren_after no_arguments : String → Message
  -- A name, and what it was to name or the table that lacks it.
  name_too_long : String → Message
  invalid_name missing_column : Text → String → Message
  repeated_column : Text → Text → Message
  -- Without the names of the tables that the text lists.
  unknown_qualifier unknown_table ambiguous_column no_column : Text → Message
  joined_types : String → String → Message
  wrong_table : String → Text → String → Message
  length_not_admitted : SqlTypeName → Message
  record_too_large : ℕ → ℕ → StorageKind → Message
  wrong_count : ℕ → String → ℕ → Message
  rtree_on index_on_point : Text → Message
  text_index_on : Text → SqlTypeName → Message
  index_on_vector : Text → IndexKind → Message
  -- Of a value of the column that is named.
  int_range : String → ℤ → Message
  of_column : String → String → Message
  text_too_long vector_length : String → ℕ → ℕ → Message
  component_not_finite : String → ℕ → Message
  wrong_type : String → SqlTypeName → String → Message

pub record SqlError : Type 0 where
  pub class : ErrorClass
  pub message : Message
  pub span : Span
  pub source : Option Text

-- The pieces between the matches of `\r\n|\r|\n`; `after_cr` says that a `\n` ends no piece, since
-- it belongs to the break before it.
unfoldable pub split_from : Bool → Text → Text × List Text
split_from after_cr [] = ([], [])
split_from after_cr (c ∷ t) =
    if c == 13
    then ([], (split_from true t).0 ∷ (split_from true t).1)
    else if c == 10
    then if after_cr
      then split_from false t
      else ([], (split_from false t).0 ∷ (split_from false t).1)
    else (c ∷ (split_from false t).0, (split_from false t).1)

-- `_LINE_BREAK.split(source)`
unfoldable pub split_lines : Text → List Text
unfolding split_from
split_lines t = (split_from false t).0 ∷ (split_from false t).1

abbrev pub repeat : ℕ → ℕ → Text
repeat zero c = []
repeat (suc n) c = c ∷ repeat n c

abbrev max_one : ℕ → ℕ
max_one zero = 1
max_one (suc n) = suc n

-- A tabulator stays, so that the marker stands below the error.
abbrev pub blank : ℕ → ℕ
blank c = if c == 9 then 9 else 32

pub marker_width : Span → ℕ
marker_width s = if s.end_line == s.line then max_one (s.end_column - s.column) else 1

-- `_source_fragment`: the line of the source and the marker below it.
unfoldable pub source_fragment : SqlError → Option (Text × Text)
unfolding split_lines marker_width
source_fragment e = elim e.source [
  | none ↦ none
  | some source ↦
      if ltb (length (split_lines source)) e.span.line
      then none
      else elim (get_elem? (split_lines source) (e.span.line - 1)) [
        | none ↦ none
        | some line ↦
            some
              (line, map blank (take (e.span.column - 1) line) ++ repeat (marker_width e.span) 94)
      ]
]
