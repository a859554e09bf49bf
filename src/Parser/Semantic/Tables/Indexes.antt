-- ===== src/Parser/Semantic/Tables/Indexes.antt =====
-- engine/parser/semantic.py: what `bind_create_index` accepts.
use quipudb.Prelude.{◌≡◌, refl, true, not, Option, none, some}
use quipudb.Parser.Chars.{Text, text_eq, codes}
use quipudb.Parser.Span.{Span}
use quipudb.Parser.Errors.{missing_column}
use quipudb.Parser.Ast.{SqlTypeName, IndexKind, CreateIndexStatement}
use quipudb.Parser.BoundAst.{BoundColumn, BoundSchema, BoundCreateIndexStatement}
use quipudb.Parser.Semantic.{◌>>◌, fail, pure, validate_identifier}
use quipudb.Parser.Semantic.Checks.{truth, Answers, accepts, rejects, Answers-if, Answers-then}
use quipudb.Parser.Semantic.Tables.{check_kind_of, find_column, bind_create_index}
use quipudb.Parser.Semantic.Tables.Shape.{IsName}
use quipudb.Parser.Semantic.Tables.Columns.{validate_identifier-Answers}

-- A column of the type can have an index of the kind.
abbrev pub Suits : IndexKind → SqlTypeName → Type 0
Suits IndexKind.rtree SqlTypeName.point = Unit
Suits IndexKind.inverted_index SqlTypeName.varchar = Unit
Suits IndexKind.ivf SqlTypeName.vector = Unit
Suits IndexKind.hnsw SqlTypeName.vector = Unit
Suits IndexKind.bplus_unclustered SqlTypeName.point = ⊥
Suits IndexKind.bplus_unclustered SqlTypeName.vector = ⊥
Suits IndexKind.bplus_unclustered type = Unit
Suits IndexKind.extendible_hash SqlTypeName.point = ⊥
Suits IndexKind.extendible_hash SqlTypeName.vector = ⊥
Suits IndexKind.extendible_hash type = Unit
Suits kind type = ⊥

-- What the bound index says of the statement and the schema.
abbrev pub Indexes : CreateIndexStatement → BoundSchema → BoundCreateIndexStatement → Type 0
Indexes s schema b =
    (b.table_name ≡ s.table.name)
    × (text_eq b.table_name (codes schema.table_name) ≡ true)
    × IsName b.index_name
    × ((c : BoundColumn) × (find_column b.column_name schema.columns ≡ some c)
        × Suits b.kind c.data_type)

module _ (source : Option Text) where
  check_kind_of-Answers :
      (kind : IndexKind) (type : SqlTypeName) (name : Text) (span : Span)
      → Answers source (λ _. Suits kind type) (check_kind_of source kind type name span)
  unfolding check_kind_of
  check_kind_of-Answers IndexKind.rtree SqlTypeName.point name span = accepts _ tt
  check_kind_of-Answers IndexKind.rtree type name span = rejects _ refl refl
  check_kind_of-Answers IndexKind.inverted_index SqlTypeName.varchar name span = accepts _ tt
  check_kind_of-Answers IndexKind.inverted_index type name span = rejects _ refl refl
  check_kind_of-Answers IndexKind.ivf SqlTypeName.vector name span = accepts _ tt
  check_kind_of-Answers IndexKind.ivf type name span = rejects _ refl refl
  check_kind_of-Answers IndexKind.hnsw SqlTypeName.vector name span = accepts _ tt
  check_kind_of-Answers IndexKind.hnsw type name span = rejects _ refl refl
  check_kind_of-Answers IndexKind.bplus_unclustered SqlTypeName.point name span =
      rejects _ refl refl
  check_kind_of-Answers IndexKind.bplus_unclustered SqlTypeName.vector name span =
      rejects _ refl refl
  check_kind_of-Answers IndexKind.bplus_unclustered type name span = accepts _ tt
  check_kind_of-Answers IndexKind.extendible_hash SqlTypeName.point name span = rejects _ refl refl
  check_kind_of-Answers IndexKind.extendible_hash SqlTypeName.vector name span = rejects _ refl refl
  check_kind_of-Answers IndexKind.extendible_hash type name span = accepts _ tt

  pub bind_create_index-Answers :
      (s : CreateIndexStatement) (schema : BoundSchema)
      → Answers source (Indexes s schema) (bind_create_index source s schema)
  unfolding bind_create_index
  bind_create_index-Answers s schema =
      Answers-then (validate_identifier source s.index.name "indice" s.index.span) _
        (validate_identifier-Answers source s.index.name "indice" s.index.span)
        (λ _ named.
          Answers-then (validate_identifier source s.table.name "tabla" s.table.span) _
            (validate_identifier-Answers source s.table.name "tabla" s.table.span)
            (λ _ _.
              Answers-then (validate_identifier source s.column.name "columna" s.column.span) _
                (validate_identifier-Answers source s.column.name "columna" s.column.span)
                (λ _ _.
                  Answers-if (not (text_eq s.table.name (codes schema.table_name)))
                    (λ _. rejects _ refl refl)
                    (λ e.
                      by_column (find_column s.column.name schema.columns) refl named
                        (truth _ e)))))
    where
      by_column :
          (o : Option BoundColumn)
          → find_column s.column.name schema.columns ≡ o
          → IsName s.index.name
          → text_eq s.table.name (codes schema.table_name) ≡ true
          → Answers source (Indexes s schema) (elim o [
            | none ↦ fail source (missing_column s.column.name schema.table_name) s.column.span
            | some c ↦
                check_kind_of source s.kind c.data_type s.column.name s.column.span
                >> pure (record {
                  index_name = s.index.name;
                  table_name = s.table.name;
                  column_name = s.column.name;
                  kind = s.kind;
                  span = s.span;
                  metric = s.metric;
                  language = s.language;
                })
          ])
      by_column none p named e = rejects _ refl refl
      by_column (some c) p named e =
          Answers-then (check_kind_of source s.kind c.data_type s.column.name s.column.span) _
            (check_kind_of-Answers s.kind c.data_type s.column.name s.column.span)
            (λ _ suits. accepts _ (refl, e, named, (c, p, suits)))
