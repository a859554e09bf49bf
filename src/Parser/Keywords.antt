-- ===== src/Parser/Keywords.antt =====
-- engine/parser/lexer.py: `_KEYWORDS`, the reserved words, and the look-up of a word.
pub mod Case
use quipudb.Prelude.{
  String, Bool, true, false, Option, none, some, List, [], ◌∷◌, if◌then◌else◌, map,
}
use quipudb.Parser.Chars.{Text, codes, text_eq, is_ascii, upper, all_ascii}
use quipudb.Parser.Tokens.{TokenKind}

unfoldable pub keywords : List (String × TokenKind)
keywords =
    ("CREATE", TokenKind.create)
    ∷ ("TABLE", TokenKind.table)
    ∷ ("INDEX", TokenKind.index)
    ∷ ("ON", TokenKind.on)
    ∷ ("PRIMARY", TokenKind.primary)
    ∷ ("KEY", TokenKind.key)
    ∷ ("USING", TokenKind.using)
    ∷ ("HEAP", TokenKind.heap)
    ∷ ("SEQUENTIAL", TokenKind.sequential)
    ∷ ("BPLUS", TokenKind.bplus)
    ∷ ("BPLUS_UNCLUSTERED", TokenKind.bplus_unclustered)
    ∷ ("HASH", TokenKind.hash)
    ∷ ("EXTENDIBLE_HASH", TokenKind.extendible_hash)
    ∷ ("RTREE", TokenKind.rtree)
    ∷ ("FULLTEXT", TokenKind.fulltext)
    ∷ ("INVERTED_INDEX", TokenKind.inverted_index)
    ∷ ("IVF", TokenKind.ivf)
    ∷ ("HNSW", TokenKind.hnsw)
    ∷ ("WITH", TokenKind.with)
    ∷ ("METRIC", TokenKind.metric)
    ∷ ("SIMILAR_TO", TokenKind.similar_to)
    ∷ ("INSERT", TokenKind.insert)
    ∷ ("INTO", TokenKind.into)
    ∷ ("VALUES", TokenKind.values)
    ∷ ("SELECT", TokenKind.select)
    ∷ ("EXPLAIN", TokenKind.explain)
    ∷ ("ANALYZE", TokenKind.analyze)
    ∷ ("FROM", TokenKind.from)
    ∷ ("JOIN", TokenKind.join)
    ∷ ("WHERE", TokenKind.where_word)
    ∷ ("DELETE", TokenKind.delete)
    ∷ ("DROP", TokenKind.drop)
    ∷ ("ORDER", TokenKind.order)
    ∷ ("BY", TokenKind.by)
    ∷ ("ASC", TokenKind.asc)
    ∷ ("DESC", TokenKind.desc)
    ∷ ("LIMIT", TokenKind.limit)
    ∷ ("GROUP", TokenKind.group)
    ∷ ("COUNT", TokenKind.count)
    ∷ ("SUM", TokenKind.sum)
    ∷ ("MIN", TokenKind.min)
    ∷ ("MAX", TokenKind.max)
    ∷ ("AVG", TokenKind.avg)
    ∷ ("BETWEEN", TokenKind.between)
    ∷ ("AND", TokenKind.and)
    ∷ ("DISTANCIA", TokenKind.distancia)
    ∷ ("DENTRO", TokenKind.dentro)
    ∷ ("POLYGON", TokenKind.polygon)
    ∷ ("MATCH", TokenKind.match)
    ∷ ("TF_IDF", TokenKind.tf_idf)
    ∷ ("BM25", TokenKind.bm25)
    ∷ ("SCORE", TokenKind.score)
    ∷ ("SIMILARITY_SCORE", TokenKind.similarity_score)
    ∷ ("AS", TokenKind.as_word)
    ∷ ("HAVERSINE", TokenKind.haversine)
    ∷ ("EUCLIDEAN", TokenKind.euclidean)
    ∷ ("INT", TokenKind.int)
    ∷ ("DOUBLE", TokenKind.double)
    ∷ ("VARCHAR", TokenKind.varchar)
    ∷ ("BOOL", TokenKind.bool)
    ∷ ("DATE", TokenKind.date)
    ∷ ("POINT", TokenKind.point)
    ∷ ("VECTOR", TokenKind.vector)
    ∷ ("TRUE", TokenKind.true)
    ∷ ("FALSE", TokenKind.false)
    ∷ ("BEGIN", TokenKind.begin)
    ∷ ("TRANSACTION", TokenKind.transaction)
    ∷ ("END", TokenKind.end)
    ∷ []

-- `_KEYWORDS.get(word, TokenKind.IDENTIFIER)`
unfoldable pub find_keyword : Text → List (String × TokenKind) → TokenKind
find_keyword word [] = TokenKind.identifier
find_keyword word ((name, kind) ∷ more) = elim (text_eq word (codes name)) [
  | true ↦ kind
  | false ↦ find_keyword word more
]

unfoldable pub word_kind : Text → TokenKind
unfolding find_keyword keywords
word_kind lexeme =
    if all_ascii lexeme then find_keyword (map upper lexeme) keywords else TokenKind.identifier
