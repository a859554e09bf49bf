-- ===== src/Parser/Kinds.antt =====
-- engine/parser/tokens.py: two kinds of token are compared by their numbers.
use quipudb.Prelude.{
  ℕ, ◌≡◌, refl, ap, sym, ◌∙◌, Bool, true, false, some, List, [], ◌∷◌, get_elem?, ◌==◌, ==_iff, any,
  arith,
}
use quipudb.Parser.Tokens.{TokenKind}

abbrev rank : TokenKind → ℕ
rank TokenKind.identifier = 0
rank TokenKind.integer = 1
rank TokenKind.double_literal = 2
rank TokenKind.string = 3
rank TokenKind.create = 4
rank TokenKind.table = 5
rank TokenKind.index = 6
rank TokenKind.on = 7
rank TokenKind.primary = 8
rank TokenKind.key = 9
rank TokenKind.using = 10
rank TokenKind.heap = 11
rank TokenKind.sequential = 12
rank TokenKind.bplus = 13
rank TokenKind.bplus_unclustered = 14
rank TokenKind.hash = 15
rank TokenKind.extendible_hash = 16
rank TokenKind.rtree = 17
rank TokenKind.fulltext = 18
rank TokenKind.inverted_index = 19
rank TokenKind.ivf = 20
rank TokenKind.hnsw = 21
rank TokenKind.with = 22
rank TokenKind.metric = 23
rank TokenKind.similar_to = 24
rank TokenKind.insert = 25
rank TokenKind.into = 26
rank TokenKind.values = 27
rank TokenKind.select = 28
rank TokenKind.explain = 29
rank TokenKind.analyze = 30
rank TokenKind.from = 31
rank TokenKind.join = 32
rank TokenKind.where_word = 33
rank TokenKind.delete = 34
rank TokenKind.drop = 35
rank TokenKind.order = 36
rank TokenKind.by = 37
rank TokenKind.asc = 38
rank TokenKind.desc = 39
rank TokenKind.limit = 40
rank TokenKind.group = 41
rank TokenKind.count = 42
rank TokenKind.sum = 43
rank TokenKind.min = 44
rank TokenKind.max = 45
rank TokenKind.avg = 46
rank TokenKind.between = 47
rank TokenKind.and = 48
rank TokenKind.distancia = 49
rank TokenKind.dentro = 50
rank TokenKind.polygon = 51
rank TokenKind.match = 52
rank TokenKind.tf_idf = 53
rank TokenKind.bm25 = 54
rank TokenKind.score = 55
rank TokenKind.similarity_score = 56
rank TokenKind.as_word = 57
rank TokenKind.haversine = 58
rank TokenKind.euclidean = 59
rank TokenKind.int = 60
rank TokenKind.double = 61
rank TokenKind.varchar = 62
rank TokenKind.bool = 63
rank TokenKind.date = 64
rank TokenKind.point = 65
rank TokenKind.vector = 66
rank TokenKind.true = 67
rank TokenKind.false = 68
rank TokenKind.begin = 69
rank TokenKind.transaction = 70
rank TokenKind.end = 71
rank TokenKind.lparen = 72
rank TokenKind.rparen = 73
rank TokenKind.comma = 74
rank TokenKind.semicolon = 75
rank TokenKind.star = 76
rank TokenKind.dot = 77
rank TokenKind.equal = 78
rank TokenKind.less_than = 79
rank TokenKind.less_than_or_equal = 80
rank TokenKind.greater_than = 81
rank TokenKind.greater_than_or_equal = 82
rank TokenKind.eof = 83

abbrev ranked : List TokenKind
ranked =
    TokenKind.identifier ∷ TokenKind.integer ∷ TokenKind.double_literal ∷ TokenKind.string
    ∷ TokenKind.create ∷ TokenKind.table ∷ TokenKind.index ∷ TokenKind.on ∷ TokenKind.primary
    ∷ TokenKind.key ∷ TokenKind.using ∷ TokenKind.heap ∷ TokenKind.sequential ∷ TokenKind.bplus
    ∷ TokenKind.bplus_unclustered ∷ TokenKind.hash ∷ TokenKind.extendible_hash ∷ TokenKind.rtree
    ∷ TokenKind.fulltext ∷ TokenKind.inverted_index ∷ TokenKind.ivf ∷ TokenKind.hnsw
    ∷ TokenKind.with ∷ TokenKind.metric ∷ TokenKind.similar_to ∷ TokenKind.insert ∷ TokenKind.into
    ∷ TokenKind.values ∷ TokenKind.select ∷ TokenKind.explain ∷ TokenKind.analyze ∷ TokenKind.from
    ∷ TokenKind.join ∷ TokenKind.where_word ∷ TokenKind.delete ∷ TokenKind.drop ∷ TokenKind.order
    ∷ TokenKind.by ∷ TokenKind.asc ∷ TokenKind.desc ∷ TokenKind.limit ∷ TokenKind.group
    ∷ TokenKind.count ∷ TokenKind.sum ∷ TokenKind.min ∷ TokenKind.max ∷ TokenKind.avg
    ∷ TokenKind.between ∷ TokenKind.and ∷ TokenKind.distancia ∷ TokenKind.dentro ∷ TokenKind.polygon
    ∷ TokenKind.match ∷ TokenKind.tf_idf ∷ TokenKind.bm25 ∷ TokenKind.score
    ∷ TokenKind.similarity_score ∷ TokenKind.as_word ∷ TokenKind.haversine ∷ TokenKind.euclidean
    ∷ TokenKind.int ∷ TokenKind.double ∷ TokenKind.varchar ∷ TokenKind.bool ∷ TokenKind.date
    ∷ TokenKind.point ∷ TokenKind.vector ∷ TokenKind.true ∷ TokenKind.false ∷ TokenKind.begin
    ∷ TokenKind.transaction ∷ TokenKind.end ∷ TokenKind.lparen ∷ TokenKind.rparen ∷ TokenKind.comma
    ∷ TokenKind.semicolon ∷ TokenKind.star ∷ TokenKind.dot ∷ TokenKind.equal ∷ TokenKind.less_than
    ∷ TokenKind.less_than_or_equal ∷ TokenKind.greater_than ∷ TokenKind.greater_than_or_equal
    ∷ TokenKind.eof ∷ []

-- `a is b`
unfoldable pub kind_eq : TokenKind → TokenKind → Bool
kind_eq a b = rank a == rank b

ranked-rank : (k : TokenKind) → get_elem? ranked (rank k) ≡ some k
ranked-rank TokenKind.identifier = refl
ranked-rank k = refl

pub kind_eq→eq : (a b : TokenKind) → kind_eq a b ≡ true → a ≡ b
unfolding kind_eq
kind_eq→eq a b h =
    let e : some a ≡ some b =
      sym (ranked-rank a)
      ∙ ap (get_elem? ranked) ((==_iff (rank a) (rank b)).0 h)
      ∙ ranked-rank b in
    cc

abbrev pub is_end : TokenKind → Bool
is_end TokenKind.eof = true
is_end other = false

-- EOF is of no other kind.
pub eof-kind_eq : (k : TokenKind) → is_end k ≡ false → kind_eq TokenKind.eof k ≡ false
unfolding kind_eq
eof-kind_eq TokenKind.eof h = absurd (cc)
eof-kind_eq k h = refl

pub any-eof-kind_eq :
    (kinds : List TokenKind)
    → any is_end kinds ≡ false
    → any (λ k. kind_eq TokenKind.eof k) kinds ≡ false
any-eof-kind_eq [] h = refl
any-eof-kind_eq (k ∷ kinds) h = ground (arith, eof-kind_eq k, any-eof-kind_eq kinds)
