-- ===== src/Parser/Reading/Good.antt =====
-- engine/parser/parser.py: what the parser keeps true of the tokens, and the postcondition of its
-- methods.
use quipudb.Prelude.{
  ℕ, suc, ◌≤◌, ◌<◌, ◌≡◌, true, false, Option, none, some, List, [], ◌∷◌, length, arith,
}
use quipudb.Prelude.Int.{ℤ}
use quipudb.Parser.Span.{Span, first_span, last_span, through}
use quipudb.Parser.Errors.{ErrorClass, parse_error, unsupported_error, SqlError}
use quipudb.Parser.Tokens.{TokenKind, text, integer, double, Token}
use quipudb.Parser.Ast.{ScoreKind}
use quipudb.Parser.Kinds.{kind_eq}
use quipudb.Parser.Stream.{
  Letters, Env, Stream, at, Outcome, Parser, done, error, overflow, is_one_of, upper_text,
}
use quipudb.Parser.Grammar.Queries.{score_kind}

-- From the start of one span to the end of another.
abbrev pub join : Span → Span → Span
join a b = record {
  start = a.start;
  end = b.end;
  line = a.line;
  column = a.column;
  end_line = b.end_line;
  end_column = b.end_column;
}

-- A span that begins no earlier, and ends later.
abbrev pub Past : Span → Span → Type 0
Past p q = (p.start ≤ q.start) × (p.end < q.end)

pub data Upto (b : Span) : Span → Type 0 where
  same : Upto b b
  past : {q : Span} → Past b q → Upto b q

pub Past-trans : (a b c : Span) → Past a b → Upto b c → Past a c
Past-trans a b c p same = p
Past-trans a b c p (past q) = omega arith

pub Upto-Past : (a b c : Span) → Upto a b → Past b c → Past a c
Upto-Past a b c same q = q
Upto-Past a b c (past p) q = omega arith

pub Upto-trans : (a b c : Span) → Upto a b → Upto b c → Upto a c
Upto-trans a b c same q = q
Upto-trans a b c (past p) q = past (Past-trans a b c p q)

pub start-Upto : {a b : Span} → Upto a b → a.start ≤ b.start
start-Upto same = omega arith
start-Upto (past p) = p.0

pub through-join : (a b : Span) → a.start ≤ b.start → a.end < b.end → through a b ≡ join a b
unfolding through first_span last_span
through-join a b h k = ground arith

pub through-Upto : (a b : Span) → Upto a b → through a b ≡ join a b
unfolding through first_span last_span
through-Upto a b same = ground arith
through-Upto a b (past p) = through-join a b p.0 p.1

-- The value of a token is of the type that the parser reads from its kind.
abbrev pub HasValue : {F : Type 0} → Letters → TokenKind → Token F → Type 0
HasValue letters TokenKind.identifier t = (w : List ℕ) × (t.value ≡ text w)
HasValue letters TokenKind.string t = (w : List ℕ) × (t.value ≡ text w)
HasValue letters TokenKind.integer t = (n : ℤ) × (t.value ≡ integer n)
HasValue {F} letters TokenKind.double_literal t = (x : F) × (t.value ≡ double x)
HasValue letters TokenKind.score t =
    (kind : ScoreKind) × (score_kind (upper_text letters t.lexeme) ≡ some kind)
HasValue letters TokenKind.similarity_score t =
    (kind : ScoreKind) × (score_kind (upper_text letters t.lexeme) ≡ some kind)
HasValue letters other t = Unit

abbrev pub previous : {F : Type 0} → Stream F → Span
previous (at p ts) = p.span

-- The span of the token that comes next.
abbrev pub headed : {F : Type 0} → Stream F → Option Span
headed (at p []) = none
headed (at p (t ∷ ts)) = some t.span

pub data IsParserError : ErrorClass → Type 0 where
  parse : IsParserError parse_error
  unsupported : IsParserError unsupported_error

module _ {F : Type 0} ⦃env : Env F⦄ (At : Span → Type 0) where
  -- Tokens after a span: each begins no earlier than the one before and ends later, has a value of
  -- its kind, and lies where `At` says. The last is EOF, and no other is.
  pub data Follow : Span → List (Token F) → Type 0 where
    last : {p : Span} {t : Token F} → t.kind ≡ TokenKind.eof → At t.span → Follow p (t ∷ [])
    next :
        {p : Span} {t : Token F} {ts : List (Token F)}
        → kind_eq t.kind TokenKind.eof ≡ false
        → HasValue env.letters t.kind t
        → Past p t.span
        → At t.span
        → Follow t.span ts
        → Follow p (t ∷ ts)

  -- `n` bounds the tokens that are left, and the token before ends at `b` or later, and lies where
  -- `At` says.
  pub data Good (n : ℕ) (b : Span) : Stream F → Type 0 where
    good :
        {p : Token F} {ts : List (Token F)}
        → Upto b p.span
        → Follow p.span ts
        → length ts ≤ n
        → At p.span
        → Good n b (at p ts)

  -- The method returns and its result satisfies `P`, or it raises an error at a place of the query,
  -- or OverflowError for a number that is too large for `float`.
  pub data Ensures {ℓ} {A : Type ℓ} (P : A → Stream F → Type 0) : Outcome F A → Type ℓ where
    holds : {a : A} {s : Stream F} → P a s → Ensures P (done a s)
    rejected :
        {e : SqlError}
        → At e.span
        → e.source ≡ some env.source
        → IsParserError e.class
        → Ensures P (error e)
    overflowed : {n : ℤ} → env.of_integer n ≡ none → Ensures P (overflow n)

  -- The token that comes next, of one of some kinds, has been read.
  pub record Took (kinds : List TokenKind) (n : ℕ) (b : Span) (s : Stream F) (t : Token F)
      (s' : Stream F) : Type 0 where
    pub state : Good n b s'
    pub fewer : (m : ℕ) → n ≤ suc m → Good m b s'
    pub closed : Good n t.span s'
    pub after : Past (previous s) t.span
    pub bound : Past b t.span
    pub span_is : t.span ≡ previous s'
    pub is_head : headed s ≡ some t.span
    pub matched : is_one_of kinds t ≡ true
    pub value : HasValue env.letters t.kind t
    pub place : At t.span

  -- What was read from a state on has a span, from a token after the state's to the last one read.
  pub record Read (n : ℕ) (b : Span) (s s' : Stream F) (span : Span) : Type 0 where
    pub state : Good n b s'
    pub first : Span
    pub after : Past (previous s) first
    pub upto : Upto first (previous s')
    pub is : span ≡ join first (previous s')

  -- What begins with a token that has been read has a span, from that token to the last one read.
  pub record Closed (n : ℕ) (b : Span) (s' : Stream F) (span : Span) : Type 0 where
    pub state : Good n b s'
    pub is : span ≡ join b (previous s')

  -- A method after which the tokens are as they should be, however many are left.
  abbrev pub Keeps {ℓ} : {A : Type ℓ} → Span → Parser F A → Type ℓ
  Keeps b p = (n : ℕ) (s : Stream F) → Good n b s → Ensures (λ a s'. Good n b s') (p s)
