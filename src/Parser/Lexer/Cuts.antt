-- ===== src/Parser/Lexer/Cuts.antt =====
-- `tokenize` cuts the source into tokens, in order and each where its span says, or names the place
-- of an error.
use mathlib.Core.Path.{subst}
use quipudb.Prelude.{
  ℕ, zero, suc, Bool, ◌+◌, ◌≤◌, ◌<◌, ◌≡◌, refl, sym, ap, ◌∙◌, some, List, [], ◌∷◌, ◌++◌, length,
  length-append, arith, append-nil,
}
use quipudb.Parser.Chars.{Text, slice}
use quipudb.Parser.Chars.Slices.{slice-append}
use quipudb.Parser.Errors.{split_lines}
use quipudb.Parser.Tokens.{TokenKind, Token}
use quipudb.Parser.Cursor.{Cursor, start_of, span_from}
use quipudb.Parser.Cursor.Reading.{stays, Reads-trans, rest-Reads, index-Reads, Reads-Counts}
use quipudb.Parser.Scanner.{Doubles, Round, skipped, found, failed}
use quipudb.Parser.Scanner.Progress.{Progress, Onward, Spans}
use quipudb.Parser.Lexer.{
  Lexed, tokens, rejected, out_of_fuel, scan_round, end_token, prepend, continued, tokenize_from,
  tokenize,
}
use quipudb.Parser.Lexer.Places.{IsPlace, IsSpanOf, places-IsSpanOf}
use quipudb.Parser.Lexer.Rounds.{scan_round-Spans}

-- The token's text stands in the source at the token's span, and is not empty.
pub record IsLexeme {F : Type 0} (source : Text) (t : Token F) : Type 0 where
  pub place : IsSpanOf source t.span
  pub before : Text
  pub after : Text
  pub splits : source ≡ before ++ (t.lexeme ++ after)
  pub start_is : t.span.start ≡ length before
  pub end_is : t.span.end ≡ t.span.start + length t.lexeme
  pub nonempty : 0 < length t.lexeme

-- Tokens from an offset on: none begins before the one ahead of it has ended, and the last is EOF,
-- at the end of the source.
pub data IsCut {F : Type 0} (source : Text) : ℕ → List (Token F) → Type 0 where
  ends :
      (n : ℕ) (t : Token F)
      → t.kind ≡ TokenKind.eof
      → IsSpanOf source t.span
      → n ≤ t.span.start
      → t.span.start ≡ length source
      → t.span.end ≡ length source
      → IsCut source n (t ∷ [])
  cuts :
      (n : ℕ) (t : Token F) (ts : List (Token F))
      → IsLexeme source t
      → n ≤ t.span.start
      → IsCut source t.span.end ts
      → IsCut source n (t ∷ ts)

-- What the lexer has to give: the tokens of a cut, or an error with its place.
abbrev pub IsTokenized : {F : Type 0} → Text → ℕ → Lexed F → Type 0
IsTokenized source n (tokens ts) = IsCut source n ts
IsTokenized source n (rejected e) = IsSpanOf source e.span × (e.source ≡ some source)
IsTokenized source n out_of_fuel = ⊥

module _ {F : Type 0} (doubles : Doubles F) (is_alpha : ℕ → Bool) (source : Text) where
  -- A cursor that the loop can reach.
  abbrev Reached : Cursor → Type 0
  Reached k = Onward (start_of source) k

  Reached-IsPlace : (k : Cursor) → Reached k → IsPlace source k.index k.line k.column
  unfolding split_lines
  Reached-IsPlace k (t, r) = record {
    before = t;
    after = k.rest;
    splits = rest-Reads t (start_of source) k r;
    offset_is = omega (arith, index-Reads t (start_of source) k r);
    line_is = omega (arith, (Reads-Counts t (start_of source) k r).0);
    column_is = (Reads-Counts t (start_of source) k r).1;
  }

  after-Reached : (k m : Cursor) → Reached k → Progress k m → Reached m
  after-Reached k m (t, r) (c, u, p) = (t ++ c ∷ u, Reads-trans t (c ∷ u) (start_of source) k m r p)

  index-Progress : (k m : Cursor) → Progress k m → k.index < m.index
  index-Progress k m (c, u, p) = omega (arith, index-Reads (c ∷ u) k m p)

  length-Progress : (k m : Cursor) → Progress k m → length m.rest < length k.rest
  length-Progress k m (c, u, p) =
      omega (arith, ap length (rest-Reads (c ∷ u) k m p), length-append (c ∷ u) m.rest)

  span_from-IsSpanOf : (k m : Cursor) → Reached k → Progress k m → IsSpanOf source (span_from k m)
  span_from-IsSpanOf k m r p =
      places-IsSpanOf source (span_from k m) (Reached-IsPlace k r)
        (Reached-IsPlace m (after-Reached k m r p)) (omega (arith, index-Progress k m p))

  found-IsLexeme :
      (k m : Cursor) (t : Token F)
      → Reached k
      → Progress k m
      → t.span ≡ span_from k m
      → t.lexeme ≡ slice k.index m.index source
      → IsLexeme source t
  found-IsLexeme k m t (a, r) (c, u, p) s e = record {
    place = rw s (span_from-IsSpanOf k m (a, r) (c, u, p));
    before = a;
    after = m.rest;
    splits = rw (e ∙ read) whole;
    start_is = rw s (omega (arith, index-Reads a (start_of source) k r));
    end_is = rw (s, e ∙ read) (index-Reads (c ∷ u) k m p);
    nonempty = rw (e ∙ read) (omega arith);
  }
    where
      whole : source ≡ a ++ ((c ∷ u) ++ m.rest)
      whole = rest-Reads a (start_of source) k r ∙ ap (λ w. a ++ w) (rest-Reads (c ∷ u) k m p)

      read : slice k.index m.index source ≡ c ∷ u
      read =
          ap (λ w. slice k.index m.index w) whole
          ∙ slice-append a (c ∷ u) m.rest k.index m.index
              (omega (arith, index-Reads a (start_of source) k r)) (index-Reads (c ∷ u) k m p)

  end-IsCut :
      (n : ℕ) (k : Cursor)
      → Reached k
      → n ≤ k.index
      → k.rest ≡ []
      → IsCut source n (end_token doubles is_alpha source k ∷ [])
  end-IsCut n k (t, r) le e =
      ends n _ refl (places-IsSpanOf source _ here here (omega arith)) le at_end at_end
    where
      here : IsPlace source k.index k.line k.column
      here = Reached-IsPlace k (t, r)

      at_end : k.index ≡ length source
      at_end = omega (
        arith,
        index-Reads t (start_of source) k r,
        ap length (
            sym (append-nil t)
            ∙ ap (λ w. t ++ w) (sym e)
            ∙ sym (rest-Reads t (start_of source) k r)),
      )

  prepend-IsTokenized :
      (n : ℕ) (t : Token F) (r : Lexed F)
      → IsLexeme source t
      → n ≤ t.span.start
      → IsTokenized source t.span.end r
      → IsTokenized source n (prepend doubles is_alpha source t r)
  prepend-IsTokenized n t (tokens ts) l le h = cuts n t ts l le h
  prepend-IsTokenized n t (rejected e) l le h = h
  prepend-IsTokenized n t out_of_fuel l le h = elim h [ ]

  -- What the loop gives from every cursor that it reaches with enough fuel.
  abbrev FuelSuffices : ℕ → Type 0
  FuelSuffices fuel =
      (n : ℕ) (k : Cursor)
      → Reached k
      → n ≤ k.index
      → length k.rest < fuel
      → IsTokenized source n (tokenize_from doubles is_alpha source fuel k)

  after_round :
      (fuel n : ℕ) (k : Cursor)
      → FuelSuffices fuel
      → Reached k
      → n ≤ k.index
      → length k.rest < suc fuel
      → (round : Round F) → Spans doubles is_alpha source k round
      → IsTokenized source n
          (continued doubles is_alpha source (tokenize_from doubles is_alpha source fuel) round)
  after_round fuel n k ih r le lt (skipped m) p =
      ih n m (after-Reached k m r p) (omega (arith, index-Progress k m p))
        (omega (arith, length-Progress k m p))
  after_round fuel n k ih r le lt (found t m) (p, s, l) =
      prepend-IsTokenized n t _ (found-IsLexeme k m t r p s l) (rw s le) (
        ih t.span.end m (after-Reached k m r p) (rw s (omega arith))
          (omega (arith, length-Progress k m p)))
  after_round fuel n k ih r le lt (failed e) (m, p, s, l) = (rw s (span_from-IsSpanOf k m r p), l)

  pub tokenize_from-end :
      (fuel : ℕ) (k : Cursor)
      → k.rest ≡ []
      → tokenize_from doubles is_alpha source (suc fuel) k
        ≡ tokens (end_token doubles is_alpha source k ∷ [])
  unfolding tokenize_from
  tokenize_from-end fuel k e = rw e refl

  pub tokenize_from-round :
      (fuel : ℕ) (k : Cursor) (c : ℕ) (more : Text)
      → k.rest ≡ c ∷ more
      → tokenize_from doubles is_alpha source (suc fuel) k
        ≡ continued doubles is_alpha source
            (tokenize_from doubles is_alpha source fuel)
            (scan_round doubles is_alpha source c k)
  unfolding tokenize_from
  tokenize_from-round fuel k c more e = rw e refl

  next_round :
      (fuel n : ℕ) (k : Cursor)
      → FuelSuffices fuel
      → Reached k
      → n ≤ k.index
      → length k.rest < suc fuel
      → (t : Text) → k.rest ≡ t
      → IsTokenized source n (tokenize_from doubles is_alpha source (suc fuel) k)
  next_round fuel n k ih r le lt [] e =
      subst (IsTokenized source n) (sym (tokenize_from-end fuel k e)) (end-IsCut n k r le e)
  next_round fuel n k ih r le lt (c ∷ more) e =
      subst (IsTokenized source n) (sym (tokenize_from-round fuel k c more e)) (
        after_round fuel n k ih r le lt (scan_round doubles is_alpha source c k)
          (scan_round-Spans doubles is_alpha source c k more e))

  tokenize_from-IsTokenized : (fuel : ℕ) → FuelSuffices fuel
  tokenize_from-IsTokenized zero n k r le lt = absurd (omega arith)
  tokenize_from-IsTokenized (suc fuel) n k r le lt =
      next_round fuel n k (tokenize_from-IsTokenized fuel) r le lt k.rest refl

  -- Whatever the source, `tokenize` ends: with tokens that stand in the source in order, each where
  -- its offsets, lines and columns say, and EOF at its end; or with an error that names such a place.
  -- Each of these spans passes the checks of `Span`.
  pub tokenize-IsTokenized : IsTokenized source 0 (tokenize doubles is_alpha source)
  unfolding tokenize
  tokenize-IsTokenized =
      tokenize_from-IsTokenized (suc (length source)) 0 (start_of source)
        ([], stays (start_of source)) (omega arith) (omega arith)
