-- ===== src/Parser/Lexer/Strings.antt =====
-- String literals: the lexer reads back what quoting writes.
use quipudb.Prelude.{
  ℕ, ◌≡◌, refl, sym, ap, ◌∙◌, Bool, true, false, [], ◌∷◌, ◌++◌, length, ◌==◌, if◌then◌else◌, arith,
  Bool-cases, inl, inr, append_assoc, append-nil,
}
use quipudb.Parser.Chars.{Text}
use quipudb.Parser.Tokens.{TokenKind, text}
use quipudb.Parser.Cursor.{Cursor, start_of, advance}
use quipudb.Parser.Cursor.Reading.{rest-advance}
use quipudb.Parser.Scanner.{Doubles, Round, found, token_from, scan_characters, scan_string}
use quipudb.Parser.Lexer.Cuts.{tokenize_from-end, tokenize_from-round}
use quipudb.Parser.Lexer.{
  tokens, scan_round, end_token, continued, prepend, tokenize_from, tokenize,
}

-- How SQL writes a string: each quote twice, and a quote at the end.
unfoldable pub quoted : Text → Text
quoted [] = 39 ∷ []
quoted (c ∷ t) = if c == 39 then 39 ∷ 39 ∷ quoted t else c ∷ quoted t

unfoldable pub literal : Text → Text
unfolding quoted
literal t = 39 ∷ quoted t

quoted-cons : (t : Text) → (c : ℕ) × (more : Text) × (quoted t ≡ c ∷ more)
unfolding quoted
quoted-cons [] = (39, [], refl)
quoted-cons (c ∷ t) = elim (Bool-cases (c == 39)) [
  | inl h ↦ (39, 39 ∷ quoted t, rw h refl)
  | inr h ↦ (c, quoted t, rw h refl)
]

rest_twice :
    (k : Cursor) (c d : ℕ) (more : Text) → k.rest ≡ c ∷ d ∷ more → (advance (advance k)).rest ≡ more
rest_twice k c d more e = rest-advance (advance k) d more (rest-advance k c (d ∷ more) e)

module _ {F : Type 0} (doubles : Doubles F) (is_alpha : ℕ → Bool) (source : Text) where
  scan_characters_plain :
      (mark k : Cursor) (c : ℕ) (t value : Text)
      → c == 39 ≡ false
      → scan_characters doubles is_alpha source mark (c ∷ quoted t) k value
        ≡ scan_characters doubles is_alpha source mark (quoted t) (advance k) (value ++ c ∷ [])
  unfolding scan_characters
  scan_characters_plain mark k c t value h =
      let (d, more, e) = quoted-cons t in rw (e, h, scan_characters) refl

  -- The loop ends at the last quote, with the text that was quoted.
  record Closed (mark : Cursor) (round : Round F) (value : Text) : Type 0 where
    stop : Cursor
    rest : stop.rest ≡ []
    read :
        round
        ≡ found (token_from doubles is_alpha source TokenKind.string mark stop (text value)) stop

  same-Closed :
      (mark : Cursor) {round other : Round F} {value same : Text}
      → round ≡ other
      → value ≡ same
      → Closed mark round value
      → Closed mark other same
  same-Closed mark {round} {other} {value} {same} p q r = record {
    stop = r.stop;
    rest = r.rest;
    read =
        sym p
        ∙ r.read
        ∙ ap
            (λ v.
              found (token_from doubles is_alpha source TokenKind.string mark r.stop (text v))
                r.stop)
            q;
  }

  scan_characters_doubled :
      (mark k : Cursor) (c : ℕ) (t value : Text)
      → c == 39 ≡ true
      → scan_characters doubles is_alpha source mark (quoted (c ∷ t)) k value
        ≡ scan_characters doubles is_alpha source mark
            (quoted t)
            (advance (advance k))
            (value ++ 39 ∷ [])
  unfolding scan_characters quoted
  scan_characters_doubled mark k c t value h = rw h refl

  scan_characters-Closed :
      (mark : Cursor) (t : Text) (k : Cursor) (value : Text)
      → k.rest ≡ quoted t
      → Closed mark (scan_characters doubles is_alpha source mark (quoted t) k value) (value ++ t)
  unfolding scan_characters quoted
  scan_characters-Closed mark [] k value e = record {
    stop = advance k;
    rest = rest-advance k 39 [] e;
    read = rw (append-nil value) refl;
  }
  scan_characters-Closed mark (c ∷ t) k value e = elim (Bool-cases (c == 39)) [
    | inl h ↦
        same-Closed mark (sym (scan_characters_doubled mark k c t value h))
          (append_assoc value (39 ∷ []) t ∙ ap (λ d. value ++ d ∷ t) (ground arith))
          (scan_characters-Closed mark t (advance (advance k)) (value ++ 39 ∷ [])
            (rest_twice k 39 39 (quoted t) (e ∙ rw h refl)))
    | inr h ↦
        same-Closed mark (rw h (sym (scan_characters_plain mark k c t value h)))
          (append_assoc value (c ∷ []) t)
          (scan_characters-Closed mark t (advance k) (value ++ c ∷ [])
            (rest-advance k c (quoted t) (e ∙ rw h refl)))
  ]

  scan_round-literal :
      is_alpha 39 ≡ false
      → (k : Cursor)
      → scan_round doubles is_alpha source 39 k
        ≡ scan_characters doubles is_alpha source k (advance k).rest (advance k) []
  unfolding scan_round scan_string
  scan_round-literal a k = rw a refl

  -- A string that is written by doubling its quotes is read back as one token with that value,
  -- if the quote is no letter.
  pub tokenize-literal :
      is_alpha 39 ≡ false
      → (t : Text) → source ≡ literal t
      → (stop : Cursor) × (tokenize doubles is_alpha source
          ≡ tokens (
              token_from doubles is_alpha source TokenKind.string (start_of source) stop (text t)
              ∷ end_token doubles is_alpha source stop
              ∷ []))
        × (stop.rest ≡ [])
  unfolding tokenize literal
  tokenize-literal a t e = (
    c.stop,
    tokenize_from-round doubles is_alpha source (length source) start 39 (quoted t) e
        ∙ ap
            (continued doubles is_alpha source
              (tokenize_from doubles is_alpha source (length source)))
            (scan_round-literal a start
              ∙ ap (λ r. scan_characters doubles is_alpha source start r (advance start) []) left
              ∙ c.read)
        ∙ ap (prepend doubles is_alpha source _) (
            ap (λ w. tokenize_from doubles is_alpha source (length w) c.stop) e
            ∙ tokenize_from-end doubles is_alpha source (length (quoted t)) c.stop c.rest),
    c.rest,
  )
    where
      start : Cursor
      start = start_of source

      left : (advance start).rest ≡ quoted t
      left = rest-advance start 39 (quoted t) e

      c :
          Closed start
            (scan_characters doubles is_alpha source start (quoted t) (advance start) [])
            t
      c = scan_characters-Closed start t (advance start) [] left
