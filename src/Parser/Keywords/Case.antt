-- ===== src/Parser/Keywords/Case.antt =====
-- Reserved words in either case of their letters.
use quipudb.Prelude.{◌≡◌, refl, sym, ap, ◌∙◌, ◌&&◌, ℕ, [], ◌∷◌, map, arith, if◌then◌else◌}
use mathlib.Core.Path.{ap₂}
use quipudb.Parser.Chars.{Text, is_ascii, all_ascii, upper}
use quipudb.Parser.Tokens.{TokenKind}
use quipudb.Parser.Keywords.{word_kind, find_keyword, keywords}

upper-upper : (c : ℕ) → upper (upper c) ≡ upper c
upper-upper c = ground arith

is_ascii-upper : (c : ℕ) → is_ascii (upper c) ≡ is_ascii c
is_ascii-upper c = ground arith

map-upper-upper : (w : Text) → map upper (map upper w) ≡ map upper w
map-upper-upper [] = refl
map-upper-upper (c ∷ w) = ap₂ (λ d v. d ∷ v) (upper-upper c) (map-upper-upper w)

all_ascii-upper : (w : Text) → all_ascii (map upper w) ≡ all_ascii w
all_ascii-upper [] = refl
all_ascii-upper (c ∷ w) = ap₂ (λ a b. a && b) (is_ascii-upper c) (all_ascii-upper w)

-- The kind of a word does not depend on the case of its ASCII letters.
pub word_kind-upper : (w v : Text) → map upper w ≡ map upper v → word_kind w ≡ word_kind v
unfolding word_kind
word_kind-upper w v e =
    ap₂ (λ a u. if a then find_keyword u keywords else TokenKind.identifier)
      (sym (all_ascii-upper w) ∙ ap all_ascii e ∙ all_ascii-upper v) e
