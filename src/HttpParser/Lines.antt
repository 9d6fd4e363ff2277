-- ===== src/HttpParser/Lines.antt =====
-- What the parser of src/http_parser.c finds where a line or a word ends.
use emme.Prelude.{
  ℕ, ◌≡◌, ◌≢◌, refl, false, some, [], ◌∷◌, ◌++◌, Bytes, arith, Option-cases, inl, inr,
}
use emme.HttpParser.{add_byte, lines_from, split_at}

-- No byte of a text is `c`.
abbrev pub Without : ℕ → Bytes → Type 0
Without c [] = Unit {0}
Without c (d ∷ s) = (d ≢ c) × Without c s

-- A text with neither a NUL nor a CR is a line when CRLF follows it.
pub lines_from-line :
    (l rest : Bytes)
    → Without 0 l
    → Without 13 l
    → lines_from false (l ++ (13 ∷ 10 ∷ rest)) ≡ l ∷ lines_from false rest
unfolding lines_from add_byte
lines_from-line [] rest z r = refl
lines_from-line (c ∷ l) rest z r = ground (arith, lines_from-line l rest)

-- The first separator behind a text without one
pub split_at-append : (c : ℕ) (a b : Bytes) → Without c a → split_at c (a ++ (c ∷ b)) ≡ some (a, b)
unfolding split_at
split_at-append c [] b w = ground arith
split_at-append c (d ∷ a) b w = ground (arith, split_at-append c a b)

pub Without-append : (c : ℕ) (a b : Bytes) → Without c a → Without c b → Without c (a ++ b)
Without-append c [] b v w = w
Without-append c (d ∷ a) b v w = (v.0, Without-append c a b v.1 w)

-- What a split gives back, put together again, is the text, and the part in front has no separator.
pub split_at_sound :
    (c : ℕ) (s a b : Bytes) → split_at c s ≡ some (a, b) → (s ≡ a ++ (c ∷ b)) × Without c a
unfolding split_at
split_at_sound c [] a b h = ground arith
split_at_sound c (d ∷ s) [] b h = elim (Option-cases (split_at c s)) [
  | inl e ↦ ground (arith, e)
  | inr ((a', b'), e) ↦ ground (arith, e)
]
split_at_sound c (d ∷ s) (x ∷ a) b h = elim (Option-cases (split_at c s)) [
  | inl e ↦ ground (arith, e)
  | inr ((a', b'), e) ↦ ground (arith, e, split_at_sound c s a' b' e)
]
