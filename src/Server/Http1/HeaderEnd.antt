-- ===== src/Server/Http1/HeaderEnd.antt =====
-- `find_header_end` of src/server.c against its description: the first CRLF CRLF.
use emme.Prelude.{
  ℕ, suc, ◌+◌, ◌≡◌, ◌≤◌, refl, ap, ◌∙◌, true, false, Option, none, some, [], ◌∷◌, ◌++◌, Bytes,
  length, has_prefix, arith, inl, inr, Bool-cases,
}
use mathlib.Core.Path.{subst}
use emme.Router.Header.{crlf}
use emme.Server.Http1.{header_end_from, find_header_end}

-- The text goes on with an empty line behind `front`.
abbrev pub BlankAt : Bytes → Bytes → Type 0
BlankAt s front = (back : Bytes) × (s ≡ front ++ ((crlf ++ crlf) ++ back))

-- Where the first empty line ends, if there is one
pub data FirstBlank (s : Bytes) : Option ℕ → Type 0 where
  no_blank : ((front : Bytes) → BlankAt s front → ⊥) → FirstBlank s none
  first_blank :
      (front : Bytes)
      → BlankAt s front
      → ((other : Bytes) → BlankAt s other → length front ≤ length other)
      → FirstBlank s (some (length front + 4))

has_prefix-split : (s p : Bytes) → has_prefix s p ≡ true → (back : Bytes) × (s ≡ p ++ back)
unfolding has_prefix
has_prefix-split s [] h = (s, refl)
has_prefix-split [] (x ∷ p) h = absurd (ground (arith, h))
has_prefix-split (c ∷ s) (x ∷ p) h =
    let (back, e) = has_prefix-split s p (ground (arith, h)) in (back, ground (arith, h, e))

has_prefix_append : (p back : Bytes) → has_prefix (p ++ back) p ≡ true
unfolding has_prefix
has_prefix_append [] back = refl
has_prefix_append (x ∷ p) back = ground (arith, has_prefix_append p back)

-- A result of the search from an index on
data FirstFrom (i : ℕ) (s : Bytes) : Option ℕ → Type 0 where
  none_from : ((front : Bytes) → BlankAt s front → ⊥) → FirstFrom i s none
  some_from :
      (front : Bytes) (e : ℕ)
      → BlankAt s front
      → ((other : Bytes) → BlankAt s other → length front ≤ length other)
      → e ≡ i + length front + 4
      → FirstFrom i s (some e)

abbrev tail_of : Bytes → Bytes
tail_of [] = []
tail_of (c ∷ s) = s

-- Where no empty line starts at the first byte, one that is there is behind it.
behind :
    (c : ℕ) (s other : Bytes)
    → has_prefix (c ∷ s) (crlf ++ crlf) ≡ false
    → BlankAt (c ∷ s) other
    → (rest : Bytes) × (length other ≡ suc (length rest)) × BlankAt s rest
behind c s [] h (back, e) =
    let yes' : has_prefix (c ∷ s) (crlf ++ crlf) ≡ true =
      ap (λ t. has_prefix t (crlf ++ crlf)) e ∙ has_prefix_append (crlf ++ crlf) back in
    absurd (ground (arith, h, yes'))
behind c s (d ∷ rest) h (back, e) = (rest, refl, (back, ap tail_of e))

later :
    (i : ℕ) (c : ℕ) (s : Bytes) (o : Option ℕ)
    → has_prefix (c ∷ s) (crlf ++ crlf) ≡ false
    → FirstFrom (i + 1) s o
    → FirstFrom i (c ∷ s) o
later i c s _ h (none_from f) =
    none_from (λ front b. let (rest, n, b') = behind c s front h b in f rest b')
later i c s _ h (some_from front e (back, b) m at) =
    some_from (c ∷ front) e (back, ap (λ t. c ∷ t) b)
      (λ other b'. let (rest, n, t) = behind c s other h b' in omega (arith, n, m rest t))
      (omega (arith, at))

no_room : (front back : Bytes) → [] ≡ front ++ ((crlf ++ crlf) ++ back) → ⊥
no_room [] back e = ground (arith, e)
no_room (c ∷ front) back e = ground (arith, e)

header_end_from-FirstFrom : (i : ℕ) (s : Bytes) → FirstFrom i s (header_end_from i s)
unfolding header_end_from
header_end_from-FirstFrom i [] = none_from (λ front (back, e). no_room front back e)
header_end_from-FirstFrom i (c ∷ s) =
    let rest = header_end_from-FirstFrom (i + 1) s in
    elim (Bool-cases (has_prefix (c ∷ s) (crlf ++ crlf))) [
      | inl h ↦ rw h (
          some_from [] (i + 4) (has_prefix-split (c ∷ s) (crlf ++ crlf) h) (λ other b. omega arith)
            (omega arith))
      | inr h ↦ rw h (later i c s _ h rest)
    ]

-- `find_header_end` gives the end of the first empty line, CRLF CRLF, of any text, and nothing exactly where the
-- text has none.
pub find_header_end-FirstBlank : (s : Bytes) → FirstBlank s (find_header_end s)
unfolding find_header_end
find_header_end-FirstBlank s = from_start s (header_end_from 0 s) (header_end_from-FirstFrom 0 s)
  where
    from_start : (s : Bytes) (o : Option ℕ) → FirstFrom 0 s o → FirstBlank s o
    from_start s _ (none_from f) = no_blank f
    from_start s _ (some_from front e b m at) =
        subst (λ k. FirstBlank s (some k)) {x = length front + 4} (omega (arith, at))
          (first_blank front b m)
