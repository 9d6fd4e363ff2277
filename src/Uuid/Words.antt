-- ===== src/Uuid/Words.antt =====
-- The bounds of `random_state` and `random_index` in src/uuid.c.
use emme.Prelude.{
  ℕ, zero, suc, ◌+◌, ◌-◌, ◌≡◌, refl, ◌∙◌, ◌≤◌, Bool, true, false, leb, leb-false, Bool-cases, inl,
  inr, List, [], ◌∷◌, length, length-set, arith, if◌then◌else◌,
}
use emme.Uuid.{
  RandomState, untouched, seed_from, init_random_state, twist_word, twist_ahead, twist_behind,
  twist, generate_random, get_random_uint,
}

length-seed_from : (left i : ℕ) (ws : List ℕ) → length (seed_from left i ws) ≡ length ws
unfolding seed_from
length-seed_from zero i ws = refl
length-seed_from (suc left) i ws = length-seed_from left (i + 1) _ ∙ length-set ws i _

length-twist_word : (ws : List ℕ) (i next far : ℕ) → length (twist_word ws i next far) ≡ length ws
unfolding twist_word
length-twist_word ws i next far = length-set ws i _

length-twist_ahead : (left i : ℕ) (ws : List ℕ) → length (twist_ahead left i ws) ≡ length ws
unfolding twist_ahead
length-twist_ahead zero i ws = refl
length-twist_ahead (suc left) i ws =
    length-twist_ahead left (i + 1) _ ∙ length-twist_word ws i (i + 1) (i + 397)

length-twist_behind : (left i : ℕ) (ws : List ℕ) → length (twist_behind left i ws) ≡ length ws
unfolding twist_behind
length-twist_behind zero i ws = refl
length-twist_behind (suc left) i ws =
    length-twist_behind left (i + 1) _ ∙ length-twist_word ws i (i + 1) (i - 227)

length-twist : (ws : List ℕ) → length (twist ws) ≡ length ws
unfolding twist
length-twist ws =
    length-twist_word _ 623 0 396 ∙ (length-twist_behind 396 227 _ ∙ length-twist_ahead 227 0 ws)

-- All 624 words are there, and a seeded generator never stands past their end.
abbrev pub IsBounded : RandomState → Type 0
IsBounded s = (length s.words ≡ 624) × (s.initialized ≡ true → s.index ≤ 624)

untouched-IsBounded : IsBounded untouched
untouched-IsBounded = (refl, λ h. absurd (ground (arith, h)))

init_random_state-IsBounded :
    (seed : ℕ) (s : RandomState) → IsBounded s → IsBounded (init_random_state seed s)
unfolding init_random_state
init_random_state-IsBounded seed s b =
    (length-seed_from 623 1 _ ∙ (length-set s.words 0 _ ∙ b.0), λ h. omega arith)

either_words :
    {n : ℕ} (b : Bool) (s s' : RandomState)
    → length s.words ≡ n
    → length s'.words ≡ n
    → length ((if b then s else s').words) ≡ n
either_words true s s' l l' = l
either_words false s s' l l' = l'

-- A number is read from one of the 624 words: the index behind it is at most 624.
generate_random-IsBounded :
    (s : RandomState)
    → length s.words ≡ 624
    → (length ((generate_random s).1.words) ≡ 624) × ((generate_random s).1.index ≤ 624)
unfolding generate_random
generate_random-IsBounded s l = elim (Bool-cases (leb 624 s.index)) [
  | inl full ↦ rw full (length-twist s.words ∙ l, omega arith)
  | inr rest ↦ rw rest (l, omega (arith, leb-false 624 s.index rest))
]

get_random_uint-IsBounded :
    (seed : ℕ) (s : RandomState)
    → IsBounded s
    → let s' = (get_random_uint seed s).1 in (length s'.words ≡ 624) × (s'.index ≤ 624)
unfolding get_random_uint
get_random_uint-IsBounded seed s b =
    generate_random-IsBounded _
      (either_words s.initialized s _ b.0 (init_random_state-IsBounded seed s b).0)

-- The generator after some calls, each with what would seed it
abbrev pub after_calls : List ℕ → RandomState
after_calls [] = untouched
after_calls (seed ∷ seeds) = (get_random_uint seed (after_calls seeds)).1

after_calls-IsBounded : (seeds : List ℕ) → IsBounded (after_calls seeds)
after_calls-IsBounded [] = untouched-IsBounded
after_calls-IsBounded (seed ∷ seeds) =
    let found = get_random_uint-IsBounded seed (after_calls seeds) (after_calls-IsBounded seeds) in
    (found.0, λ _. found.1)
