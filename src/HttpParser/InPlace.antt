-- ===== src/HttpParser/InPlace.antt =====
-- What the parser of src/http_parser.c leaves in the buffer that it was given.
use emme.Prelude.{
  ℕ, ◌≡◌, refl, ap, sym, ◌∙◌, Bool, true, false, ◌==◌, some, List, [], ◌∷◌, ◌++◌, Bytes, length,
  drop, arith, inl, inr, Bool-cases, length-append, ltb, Always, result, no_result, Always-intro,
  Always-elim, Always-bind, Always-unless,
}
use mathlib.Core.Path.{subst}
use mathlib.Core.List.{append_assoc}
use emme.HttpParser.{
  HttpRequest, add_byte, lines_from, split_at, parse_request_line, parse_headers_from, request_of,
  parse_http_request, clear_first, clear_headers, clear_lines, parsed_buffer, max_request_line,
}
use emme.HttpParser.Lines.{Without, split_at_sound, Without-append}

-- A text starts with the first of its lines and CRLF, and the others are those of the rest.
abbrev Starts : Bytes → List Bytes → Type 0
Starts s [] = Unit {0}
Starts s (l ∷ ls) = (rest : Bytes) × (s ≡ l ++ (13 ∷ 10 ∷ rest)) × (lines_from false rest ≡ ls)

add_byte-Starts :
    (c : ℕ) (s : Bytes) (ls : List Bytes) → Starts s ls → Starts (c ∷ s) (add_byte c ls)
unfolding add_byte
add_byte-Starts c s [] h = tt
add_byte-Starts c s (l ∷ ls) (rest, e, more) = (rest, ap (λ t. c ∷ t) e, more)

abbrev behind : Bool → Bytes → Bytes
behind true s = 13 ∷ s
behind false s = s

lines_from-Starts : (p : Bool) (s : Bytes) → Starts (behind p s) (lines_from p s)
unfolding lines_from
lines_from-Starts p [] = tt
lines_from-Starts false (c ∷ s) = elim (Bool-cases (c == 0)) [
  | inl z ↦ rw z tt
  | inr z ↦ elim (Bool-cases (c == 13)) [
    | inl r ↦ (let same : c ≡ 13 = ground (arith, r) in rw same (lines_from-Starts true s))
    | inr r ↦ rw (z, r) (add_byte-Starts c s _ (lines_from-Starts false s))
  ]
]
lines_from-Starts true (c ∷ s) = elim (Bool-cases (c == 0)) [
  | inl z ↦ rw z tt
  | inr z ↦ elim (Bool-cases (c == 10)) [
    | inl n ↦ (let same : c ≡ 10 = ground (arith, n) in rw same (s, refl, refl))
    | inr n ↦ elim (Bool-cases (c == 13)) [
      | inl r ↦
          (let same : c ≡ 13 = ground (arith, r) in
            rw same (add_byte-Starts 13 (13 ∷ s) _ (lines_from-Starts true s)))
      | inr r ↦
          rw (z, n, r)
            (add_byte-Starts 13 (c ∷ s) _ (add_byte-Starts c s _ (lines_from-Starts false s)))
    ]
  ]
]

-- What is behind a line and its CRLF
drop-line : (l rest : Bytes) → drop 2 (drop (length l) (l ++ (13 ∷ 10 ∷ rest))) ≡ rest
drop-line [] rest = refl
drop-line (c ∷ l) rest = drop-line l rest

length-clear_first : (c : ℕ) (s : Bytes) → length (clear_first c s) ≡ length s
unfolding clear_first
length-clear_first c [] = refl
length-clear_first c (d ∷ s) = ground (arith, length-clear_first c s)

clear_first-append :
    (c : ℕ) (a b : Bytes) → Without c a → clear_first c (a ++ (c ∷ b)) ≡ a ++ (0 ∷ b)
unfolding clear_first
clear_first-append c [] b w = ground arith
clear_first-append c (d ∷ a) b w = ground (arith, clear_first-append c a b)

-- Lines that replace a line and its CRLF in a text of the same length
length-replaced :
    (s l l' rest rest' : Bytes)
    → s ≡ l ++ (13 ∷ 10 ∷ rest)
    → length l' ≡ length l
    → length rest' ≡ length rest
    → length (l' ++ (0 ∷ 10 ∷ rest')) ≡ length s
length-replaced s l l' rest rest' e a b =
    rw e (omega (arith, length-append l' (0 ∷ 10 ∷ rest'), length-append l (13 ∷ 10 ∷ rest), a, b))

length-clear_headers :
    (ls : List Bytes) (s : Bytes) → lines_from false s ≡ ls → length (clear_headers ls s) ≡ length s
unfolding clear_headers
length-clear_headers [] s e = refl
length-clear_headers ([] ∷ ls) s e = refl
length-clear_headers ((c ∷ l) ∷ ls) s e =
    let (rest, there, more) = subst (Starts s) e (lines_from-Starts false s) in
    let behind_it : length (clear_headers ls (drop 2 (drop (length (c ∷ l)) s))) ≡ length rest =
      rw (there, drop-line (c ∷ l) rest) (length-clear_headers ls rest more) in
    length-replaced s (c ∷ l) (clear_first b':' (c ∷ l)) rest _ there
      (length-clear_first b':' (c ∷ l)) behind_it

clear_lines-length :
    (ls : List Bytes) (s : Bytes) → lines_from false s ≡ ls → length (clear_lines ls s) ≡ length s
unfolding clear_lines
clear_lines-length [] s e = refl
clear_lines-length (l ∷ ls) s e =
    let (rest, there, more) = subst (Starts s) e (lines_from-Starts false s) in
    let behind_it : length (clear_headers ls (drop 2 (drop (length l) s))) ≡ length rest =
      rw (there, drop-line l rest) (length-clear_headers ls rest more) in
    length-replaced s l (clear_first b' ' (clear_first b' ' l)) rest _ there
      (length-clear_first b' ' (clear_first b' ' l) ∙ length-clear_first b' ' l) behind_it

-- The parser writes over bytes only.
pub length-parsed_buffer : (buffer : Bytes) → length (parsed_buffer buffer) ≡ length buffer
unfolding parsed_buffer
length-parsed_buffer buffer = clear_lines-length (lines_from false buffer) buffer refl

-- The words of a request line with the NULs that end them
abbrev Cleared : Bytes → Bytes × Bytes × Bytes → Type 0
Cleared line (method, path, version) =
    clear_first b' ' (clear_first b' ' line) ≡ method ++ (0 ∷ path ++ (0 ∷ version))

two_spaces :
    (line a b c d : Bytes)
    → split_at b' ' line ≡ some (a, b)
    → split_at b' ' b ≡ some (c, d)
    → Cleared line (a, c, d)
two_spaces line a b c d e f =
    let (is_line, w) = split_at_sound b' ' line a b e in
    let (is_rest, v) = split_at_sound b' ' b c d f in
    let once : clear_first b' ' line ≡ a ++ (0 ∷ b) =
      ap (clear_first b' ') is_line ∙ clear_first-append b' ' a b w in
    let shape : a ++ (0 ∷ b) ≡ (a ++ (0 ∷ c)) ++ (32 ∷ d) =
      ap (λ t. a ++ (0 ∷ t)) is_rest ∙ sym (append_assoc a (0 ∷ c) (32 ∷ d)) in
    ap (clear_first b' ') (once ∙ shape)
    ∙ clear_first-append b' ' (a ++ (0 ∷ c)) d (Without-append b' ' a (0 ∷ c) w (omega arith, v))
    ∙ append_assoc a (0 ∷ c) (0 ∷ d)

parse_request_line-Cleared : (line : Bytes) → Always (Cleared line) (parse_request_line line)
unfolding parse_request_line
parse_request_line-Cleared line = Always-unless (ltb max_request_line (length line)) _ (λ e.
    Always-bind _ _
      (Always-intro {P = λ p. split_at b' ' line ≡ some p} (split_at b' ' line) (λ p q. q))
      (λ (a, b) q.
        Always-bind _ _
          (Always-intro {P = λ p. split_at b' ' b ≡ some p} (split_at b' ' b) (λ p r. r))
          (λ (c, d) r. Always-unless _ _ (λ good. result (a, c, d) (two_spaces line a b c d q r)))))

-- A buffer that holds a request's words one after the other, each with the NUL that the parser wrote behind it
abbrev pub Holds : Bytes → HttpRequest → Type 0
Holds buffer q =
    (rest : Bytes) × (buffer ≡ q.method ++ (0 ∷ q.path ++ (0 ∷ q.version ++ (0 ∷ 10 ∷ rest))))

holds_words :
    (line method path version rest : Bytes)
    → Cleared line (method, path, version)
    → clear_first b' ' (clear_first b' ' line) ++ (0 ∷ 10 ∷ rest)
      ≡ method ++ (0 ∷ path ++ (0 ∷ version ++ (0 ∷ 10 ∷ rest)))
holds_words line method path version rest e =
    ap (λ t. t ++ (0 ∷ 10 ∷ rest)) e
    ∙ append_assoc method (0 ∷ path ++ (0 ∷ version)) (0 ∷ 10 ∷ rest)
    ∙ ap (λ t. method ++ (0 ∷ t)) (append_assoc path (0 ∷ version) (0 ∷ 10 ∷ rest))

request_of-Holds :
    (id : Bytes) (ls : List Bytes) (s : Bytes)
    → Always (Holds (clear_lines ls s)) (request_of id ls)
unfolding request_of clear_lines
request_of-Holds id [] s = no_result
request_of-Holds id (line ∷ ls) s =
    Always-bind _ _ (parse_request_line-Cleared line) (λ (method, path, version) e.
      Always-bind _ _ (Always-intro {P = λ p. Unit {0}} (parse_headers_from ls []) (λ p q. tt))
        (λ hs t. result _ (_, holds_words line method path version _ e)))

pub parsed_buffer-Holds :
    (id buffer : Bytes) (q : HttpRequest)
    → parse_http_request id buffer ≡ some q
    → Holds (parsed_buffer buffer) q
unfolding parse_http_request parsed_buffer
parsed_buffer-Holds id buffer q h =
    Always-elim _ q (request_of-Holds id (lines_from false buffer) buffer) h
