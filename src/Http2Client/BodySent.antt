-- ===== src/Http2Client/BodySent.antt =====
-- The body that the client of src/http2_client.c gives to nghttp2, read by read.
use emme.Prelude.{
  ℕ, zero, suc, ◌||◌, ◌+◌, ◌-◌, ◌%◌, ◌^◌, ◌<◌, ◌≤◌, ◌≡◌, refl, ap, sym, ◌∙◌, Bool, true, false, leb,
  ltb, if◌then◌else◌, List, [], ◌∷◌, ◌++◌, Bytes, length, take, drop, arith, inl, inr, Bool-cases,
  take_all, ltb→lt, ltb-false, ◌&&◌,
}
use mathlib.Core.List.{append-nil}
use emme.Http2Client.Client.{Client, data_read}
use emme.Http2Client.Request.{Asked, set_request, body_of}

-- Reads with these amounts of room: the bytes given, whether one of them flagged the end, and the client
unfoldable pub read_all : List ℕ → Client → Bytes × Bool × Client
read_all [] c = ([], false, c)
read_all (len ∷ lens) c =
    let (bytes, last, c') = data_read len c in
    let (more, ended, c'') = read_all lens c' in (bytes ++ more, last || ended, c'')

abbrev pub sum : List ℕ → ℕ
sum [] = 0
sum (n ∷ ns) = n + sum ns

take_nil : {A : Type 0} (n : ℕ) → take {A = A} n [] ≡ []
take_nil zero = refl
take_nil (suc n) = refl

drop_nil : {A : Type 0} (n : ℕ) → drop {A = A} n [] ≡ []
drop_nil zero = refl
drop_nil (suc n) = refl

length-drop : {A : Type 0} (n : ℕ) (xs : List A) → length (drop n xs) ≡ length xs - n
length-drop zero xs = omega arith
length-drop (suc n) [] = omega arith
length-drop (suc n) (x ∷ xs) = omega (arith, length-drop n xs)

take_add : {A : Type 0} (m n : ℕ) (xs : List A) → take m xs ++ take n (drop m xs) ≡ take (m + n) xs
take_add zero n xs = ap (λ k. take k xs) (omega arith)
take_add (suc m) n [] = take_nil n ∙ sym (take_nil (suc m + n))
take_add (suc m) n (x ∷ xs) =
    ap (λ ys. x ∷ ys) (take_add m n xs) ∙ ap (λ k. take k (x ∷ xs)) {x = suc (m + n)} (omega arith)

drop_add : {A : Type 0} (m n : ℕ) (xs : List A) → drop n (drop m xs) ≡ drop (m + n) xs
drop_add zero n xs = ap (λ k. drop k xs) (omega arith)
drop_add (suc m) n [] = drop_nil n ∙ sym (drop_nil (suc m + n))
drop_add (suc m) n (x ∷ xs) =
    drop_add m n xs ∙ ap (λ k. drop k (x ∷ xs)) {x = suc (m + n)} (omega arith)

-- A body that is partly sent
pub record IsSending (c : Client) : Type 0 where
  pub whole : length c.request_body ≡ c.request_body_len
  pub partly : c.body_sent ≤ c.request_body_len
  pub fits : c.request_body_len < 2 ^ 64

sent_after : ℕ → Client → ℕ
sent_after len c =
    if ltb (c.body_sent + len) c.request_body_len then c.body_sent + len else c.request_body_len

data_read-sent :
    (len : ℕ) (c : Client)
    → IsSending c
    → data_read len c ≡ (
      take len (drop c.body_sent c.request_body),
      leb c.request_body_len (c.body_sent + len),
      record c { body_sent = sent_after len c },
    )
unfolding data_read sent_after
data_read-sent len c s =
    let remaining = c.request_body_len - c.body_sent in
    let e : (c.request_body_len + 2 ^ 64 - c.body_sent) % 2 ^ 64 ≡ remaining =
      omega (arith, s.partly, s.fits) in
    let n = length-drop c.body_sent c.request_body in
    let all = take_all remaining (drop c.body_sent c.request_body) (omega (arith, n, s.whole)) in
    let more = take_all len (drop c.body_sent c.request_body) in
    rw e (elim (Bool-cases (ltb remaining len)) [
      | inl h ↦
          rw (h, all, more (omega (arith, n, s.whole, ltb→lt remaining len h))) (ground (arith, h))
      | inr h ↦ rw h (ground (arith, h, s.partly, s.fits))
    ])

abbrev any_read : List ℕ → Bool
any_read [] = false
any_read (n ∷ ns) = true

-- What reads give from where a client is: the next bytes, and the end where they reach it
abbrev Gives : List ℕ → Client → Bytes → Bool → Type 0
Gives lens c bytes ended =
    (bytes ≡ take (sum lens) (drop c.body_sent c.request_body))
    × (ended ≡ (any_read lens && leb c.request_body_len (c.body_sent + sum lens)))

-- The client after one read
abbrev read_on : ℕ → Client → Client
read_on len c = record c { body_sent = sent_after len c }

read_on-IsSending : (len : ℕ) (c : Client) → IsSending c → IsSending (read_on len c)
unfolding sent_after
read_on-IsSending len c s = record { whole = s.whole; partly = ground arith; fits = s.fits }

no_sum : (lens : List ℕ) → any_read lens ≡ false → sum lens ≡ 0
no_sum [] e = refl
no_sum (len ∷ lens) e = absurd (ground (arith, e))

drop_all : {A : Type 0} (n : ℕ) (xs : List A) → length xs ≤ n → drop n xs ≡ []
drop_all n [] h = drop_nil n
drop_all zero (x ∷ xs) h = absurd (omega (arith, h))
drop_all (suc n) (x ∷ xs) h = drop_all n xs (omega (arith, h))

-- A read inside the body, and one that reaches its end
one_read_bytes :
    (len n : ℕ) (c : Client)
    → IsSending c
    → take len (drop c.body_sent c.request_body) ++ take n (drop (sent_after len c) c.request_body)
      ≡ take (len + n) (drop c.body_sent c.request_body)
unfolding sent_after
one_read_bytes len n c s =
    let left = drop c.body_sent c.request_body in
    let size = length-drop c.body_sent c.request_body in
    elim (Bool-cases (ltb (c.body_sent + len) c.request_body_len)) [
      | inl h ↦ rw (h, ← drop_add c.body_sent len c.request_body) (take_add len n left)
      | inr h ↦
          (let short : length left ≤ len =
              omega (arith, size, s.whole, ltb-false (c.body_sent + len) c.request_body_len h) in
            let none_left = drop_all c.request_body_len c.request_body (omega (arith, s.whole)) in
            rw
              (
                h,
                none_left,
                take_nil,
                take_all len left short,
                take_all (len + n) left (omega (arith, short)),
              )
              (append-nil left))
    ]

one_read_flag :
    (len : ℕ) (lens : List ℕ) (c : Client)
    → IsSending c
    → (leb c.request_body_len (c.body_sent + len)
        || (any_read lens && leb c.request_body_len (sent_after len c + sum lens)))
      ≡ leb c.request_body_len (c.body_sent + (len + sum lens))
unfolding sent_after
one_read_flag len lens c s = let z = no_sum lens in ground (arith, z)

read_all-Gives :
    (lens : List ℕ) (c : Client)
    → IsSending c
    → Gives lens c (read_all lens c).0 (read_all lens c).1
unfolding read_all
read_all-Gives [] c s = (refl, refl)
read_all-Gives (len ∷ lens) c s =
    let (bytes, ended) = read_all-Gives lens (read_on len c) (read_on-IsSending len c s) in
    rw (data_read-sent len c s) (
      ap (λ b. take len (drop c.body_sent c.request_body) ++ b) bytes
          ∙ one_read_bytes len (sum lens) c s,
      ap (λ b. leb c.request_body_len (c.body_sent + len) || b) ended ∙ one_read_flag len lens c s,
    )

-- However much room nghttp2 offers read by read, the client gives it the body's bytes in order and no other: as
-- many as there was room for, and it has flagged the end exactly when that room has reached the length of
-- the body. Each request starts with its whole body.
pub read_all-body :
    (a : Asked) (c : Client) (len : ℕ) (lens : List ℕ)
    → length (body_of a.body) ≡ a.body_len
    → a.body_len < 2 ^ 64
    → let (bytes, ended, c') = read_all (len ∷ lens) (set_request a c) in
      (bytes ≡ take (sum (len ∷ lens)) (body_of a.body))
      × (ended ≡ leb a.body_len (sum (len ∷ lens)))
unfolding set_request
read_all-body a c len lens h fits =
    let (bytes, ended) =
      read_all-Gives (len ∷ lens) (set_request a c)
        (record { whole = h; partly = omega arith; fits = fits }) in
    (bytes, ended ∙ ap (λ k. leb a.body_len k) {x = 0 + (len + sum lens)} (omega arith))
