-- ===== src/Server/Http1/Decided.antt =====
-- What the loop of src/server.c that reads the head of a request ends with, and the request that is routed.
use emme.Prelude.{
  ℕ, suc, ◌-◌, ◌<◌, ◌≡◌, refl, false, not, ltb, leb_ℤ, ℤ, pos, Option, none, some, List, [], ◌∷◌,
  ◌++◌, Bytes, take, length, arith, inl, inr, Bool-cases, length-append, length-take, Option-cases,
  if_both, ltb-false, Always, result, no_result, Always-elim,
}
use emme.Http2Response.{buffer_size}
use emme.HttpParser.{HttpRequest, parse_http_request, parsed_buffer}
use emme.HttpParser.InPlace.{Holds, length-parsed_buffer, parsed_buffer-Holds}
use emme.HttpParser.Accepted.{Accepted, parse_http_request-Accepted}
use emme.Config.Types.{ServerConfig}
use emme.Server.Http1.{
  Read, Head, gone, late, too_large, complete, read_head, find_header_end, header_end_from,
  reply_to, routed,
}

-- The bytes that reads give, in order, as far as the buffer has room
abbrev pub taken : Bytes → List Read → Bytes
taken total [] = total
taken total (r ∷ rs) = elim r.bytes [
  | none ↦ total
  | some b ↦ taken (total ++ take (buffer_size - 1 - length total) b) rs
]

-- What the end of the reads says of their bytes
pub data Decided (total : Bytes) (rs : List Read) : Head → Type 0 where
  is_gone : Decided total rs gone
  is_late : Decided total rs late
  is_full :
      (n : ℕ)
      → length (taken total (take n rs)) ≡ buffer_size - 1
      → find_header_end (taken total (take n rs)) ≡ none
      → Decided total rs too_large
  is_complete :
      (n e : ℕ)
      → find_header_end (taken total (take n rs)) ≡ some e
      → length (taken total (take n rs)) < buffer_size
      → Decided total rs (complete (taken total (take n rs)))

abbrev Sound : Bytes → List Read → Option Head → Type 0
Sound total rs o = Always (Decided total rs) o

within :
    (total b : Bytes)
    → length total < buffer_size
    → length (total ++ take (buffer_size - 1 - length total) b) < buffer_size
within total b room = omega (
  arith,
  length-append total (take (buffer_size - 1 - length total) b),
  length-take (buffer_size - 1 - length total) b,
  room,
)

one_more :
    (total b : Bytes) (elapsed : ℕ) (rs : List Read) (h : Head)
    → Decided (total ++ take (buffer_size - 1 - length total) b) rs h
    → Decided total (record { bytes = some b; elapsed_ms = elapsed } ∷ rs) h
one_more total b elapsed rs _ is_gone = is_gone
one_more total b elapsed rs _ is_late = is_late
one_more total b elapsed rs _ (is_full n full none_there) = is_full (suc n) full none_there
one_more total b elapsed rs _ (is_complete n e there fits) = is_complete (suc n) e there fits

Always-map :
    {P Q : Head → Type 0} (o : Option Head) → ((h : Head) → P h → Q h) → Always P o → Always Q o
Always-map _ f no_result = no_result
Always-map _ f (result h p) = result h (f h p)

full_here :
    (total : Bytes) (rs : List Read)
    → length total < buffer_size
    → find_header_end total ≡ none
    → ltb (length total) (buffer_size - 1) ≡ false
    → Decided total rs too_large
full_here total rs fits none_there full =
    is_full 0 (omega (arith, fits, ltb-false (length total) (buffer_size - 1) full)) none_there

-- One round of the loop
Sound-step :
    (timeout_ms : ℤ) (total : Bytes) (bytes : Option Bytes) (elapsed : ℕ) (rs : List Read)
    → length total < buffer_size
    → find_header_end total ≡ none
    → ((more : Bytes)
        → length more < buffer_size
        → find_header_end more ≡ none
        → Sound more rs (read_head timeout_ms more rs))
    → let r : Read = record { bytes = bytes; elapsed_ms = elapsed } in
      Sound total (r ∷ rs) (read_head timeout_ms total (r ∷ rs))
unfolding read_head
Sound-step timeout_ms total none elapsed rs fits none_there next =
    elim (Bool-cases (ltb (length total) (buffer_size - 1))) [
      | inl room ↦ rw room (result gone is_gone)
      | inr full ↦ rw full (result too_large (full_here total _ fits none_there full))
    ]
Sound-step timeout_ms total (some b) elapsed rs fits none_there next =
    elim (Bool-cases (ltb (length total) (buffer_size - 1))) [
      | inl room ↦
          (let total' = total ++ take (buffer_size - 1 - length total) b in
            let fits' = within total b fits in
            rw room (
              if_both (Sound total _) (not (leb_ℤ (pos elapsed) timeout_ms)) _ _
                (result late is_late)
                (elim (Option-cases (find_header_end total')) [
                  | inl e ↦ rw e (Always-map _ (one_more total b elapsed rs) (next total' fits' e))
                  | inr (k, e) ↦ rw e (result (complete total') (is_complete 1 k e fits'))
                ])))
      | inr full ↦ rw full (result too_large (full_here total _ fits none_there full))
    ]

pub read_head-Sound :
    (timeout_ms : ℤ) (total : Bytes) (rs : List Read)
    → length total < buffer_size
    → find_header_end total ≡ none
    → Sound total rs (read_head timeout_ms total rs)
unfolding read_head
read_head-Sound timeout_ms total [] fits none_there =
    elim (Bool-cases (ltb (length total) (buffer_size - 1))) [
      | inl room ↦ rw room no_result
      | inr full ↦ rw full (result too_large (full_here total [] fits none_there full))
    ]
read_head-Sound timeout_ms total (r ∷ rs) fits none_there =
    Sound-step timeout_ms total r.bytes r.elapsed_ms rs fits none_there
      (λ more fits' none_in. read_head-Sound timeout_ms more rs fits' none_in)

abbrev Routed : Bytes → List Read → HttpRequest → Bytes → Type 0
Routed id rs q buffer =
    (n : ℕ) × (e : ℕ) × (buffer ≡ parsed_buffer (taken [] (take n rs)))
    × (find_header_end (taken [] (take n rs)) ≡ some e)
    × (length buffer < buffer_size)
    × Holds buffer q
    × Accepted q

same_request :
    (c : ServerConfig) (id b buffer : Bytes) (q : HttpRequest)
    → reply_to c id (complete b) ≡ routed q buffer
    → (parse_http_request id b ≡ some q) × (buffer ≡ parsed_buffer b)
unfolding reply_to
same_request c id b buffer q r = elim (Option-cases (parse_http_request id b)) [
  | inl e ↦ absurd (ground (arith, r, e))
  | inr (q', e) ↦ (ground (arith, r, e), ground (arith, r, e))
]

routed_from :
    (c : ServerConfig) (id : Bytes) (rs : List Read) (h : Head) (q : HttpRequest) (buffer : Bytes)
    → Decided [] rs h
    → reply_to c id h ≡ routed q buffer
    → Routed id rs q buffer
unfolding reply_to
routed_from c id rs _ q buffer is_gone r = absurd (ground (arith, r))
routed_from c id rs _ q buffer is_late r = absurd (ground (arith, r))
routed_from c id rs _ q buffer (is_full n full none_there) r = absurd (ground (arith, r))
routed_from c id rs _ q buffer (is_complete n e there fits) r =
    let (parsed, same) = same_request c id (taken [] (take n rs)) buffer q r in
    (
      n,
      e,
      same,
      there,
      rw same (omega (arith, fits, length-parsed_buffer (taken [] (take n rs)))),
      rw same (parsed_buffer-Holds id (taken [] (take n rs)) q parsed),
      parse_http_request-Accepted id (taken [] (take n rs)) q parsed,
    )

-- A request that is routed comes from the bytes that the first reads gave, in order, fewer than 32768, among
-- which a header ends. The buffer that is routed is what the parser has left of them: it starts with method, path
-- and version, each with a NUL behind it in place of the space or CR. The request is one that the parser
-- accepts: a method of capitals, a path without a space, a version that starts with HTTP/, at most 20 headers.
pub reply_to-routed :
    (c : ServerConfig) (id : Bytes) (rs : List Read) (h : Head) (q : HttpRequest) (buffer : Bytes)
    → read_head c.request_timeout_ms [] rs ≡ some h
    → reply_to c id h ≡ routed q buffer
    → (n : ℕ) × (e : ℕ) × (buffer ≡ parsed_buffer (taken [] (take n rs)))
      × (find_header_end (taken [] (take n rs)) ≡ some e)
      × (length buffer < buffer_size)
      × Holds buffer q
      × Accepted q
unfolding find_header_end header_end_from
reply_to-routed c id rs h q buffer e r =
    let sound = read_head-Sound c.request_timeout_ms [] rs (omega arith) refl in
    routed_from c id rs h q buffer (Always-elim _ h sound e) r
