-- ===== src/Server/Http1/Reads.antt =====
-- The loop of src/server.c that reads the head of a request: that it ends, and what it ends with.
use emme.Prelude.{
  ℕ, suc, ◌+◌, ◌-◌, ◌≤◌, ◌<◌, ◌≡◌, refl, not, ltb, leb_ℤ, is_none, ℤ, pos, Option, none, some, List,
  [], ◌∷◌, ◌++◌, Bytes, take, length, arith, inl, inr, Bool-cases, length-append, length-take,
  if_both, ltb→lt,
}
use emme.Http2Response.{buffer_size}
use emme.Server.Http1.{Read, Head, gone, late, too_large, complete, read_head, find_header_end}

-- Reads of which each fails or gives a byte at least
pub data AllGive : List Read → Type 0 where
  all_read : AllGive []
  one_failed :
      {rs : List Read} (elapsed : ℕ)
      → AllGive rs
      → AllGive (record { bytes = none; elapsed_ms = elapsed } ∷ rs)
  one_read :
      {rs : List Read} (b : Bytes) (elapsed : ℕ)
      → 0 < length b
      → AllGive rs
      → AllGive (record { bytes = some b; elapsed_ms = elapsed } ∷ rs)

abbrev Ends : Option Head → Type 0
Ends o = (h : Head) × (o ≡ some h)

grows :
    (total b : Bytes)
    → 0 < length b
    → length total < buffer_size - 1
    → suc (length total) ≤ length (total ++ take (buffer_size - 1 - length total) b)
grows total b n room = omega (
  arith,
  length-append total (take (buffer_size - 1 - length total) b),
  length-take (buffer_size - 1 - length total) b,
  n,
  room,
)

-- The reads of a request end whatever they give, with as many of them as the buffer has bytes left, or sooner.
pub read_head-Ends :
    (timeout_ms : ℤ) (total : Bytes) (rs : List Read)
    → AllGive rs
    → buffer_size - 1 ≤ length total + length rs
    → Ends (read_head timeout_ms total rs)
unfolding read_head
read_head-Ends timeout_ms total _ all_read n = (too_large, ground (arith, n))
read_head-Ends timeout_ms total _ (one_failed elapsed more) n =
    if_both Ends (ltb (length total) (buffer_size - 1)) _ _ (gone, refl) (too_large, refl)
read_head-Ends timeout_ms total _ (one_read {rs} b elapsed some_bytes more) n =
    elim (Bool-cases (ltb (length total) (buffer_size - 1))) [
      | inl room ↦
          (let total' = total ++ take (buffer_size - 1 - length total) b in
            let longer = grows total b some_bytes (ltb→lt (length total) (buffer_size - 1) room) in
            let rest = read_head-Ends timeout_ms total' rs more (omega (arith, n, longer)) in
            rw room (
              if_both Ends (not (leb_ℤ (pos elapsed) timeout_ms)) _ _ (late, refl)
                (if_both Ends (is_none (find_header_end total')) _ _ rest (complete total', refl))))
      | inr full ↦ rw full (too_large, refl)
    ]
