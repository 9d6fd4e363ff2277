-- ===== src/Metrics/Buckets.antt =====
-- What the buckets of a histogram of src/metrics.c count.
use emme.Prelude.{
  ℕ, suc, ◌+◌, ◌≡◌, refl, ap, ◌∙◌, Bool, true, if◌then◌else◌, List, [], ◌∷◌, length, arith,
  Bool-cases, inl, inr,
}
use emme.Metrics.{
  Histogram, count_first, histogram_record, cumulative, format_histogram, zeros,
  initialize_histogram,
}

module _ {V : Type 0} (at_most : V → V → Bool) where
  -- How many of the values are at most a bound
  abbrev pub how_many : List V → V → ℕ
  how_many [] b = 0
  how_many (v ∷ vs) b = (if at_most v b then 1 else 0) + how_many vs b

  abbrev pub all_counts : List V → List V → List ℕ
  all_counts vs [] = []
  all_counts vs (b ∷ bs) = how_many vs b ∷ all_counts vs bs

  -- A bound that is at most every later one
  pub data Before (b : V) : List V → Type 0 where
    last : Before b []
    then_comes : {cs : List V} (c : V) → at_most b c ≡ true → Before b cs → Before b (c ∷ cs)

  pub data Sorted : List V → Type 0 where
    empty : Sorted []
    first : {bs : List V} (b : V) → Before b bs → Sorted bs → Sorted (b ∷ bs)

  -- The values, the latest first
  abbrev pub record_all : List V → Histogram V → Histogram V
  record_all [] h = h
  record_all (v ∷ vs) h = histogram_record at_most (record_all vs h) v

  -- One more value in the counts of some bounds
  abbrev added : V → List V → List ℕ → List ℕ
  added v [] ns = ns
  added v (b ∷ bs) [] = []
  added v (b ∷ bs) (n ∷ ns) = ((if at_most v b then 1 else 0) + n) ∷ added v bs ns

  added-all_counts :
      (v : V) (vs bs : List V) → added v bs (all_counts vs bs) ≡ all_counts (v ∷ vs) bs
  added-all_counts v vs [] = refl
  added-all_counts v vs (b ∷ bs) = ap (λ ns. how_many (v ∷ vs) b ∷ ns) (added-all_counts v vs bs)

  cumulative-zeros : (bs : List V) → cumulative 0 (zeros bs) ≡ all_counts [] bs
  unfolding cumulative zeros
  cumulative-zeros [] = refl
  cumulative-zeros (b ∷ bs) = ap (λ ns. 0 ∷ ns) (cumulative-zeros bs)

  count_first-length :
      (v : V) (bs : List V) (cs : List ℕ) → length (count_first at_most v bs cs) ≡ length cs
  unfolding count_first
  count_first-length v [] cs = refl
  count_first-length v (b ∷ bs) [] = refl
  count_first-length v (b ∷ bs) (c ∷ cs) = ground (arith, count_first-length v bs cs)

  zeros-length : (bs : List V) → length (zeros bs) ≡ length bs
  unfolding zeros
  zeros-length [] = refl
  zeros-length (b ∷ bs) = ap suc (zeros-length bs)

  record_all-shape :
      (vs bs : List V)
      → let h = record_all vs (initialize_histogram bs) in
        (h.buckets ≡ bs) × (length h.counts ≡ length bs) × (h.sum_count ≡ length vs)
  unfolding histogram_record initialize_histogram
  record_all-shape [] bs = (refl, zeros-length bs, refl)
  record_all-shape (v ∷ vs) bs =
      let h = record_all vs (initialize_histogram bs) in
      let i = record_all-shape vs bs in
      (i.0, ground (arith, count_first-length v h.buckets h.counts, i), ground (arith, i))

  module _
      (transitive : (a b c : V)
        → at_most a b ≡ true
        → at_most b c ≡ true
        → at_most a c ≡ true) where
    -- A value within a bound is within all later ones, and counts in all of them.
    counted_later :
        (v b : V) (before : ℕ) (bs : List V) (cs : List ℕ)
        → at_most v b ≡ true
        → Before b bs
        → length cs ≡ length bs
        → cumulative (suc before) cs ≡ added v bs (cumulative before cs)
    unfolding cumulative
    counted_later v b before _ [] h last l = refl
    counted_later v b before _ (c ∷ cs) h last l = absurd (omega (arith, l))
    counted_later v b before _ [] h (then_comes d e more) l = refl
    counted_later v b before _ (c ∷ cs) h (then_comes {cs = ds} d e more) l = ground (
      arith,
      transitive v b d h e,
      counted_later v b (before + c) ds cs h more (omega (arith, l)),
    )

    counted :
        (v : V) (before : ℕ) (bs : List V) (cs : List ℕ)
        → Sorted bs
        → length cs ≡ length bs
        → cumulative before (count_first at_most v bs cs) ≡ added v bs (cumulative before cs)
    unfolding cumulative count_first
    counted v before _ cs empty l = refl
    counted v before _ [] (first b f more) l = refl
    counted v before _ (c ∷ cs) (first {bs} b f more) l = elim (Bool-cases (at_most v b)) [
      | inl inside ↦
          ground (arith, inside, counted_later v b (before + c) bs cs inside f (omega (arith, l)))
      | inr outside ↦ ground (arith, outside, counted v (before + c) bs cs more (omega (arith, l)))
    ]

    recorded :
        (vs bs : List V)
        → Sorted bs
        → cumulative 0 (record_all vs (initialize_histogram bs)).counts ≡ all_counts vs bs
    unfolding initialize_histogram histogram_record
    recorded [] bs s = cumulative-zeros bs
    recorded (v ∷ vs) bs s =
        let h = record_all vs (initialize_histogram bs) in
        let i = record_all-shape vs bs in
        ap (λ bounds. cumulative 0 (count_first at_most v bounds h.counts)) i.0
        ∙ counted v 0 bs h.counts s i.1
        ∙ ap (added v bs) (recorded vs bs s)
        ∙ added-all_counts v vs bs

    -- With sorted bounds and a transitive test, a histogram that starts empty and records any values prints
    -- for each bucket the number of the values that are at most its bound, and for `+Inf` and the count the
    -- number of all of them, values that are in no bucket included.
    pub format_histogram-counts :
        (vs bs : List V)
        → Sorted bs
        → format_histogram (record_all vs (initialize_histogram bs))
          ≡ record { bucket_counts = all_counts vs bs; infinity = length vs; count = length vs }
    unfolding format_histogram histogram_record
    format_histogram-counts vs bs s = ground (arith, recorded vs bs s, record_all-shape vs bs)
