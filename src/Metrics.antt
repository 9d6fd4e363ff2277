-- ===== src/Metrics.antt =====
-- include/metrics.h and src/metrics.c: the histograms. A duration is a double in C; here it is of any type
-- `V` with its test `<=`, which is false on a NaN. The counters are exact below LONG_MAX, and the sum of the
-- durations is left out.
pub mod Buckets
mod Examples
use emme.Prelude.{ℕ, zero, suc, ◌+◌, Bool, true, false, if◌then◌else◌, List, [], ◌∷◌}

-- `HistogramData`
pub record Histogram (V : Type 0) : Type 0 where
  pub buckets : List V
  pub counts : List ℕ
  pub sum_count : ℕ

module _ {V : Type 0} (at_most : V → V → Bool) where
  -- The loop of `histogram_record`, which ends at the first bucket that the value is in
  unfoldable pub count_first : V → List V → List ℕ → List ℕ
  count_first v [] cs = cs
  count_first v (b ∷ bs) [] = []
  count_first v (b ∷ bs) (c ∷ cs) =
      let rest = count_first v bs cs in if at_most v b then suc c ∷ cs else c ∷ rest

  -- `histogram_record`
  unfoldable pub histogram_record : Histogram V → V → Histogram V
  unfolding count_first
  histogram_record h v = record h {
    counts = count_first v h.buckets h.counts;
    sum_count = h.sum_count + 1;
  }

-- The loop of `format_histogram`: what is printed for each bucket.
unfoldable pub cumulative : ℕ → List ℕ → List ℕ
cumulative before [] = []
cumulative before (c ∷ cs) = (before + c) ∷ cumulative (before + c) cs

-- The numbers that `format_histogram` prints: the buckets, `+Inf` and the count
pub record Printed : Type 0 where
  pub bucket_counts : List ℕ
  pub infinity : ℕ
  pub count : ℕ

unfoldable pub format_histogram : {V : Type 0} → Histogram V → Printed
format_histogram h = record {
  bucket_counts = cumulative 0 h.counts;
  infinity = h.sum_count;
  count = h.sum_count;
}

-- `initialize_histogram` on cleared memory
unfoldable pub zeros : {V : Type 0} → List V → List ℕ
zeros [] = []
zeros (b ∷ bs) = 0 ∷ zeros bs

unfoldable pub initialize_histogram : {V : Type 0} → List V → Histogram V
initialize_histogram bounds = record { buckets = bounds; counts = zeros bounds; sum_count = 0 }
