-- ===== src/Metrics/Examples.antt =====
-- Three durations in two buckets, and the theorem on src/metrics.c at them.
use emme.Prelude.{◌≡◌, refl, leb, [], ◌∷◌, arith}
use emme.Metrics.{format_histogram, initialize_histogram}
use emme.Metrics.Buckets.{record_all, empty, first, last, then_comes, format_histogram-counts}

format_histogram-counts_example :
    format_histogram (record_all leb (30 ∷ 7 ∷ 3 ∷ []) (initialize_histogram (5 ∷ 10 ∷ [])))
    ≡ record { bucket_counts = 1 ∷ 2 ∷ []; infinity = 3; count = 3 }
format_histogram-counts_example =
    format_histogram-counts leb (λ a b c h k. ground arith) (30 ∷ 7 ∷ 3 ∷ []) (5 ∷ 10 ∷ [])
      (first 5 (then_comes 10 refl last) (first 10 last empty))
