-- ===== src/IpLimiter/Examples.antt =====
-- Runs of the limiter of src/ip_limiter.c, and its theorems at concrete inputs.
use emme.Prelude.{◌≤◌, ◌≡◌, refl, replicate, arith, []}
use emme.IpLimiter.Entries.{scan, admit, place, check_shard, rejected}
use emme.IpLimiter.{IpLimiter, init, get_shard_index, shard_of, check_and_increment}
use emme.IpLimiter.Verdict.{Verdict}
use emme.IpLimiter.Limiter.{connections}
use emme.IpLimiter.History.{
  World, accept_world, close_world, empty_world, accepted, closed, Reach, here, next,
  Reach-connections, Reach-Verdict,
}

-- A limiter that allows two connections of an address.
abbrev two_each : IpLimiter
two_each = record {
  shards = replicate 256 [];
  default_limit = 2;
  total_entries = 0;
  rejections_total = 0;
  last_compaction = 100;
}

abbrev asked_once : World
asked_once = accept_world (empty_world two_each) 7 200

abbrev asked_twice : World
asked_twice = accept_world asked_once 7 201

third_is_refused : (check_and_increment asked_twice.limiter 7 202).0 ≡ rejected
unfolding check_and_increment check_shard scan admit place get_shard_index
third_is_refused = refl

history : Reach (empty_world two_each) (close_world asked_twice 7)
unfolding check_and_increment check_shard scan admit place get_shard_index
history =
    next (next (next here (accepted _ 7 200)) (accepted _ 7 201))
      (closed asked_twice 7 (omega arith) (omega arith))

Reach-connections_example :
    let w = close_world asked_twice 7 in
    (connections w.limiter 7 ≡ w.open_from 7) × (w.open_from 7 ≤ 2)
unfolding init
Reach-connections_example =
    Reach-connections 2 100 7 {l = two_each} {w = close_world asked_twice 7} refl history
      (omega arith)

Reach-Verdict_example :
    let w = close_world asked_twice 7 in
    Verdict 2 7 (shard_of w.limiter 7) (check_and_increment w.limiter 7 300).0
unfolding init
Reach-Verdict_example =
    Reach-Verdict 2 100 300 7 {l = two_each} {w = close_world asked_twice 7} refl history
      (omega arith)
