-- ===== src/Server/Account.antt =====
-- The accounts of src/server.c over its histories: the connections of an address, and the requests in flight.
use emme.Prelude.{
  ℕ, ◌+◌, ◌%◌, ◌^◌, ◌≤◌, ◌<◌, ◌≡◌, ◌≢◌, refl, Bool, true, false, if◌then◌else◌, ◌==◌, ◌&&◌, Option,
  some, length, occurs, remove, occurs-remove, length-remove, arith,
}
use emme.IpLimiter.Entries.{Result, result_ok, rejected}
use emme.IpLimiter.{IpLimiter, init, check_and_increment, decrement, compact}
use emme.IpLimiter.Checks.{gained}
use emme.IpLimiter.Limiter.{
  connections, Counts, init-Counts, check-Counts, decrement-Counts, compact-Counts,
}
use emme.ThreadPool.Pool.{ThreadPool, thread_pool_add_task}
use emme.Server.{
  is_running, Server, add_one_size, sub_one_size, in_flight, dropped, Calls, give_back, queued,
  granted, on_result, accept_and_dispatch_client, give_address_back, leave, handle_signal,
}
use emme.Server.History.{
  World, after_accept, Step, accept, finish, exit, tidy, signal, Reach, here, next, first_world,
}

-- The limiter knows the connections of `k`, and the counter of requests the tasks.
record Agrees (k : ℕ) (w : World) : Type 0 where
  counts : Counts k w.server.limiter
  exact : connections w.server.limiter k ≡ occurs k w.tasks
  flight : w.server.shutdown.in_flight_requests ≡ (length w.tasks + w.leaving) % 2 ^ 64

add_one-mod : (n : ℕ) → add_one_size (n % 2 ^ 64) ≡ (n + 1) % 2 ^ 64
add_one-mod n = omega arith

sub_one-add : (n : ℕ) → sub_one_size ((n + 1) % 2 ^ 64) ≡ n % 2 ^ 64
sub_one-add n = omega arith

-- An address that was just granted is given back.
returned :
    (k ip n : ℕ) (l : IpLimiter)
    → Counts k l
    → connections l k ≡ n + (if ip == k then 1 else 0)
    → Counts k (decrement l ip) × (connections (decrement l ip) k ≡ n)
returned k ip n l c e =
    let has : ip ≡ k → 0 < connections l k = λ q. ground (arith, q, e) in
    let d = decrement-Counts l ip k c has in (d.0, omega (arith, d.1, e))

queued-Agrees :
    (k : ℕ) (w : World) (ip : ℕ) (s : Server) (r : Bool × Option ℕ × ThreadPool)
    → Counts k s.limiter
    → connections s.limiter k ≡ occurs k w.tasks + (if ip == k then 1 else 0)
    → s.shutdown.in_flight_requests ≡ (length w.tasks + w.leaving) % 2 ^ 64
    → Agrees k (after_accept w ip (queued ip (in_flight add_one_size s) r))
unfolding queued give_back
queued-Agrees k w ip s (true, slot, pool) c e f = record {
  counts = c;
  exact = ground (arith, e);
  flight = ground (arith, f);
}
queued-Agrees k w ip s (false, slot, pool) c e f =
    let d = returned k ip (occurs k w.tasks) s.limiter c e in
    record { counts = d.0; exact = d.1; flight = ground (arith, f) }

granted-Agrees :
    (k : ℕ) (w : World) (calls : Calls) (ip : ℕ) (s : Server)
    → Counts k s.limiter
    → connections s.limiter k ≡ occurs k w.tasks + (if ip == k then 1 else 0)
    → s.shutdown.in_flight_requests ≡ (length w.tasks + w.leaving) % 2 ^ 64
    → Agrees k (after_accept w ip (granted calls ip s))
unfolding granted give_back
granted-Agrees k w calls ip s c e f =
    go (calls.flags_read && calls.flags_set && calls.task_allocated)
  where
    added : Bool × Option ℕ × ThreadPool
    added = thread_pool_add_task calls.queue_allocated calls.thread_spawned s.pool ip

    go :
        (b : Bool)
        → Agrees k (
            after_accept w ip
              (if b then queued ip (in_flight add_one_size s) added else (dropped, give_back ip s)))
    go true = queued-Agrees k w ip s added c e f
    go false =
        let d = returned k ip (occurs k w.tasks) s.limiter c e in
        record { counts = d.0; exact = d.1; flight = f }

on_result-Agrees :
    (k : ℕ) (w : World) (calls : Calls) (ip : ℕ) (s : Server) (r : Result)
    → Counts k s.limiter
    → connections s.limiter k ≡ occurs k w.tasks + gained k ip r
    → s.shutdown.in_flight_requests ≡ (length w.tasks + w.leaving) % 2 ^ 64
    → Agrees k (after_accept w ip (on_result calls ip s r))
unfolding on_result
on_result-Agrees k w calls ip s rejected c e f = record {
  counts = c;
  exact = ground (arith, e);
  flight = f;
}
on_result-Agrees k w calls ip s result_ok c e f =
    granted-Agrees k w calls ip s c (ground (arith, e)) f

accept-Agrees :
    (k : ℕ) (w : World) (calls : Calls) (ip now : ℕ)
    → Agrees k w
    → Agrees k (after_accept w ip (accept_and_dispatch_client calls ip now w.server))
unfolding accept_and_dispatch_client
accept-Agrees k w calls ip now a = go (is_running w.server.shutdown.state)
  where
    asked : Result × ℕ × IpLimiter
    asked = check_and_increment w.server.limiter ip now

    go :
        (b : Bool)
        → Agrees k (
            after_accept w ip (
              if b
              then on_result calls ip (record w.server { limiter = asked.2 }) asked.0
              else (dropped, w.server)))
    go true =
        let c = check-Counts w.server.limiter ip now k a.counts in
        on_result-Agrees k w calls ip (record w.server { limiter = asked.2 }) asked.0 c.0
          (ground (arith, c.1, a.exact)) a.flight
    go false = record { counts = a.counts; exact = a.exact; flight = a.flight }

finish-Agrees :
    (k : ℕ) (w : World) (ip : ℕ)
    → 0 < occurs ip w.tasks
    → Agrees k w
    → Agrees k (record {
      server = give_address_back ip w.server;
      tasks = remove ip w.tasks;
      leaving = w.leaving + 1;
    })
unfolding give_address_back give_back
finish-Agrees k w ip h a =
    let has : ip ≡ k → 0 < connections w.server.limiter k =
      λ q. let p : 0 < occurs k w.tasks = rw (← q) h in omega (arith, p, a.exact) in
    let d = decrement-Counts w.server.limiter ip k a.counts has in
    record {
      counts = d.0;
      exact = ground (arith, d.1, a.exact, occurs-remove k ip w.tasks h);
      flight = ground (arith, a.flight, length-remove ip w.tasks h);
    }

Step-Agrees : {u w : World} (k : ℕ) → k ≢ 0 → Step u w → Agrees k u → Agrees k w
unfolding leave handle_signal
Step-Agrees k n (accept w calls ip now m) a = accept-Agrees k w calls ip now a
Step-Agrees k n (finish w ip m h) a = finish-Agrees k w ip h a
Step-Agrees k n (exit w h) a = record {
  counts = a.counts;
  exact = a.exact;
  flight = ground (arith, a.flight);
}
Step-Agrees k n (tidy w now) a =
    let c = compact-Counts w.server.limiter now k n a.counts in
    record { counts = c.0; exact = ground (arith, c.1, a.exact); flight = a.flight }
Step-Agrees k n (signal w interrupted now) a = record {
  counts = a.counts;
  exact = a.exact;
  flight = ground (arith, a.flight);
}

Reach-Agrees : {v w : World} (k : ℕ) → k ≢ 0 → Agrees k v → Reach v w → Agrees k w
Reach-Agrees k n a here = a
Reach-Agrees k n a (next r st) = Step-Agrees k n st (Reach-Agrees k n a r)

accept-limit :
    (w : World) (calls : Calls) (ip now : ℕ)
    → (after_accept w ip
        (accept_and_dispatch_client calls ip now w.server)).server.limiter.default_limit
      ≡ w.server.limiter.default_limit
unfolding accept_and_dispatch_client on_result granted queued give_back check_and_increment
    decrement
accept-limit w calls ip now = ground arith

limit-Step :
    {u w : World} → Step u w → w.server.limiter.default_limit ≡ u.server.limiter.default_limit
unfolding give_address_back give_back leave decrement compact
limit-Step (accept w calls ip now m) = accept-limit w calls ip now
limit-Step (finish w ip m h) = refl
limit-Step (exit w h) = refl
limit-Step (tidy w now) = ground arith
limit-Step (signal w interrupted now) = refl

limit-Reach :
    {v w : World} → Reach v w → w.server.limiter.default_limit ≡ v.server.limiter.default_limit
limit-Reach here = refl
limit-Reach (next r st) = omega (arith, limit-Step st, limit-Reach r)

-- After any sequence of accepts, whatever fails in them, ends of tasks, compactions and signals, from the
-- start of a server whose limiter allows `limit` connections of an address: the counter of requests in
-- flight is the number of the tasks that have not left, modulo 2^64, and the limiter counts for every
-- address but 0.0.0.0 exactly its tasks, of which there are at most `limit`.
pub Reach-tasks :
    (limit now k timeout : ℕ) (pool : ThreadPool) {l : IpLimiter} {w : World}
    → init limit now ≡ some l
    → Reach (first_world l pool timeout) w
    → k ≢ 0
    → (w.server.shutdown.in_flight_requests ≡ (length w.tasks + w.leaving) % 2 ^ 64)
      × (connections w.server.limiter k ≡ occurs k w.tasks)
      × (occurs k w.tasks ≤ limit)
Reach-tasks limit now k timeout pool e r n =
    let i = init-Counts limit now k e in
    let a = Reach-Agrees k n (record { counts = i.0; exact = i.1; flight = refl }) r in
    ground (arith, a, limit-Reach r, i)
