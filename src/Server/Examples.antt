-- ===== src/Server/Examples.antt =====
-- A server that takes in a connection and gives it up again, and the theorems on src/server.c at it.
use emme.Prelude.{
  Timespec, ℕ, ◌+◌, ◌%◌, ◌^◌, ◌≤◌, ◌≡◌, refl, Bool, true, false, some, List, [], ◌∷◌, length,
  occurs, replicate, arith,
}
use emme.IpLimiter.{IpLimiter, init}
use emme.IpLimiter.Limiter.{connections}
use emme.ThreadPool.Queue.{task_queue_init}
use emme.ThreadPool.Pool.{ThreadPool}
use emme.Server.{Calls, Look, drain_loop, accept_and_dispatch_client}
use emme.Server.History.{World, Reach, here, next, accept, first_world, after_accept}
use emme.Server.Account.{Reach-tasks}
use emme.Server.Drain.{Ended, no_look, one_look, drain_loop-ends}

abbrev one_each : IpLimiter
one_each = record {
  shards = replicate 256 [];
  default_limit = 1;
  total_entries = 0;
  rejections_total = 0;
  last_compaction = 100;
}

abbrev threads : ThreadPool
threads = record {
  queue = task_queue_init;
  num_threads = 1;
  threads_created = 1;
  min_threads = 1;
  max_threads = 2;
  free_indices = [];
  shutdown = false;
}

abbrev all_well : Calls
all_well = record {
  flags_read = true;
  flags_set = true;
  task_allocated = true;
  queue_allocated = true;
  thread_spawned = true;
}

abbrev fresh : World
fresh = first_world one_each threads 30

abbrev taken_in : World
taken_in = after_accept fresh 7 (accept_and_dispatch_client all_well 7 200 fresh.server)

-- The second connection of the address is refused.
abbrev asked_again : World
asked_again = after_accept taken_in 7 (accept_and_dispatch_client all_well 7 201 taken_in.server)

history : Reach fresh asked_again
history =
    next (next here (accept fresh all_well 7 200 (grind arith)))
      (accept taken_in all_well 7 201 (grind arith))

Reach-tasks_example :
    (asked_again.server.shutdown.in_flight_requests
      ≡ (length asked_again.tasks + asked_again.leaving) % 2 ^ 64)
    × (connections asked_again.server.limiter 7 ≡ occurs 7 asked_again.tasks)
    × (occurs 7 asked_again.tasks ≤ 1)
unfolding init
Reach-tasks_example =
    Reach-tasks 1 100 7 30 threads {l = one_each} {w = asked_again} refl history (grind arith)

abbrev at : ℕ → Timespec
at sec = record { tv_sec = sec; tv_nsec = 0 }

abbrev waiting : List Look
waiting = record { count = 2; now = at 5 } ∷ record { count = 1; now = at 6 } ∷ []

drain_loop-ends_example : (f : Bool) × (drain_loop (at 5) waiting ≡ some f) × Ended (at 5) waiting f
drain_loop-ends_example =
    drain_loop-ends (at 5) waiting 4900000001 (omega arith)
      (one_look (record { count = 2; now = at 5 }) (omega arith) (omega arith)
        (one_look (record { count = 1; now = at 6 }) (omega arith) (omega arith) no_look))
      (omega arith) (omega arith)
