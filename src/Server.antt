-- ===== src/Server.antt =====
-- src/server.c and include/server.h: how a connection is taken in and given up, and the shutdown. What the
-- system's calls return is an argument; sockets, TLS and the two protocols are left out.
pub mod History
pub mod Account
pub mod Drain
pub mod Http1
pub mod Connection
pub mod Http2
mod Examples
use emme.Prelude.{
  ℕ, ◌+◌, ◌-◌, ◌*◌, ◌%◌, ◌^◌, Bool, true, false, not, if◌then◌else◌, ltb, leb, ◌==◌, ◌&&◌, ◌||◌,
  Option, none, some, List, [], ◌∷◌, Timespec,
}
use emme.IpLimiter.Entries.{Result, result_ok, rejected}
use emme.IpLimiter.{IpLimiter, check_and_increment, decrement, compact}
use emme.ThreadPool.Pool.{ThreadPool, thread_pool_add_task}

-- `shutdown_state_t`
pub data ShutdownState : Type 0 where
  running draining forced : ShutdownState

abbrev pub is_running : ShutdownState → Bool
is_running running = true
is_running draining = false
is_running forced = false

-- `shutdown_context_t`
pub record ShutdownContext : Type 0 where
  pub state : ShutdownState
  pub in_flight_requests : ℕ
  pub deadline : Timespec
  pub completed : ℕ
  pub forced_requests : ℕ
  pub peak_in_flight : ℕ
  pub timeout_seconds : ℕ

-- The globals that a connection goes through
pub record Server : Type 0 where
  pub limiter : IpLimiter
  pub pool : ThreadPool
  pub shutdown : ShutdownContext

-- atomic_fetch_add and atomic_fetch_sub of a size_t by one
abbrev pub add_one_size : ℕ → ℕ
add_one_size n = (n + 1) % 2 ^ 64

abbrev pub sub_one_size : ℕ → ℕ
sub_one_size n = (n + 2 ^ 64 - 1) % 2 ^ 64

abbrev pub in_flight : (ℕ → ℕ) → Server → Server
in_flight f s = record s {
  shutdown = record s.shutdown { in_flight_requests = f s.shutdown.in_flight_requests };
}

-- What becomes of an accepted connection: a 429 and a close, a close, or a task
pub data Outcome : Type 0 where
  too_many dropped dispatched : Outcome

-- The results of the calls between the limiter's check and the return
pub record Calls : Type 0 where
  pub flags_read : Bool
  pub flags_set : Bool
  pub task_allocated : Bool
  pub queue_allocated : Bool
  pub thread_spawned : Bool

give_back : ℕ → Server → Server
give_back ip s = record s { limiter = decrement s.limiter ip }

queued : ℕ → Server → Bool × Option ℕ × ThreadPool → Outcome × Server
unfolding give_back
queued ip s (true, slot, pool) = (dispatched, record s { pool = pool })
queued ip s (false, slot, pool) =
    (dropped, give_back ip (in_flight sub_one_size (record s { pool = pool })))

granted : Calls → ℕ → Server → Outcome × Server
unfolding queued give_back
granted calls ip s =
    if calls.flags_read && calls.flags_set && calls.task_allocated
    then queued ip (in_flight add_one_size s)
        (thread_pool_add_task calls.queue_allocated calls.thread_spawned s.pool ip)
    else (dropped, give_back ip s)

on_result : Calls → ℕ → Server → Result → Outcome × Server
unfolding granted
on_result calls ip s rejected = (too_many, s)
on_result calls ip s result_ok = granted calls ip s

-- `accept_and_dispatch_client` on a connection from `ip`. While the server shuts down it is closed.
unfoldable pub accept_and_dispatch_client : Calls → ℕ → ℕ → Server → Outcome × Server
unfolding on_result
accept_and_dispatch_client calls ip now s =
    let (r, current, limiter) = check_and_increment s.limiter ip now in
    if is_running s.shutdown.state
    then on_result calls ip (record s { limiter = limiter }) r
    else (dropped, s)

-- `client_task`: at its end the address is given back, then the request is no longer in flight.
unfoldable pub give_address_back : ℕ → Server → Server
unfolding give_back
give_address_back ip s = give_back ip s

unfoldable pub leave : Server → Server
leave s = in_flight sub_one_size s

-- `handle_signal`: `interrupted` is SIGINT; any other signal starts to drain.
unfoldable pub handle_signal : Bool → Timespec → ShutdownContext → ShutdownContext
handle_signal interrupted now c =
    if is_running c.state
    then if interrupted then record c { state = forced } else record c {
      state = draining;
      deadline = record now { tv_sec = now.tv_sec + c.timeout_seconds };
      peak_in_flight = c.in_flight_requests;
    }
    else c

-- The test of the deadline
abbrev pub is_past : Timespec → Timespec → Bool
is_past deadline now =
    ltb deadline.tv_sec now.tv_sec
    || (now.tv_sec == deadline.tv_sec && ltb deadline.tv_nsec now.tv_nsec)

-- One look of `drain_in_flight_requests`: the requests in flight, then the clock
pub record Look : Type 0 where
  pub count : ℕ
  pub now : Timespec

-- The loop, on the looks that it takes: `none` while it waits, otherwise whether it was forced.
unfoldable pub drain_loop : Timespec → List Look → Option Bool
drain_loop deadline [] = none
drain_loop deadline (l ∷ ls) =
    let rest = drain_loop deadline ls in
    if l.count == 0 then some false else if is_past deadline l.now then some true else rest

-- What is recorded behind the loop, with the requests that are in flight then
unfoldable pub finish_drain : ShutdownContext → Bool → ℕ → ShutdownContext
finish_drain c was_forced remaining = record c {
  state = if was_forced then forced else c.state;
  completed = (c.peak_in_flight + 2 ^ 64 - remaining) % 2 ^ 64;
  forced_requests = remaining;
}
