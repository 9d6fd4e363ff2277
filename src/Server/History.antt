-- ===== src/Server/History.antt =====
-- Sequences of steps of src/server.c: accepts, ends of tasks, compactions and signals. An accept is one step,
-- and the end of a task is two.
use emme.Prelude.{Timespec, ℕ, ◌+◌, ◌-◌, ◌<◌, ◌≢◌, Bool, List, [], ◌∷◌, occurs, remove}
use emme.IpLimiter.{IpLimiter, compact}
use emme.ThreadPool.Pool.{ThreadPool}
use emme.Server.{
  running, Server, Outcome, too_many, dropped, dispatched, Calls, accept_and_dispatch_client,
  give_address_back, leave, handle_signal,
}

-- The server, beside the addresses of the tasks that are queued or served, and the number of tasks that have
-- given their address back and are about to leave.
pub record World : Type 0 where
  pub server : Server
  pub tasks : List ℕ
  pub leaving : ℕ

abbrev pub after_accept : World → ℕ → Outcome × Server → World
after_accept w ip (dispatched, s) = record w { server = s; tasks = ip ∷ w.tasks }
after_accept w ip (too_many, s) = record w { server = s }
after_accept w ip (dropped, s) = record w { server = s }

pub data Step : World → World → Type 0 where
  accept :
      (w : World) (calls : Calls) (ip now : ℕ)
      → ip ≢ 0
      → Step w (after_accept w ip (accept_and_dispatch_client calls ip now w.server))
  finish :
      (w : World) (ip : ℕ)
      → ip ≢ 0
      → 0 < occurs ip w.tasks
      → Step w (record {
        server = give_address_back ip w.server;
        tasks = remove ip w.tasks;
        leaving = w.leaving + 1;
      })
  exit :
      (w : World)
      → 0 < w.leaving
      → Step w (record w { server = leave w.server; leaving = w.leaving - 1 })
  tidy :
      (w : World) (now : ℕ)
      → Step w (record w { server = record w.server { limiter = compact w.server.limiter now } })
  signal :
      (w : World) (interrupted : Bool) (now : Timespec)
      → Step w (record w {
        server = record w.server { shutdown = handle_signal interrupted now w.server.shutdown };
      })

pub data Reach (v : World) : World → Type 0 where
  here : Reach v v
  next : {u w : World} → Reach v u → Step u w → Reach v w

-- The server as it starts
abbrev pub first_world : IpLimiter → ThreadPool → ℕ → World
first_world l pool timeout = record {
  server = record {
    limiter = l;
    pool = pool;
    shutdown = record {
      state = running;
      in_flight_requests = 0;
      deadline = record { tv_sec = 0; tv_nsec = 0 };
      completed = 0;
      forced_requests = 0;
      peak_in_flight = 0;
      timeout_seconds = timeout;
    };
  };
  tasks = [];
  leaving = 0;
}
