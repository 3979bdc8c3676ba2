-- ===== src/Examples/Services.antt =====
-- The results on the accept loop, the shutdown and the pool of buffers.
use redistill.Base.{
  ◌+◌, ◌-◌, ◌≤◌, ◌≡◌, refl, true, Option, none, some, List, [], ◌∷◌, ◌++◌, arith, codes, length,
  false,
}
use redistill.Persistence.Stream.{all_live_entries}
use redistill.Persistence.Restored.{restore_all}
use redistill.Server.{Settings, World}
use redistill.Server.Startup.{startup, running}
use redistill.Server.Shutdown.{shutdown, startup-shutdown}
use redistill.Server.Listener.{
  Listening, Events, start, next, arrives, begins, accept_next, begin, arrivals, serving-le,
  waiting-arrivals, IsCounted, accept,
}
use redistill.Server.Auth.{check_rate_limit}
use redistill.Store.Buffers
use redistill.Store.Buffers.{
  SegQueue, Buffer, Buffers, Use, gets, returns, get_buffer, return_buffer, initial_pool, IsBounded,
  Uses-IsBounded, initial_pool-IsBounded,
}
use redistill.Examples.Samples.{here}
use redistill.Examples.Snapshots.{plain-IsFaithful, kept, emptied, saved, small, few, fields_unique}
use redistill.Examples.Servers.{cfg, sys, world, fine}

abbrev kept_world : World here
kept_world = record world { store = kept }

abbrev emptied_world : World here
emptied_world = record world { store = emptied }

-- The settings without a log.
abbrev logless : Settings
logless = record cfg { aof_enabled = false }

shutdown_example :
    startup here logless sys 3 10 fine [] 0
      (record emptied_world { saves = (shutdown here logless sys true true none kept_world).saves })
    ≡ some (
        running (record emptied_world {
          saves = (shutdown here logless sys true true none kept_world).saves;
          store = (restore_all here 7 9 (all_live_entries here 7 kept.shards) (emptied, 0)).0;
        }))
shutdown_example =
    startup-shutdown here logless sys plain-IsFaithful kept_world emptied_world 2 3 10 fine [] 0
      refl refl saved small fields_unique few

-- No limit on the rate, and two connections.
abbrev unhurried : Settings
unhurried = record cfg { connection_rate_limit = 0 }

abbrev idle : Listening here
idle = record { world = world; waiting = 0; serving = 0 }

abbrev one_waits : Listening here
one_waits = accept_next unhurried 2 idle

one_waits-waits : one_waits.waiting ≡ 1
unfolding accept_next accept check_rate_limit
one_waits-waits = refl

abbrev one_served : Listening here
one_served = record {
  world = begin one_waits.world;
  waiting = one_waits.waiting - 1;
  serving = one_waits.serving + 1;
}

idle-IsCounted : IsCounted here unhurried 2 idle
idle-IsCounted = record { counted = refl }

abbrev events : Events here unhurried 2 idle one_served
events = next (next start arrives) (begins (omega (arith, one_waits-waits)))

serving-le_example : one_served.serving + one_served.waiting + 1 ≤ 2 + 1
serving-le_example =
    serving-le here unhurried 2 1 events
      ((omega arith, omega (arith, one_waits-waits)), omega (arith, one_waits-waits)) idle-IsCounted
      (omega arith) (omega arith) (omega arith)

waiting-arrivals_example : (arrivals here unhurried 2 5 idle).waiting ≡ 0 + 5
waiting-arrivals_example = waiting-arrivals here unhurried 2 5 idle refl (omega arith)

-- A list as the queue.
pop_front : List Buffer → Option (Buffer × List Buffer)
pop_front [] = none
pop_front (b ∷ q) = some (b, q)

items-pop_front : (q r : List Buffer) (b : Buffer) → pop_front q ≡ some (b, r) → q ≡ b ∷ r
unfolding pop_front
items-pop_front [] r b e = cc
items-pop_front (c ∷ q) r b e = cc

pop_front-none : (q : List Buffer) → pop_front q ≡ none → q ≡ []
unfolding pop_front
pop_front-none [] e = refl
pop_front-none (c ∷ q) e = cc

abbrev queue : SegQueue
queue = record {
  Queue = List Buffer;
  new = [];
  push = λ q b. q ++ b ∷ [];
  pop = pop_front;
  len = λ q. length q;
  items = λ q. q;
  items-new = refl;
  items-push = λ q b. refl;
  items-pop = items-pop_front;
  pop_none = pop_front-none;
  len-items = λ q. refl;
}

abbrev unused : Buffers queue 16 4
unused = record { pool = initial_pool queue 16 4; in_use = 0 }

abbrev taken : Buffers queue 16 4
taken = record { pool = (get_buffer queue 16 4 unused.pool).1; in_use = 1 }

abbrev grown : Buffer
grown = record { content = codes "reply"; capacity = 40 }

abbrev given_back : Buffers queue 16 4
given_back = record { pool = return_buffer queue 16 4 taken.pool grown; in_use = 0 }

buffers_example : IsBounded queue 16 4 1 given_back
buffers_example =
    Uses-IsBounded queue 16 4 1
      (Buffers.next (Buffers.next Buffers.start gets) (returns grown (omega arith)))
      ((omega arith, omega arith), omega arith) (initial_pool-IsBounded queue 16 4 1)
