-- ===== src/Server/Main.antt =====
-- server/server.c: main, as the list of its calls that take or give back something. Its parts in the
-- middle are elsewhere: Db.Schema has init_db, Clients the slots, Dispatch the threads.
pub mod Balance
pub mod Sockets
use school_meals.Base.{
  ℕ, zero, suc, ◌+◌, ◌≡◌, ◌≢◌, Bool, true, false, not, Option, none, some, List, [], ◌∷◌, ◌++◌,
  ◌==◌, replicate, if◌then◌else◌,
}
use school_meals.Db.{Engine}
use school_meals.Db.Schema.{init_db}
use school_meals.Server.Clients.{max_clients, Slots, slot_of, accept_client, end_client}

pub data Resource : Type 0 where
  mutex : Resource
  network : Resource
  database : Resource
  listener : Resource
  client : ℕ → Resource

-- InitializeCriticalSection, WSAStartup, sqlite3_open, socket and accept, and their counterparts
pub data Call : Type 0 where
  acquire : Resource → Call
  release : Resource → Call

-- What happens while main waits for clients: accept fails, a client comes and its thread is created
-- or not, the thread of a client ends.
pub data Event : Type 0 where
  accept_failed : Event
  accepted : ℕ → Bool → Event
  ended : ℕ → Event

-- The calls for an accepted socket: it is closed where no slot is free, or no thread was created.
abbrev pub accept_calls : ℕ → Bool → Option ℕ → List Call
accept_calls socket created none = acquire (client socket) ∷ release (client socket) ∷ []
accept_calls socket true (some i) = acquire (client socket) ∷ []
accept_calls socket false (some i) = acquire (client socket) ∷ release (client socket) ∷ []

-- The loop while running, with the threads that it starts
unfoldable pub serve_clients : List Event → Slots → List Call × Slots
unfolding slot_of accept_client end_client
serve_clients [] slots = ([], slots)
serve_clients (accept_failed ∷ events) slots = serve_clients events slots
serve_clients (accepted socket created ∷ events) slots =
    let (calls, slots') = serve_clients events (accept_client socket created slots) in
    (accept_calls socket created (slot_of 0 slots) ++ calls, slots')
serve_clients (ended socket ∷ events) slots =
    let (calls, slots') = serve_clients events (end_client socket slots) in
    (release (client socket) ∷ calls, slots')

-- The loop of the clean-up
unfoldable pub close_clients : Slots → List Call
close_clients [] = []
close_clients (c ∷ slots) =
    let rest = close_clients slots in if c == 0 then rest else release (client c) ∷ rest

-- What the calls of the system return: `file` is what sqlite3_open leaves.
pub record Host (Db : Type 0) : Type 0 where
  pub network_starts : Bool
  pub opened : Bool
  pub file : Db
  pub socket_created : Bool
  pub option_set : Bool
  pub bound : Bool
  pub listening : Bool

abbrev pub close_all : List Call
close_all = release listener ∷ release network ∷ release database ∷ release mutex ∷ []

abbrev pub run_server : List Event → Slots → List Call
run_server events slots =
    let (calls, slots') = serve_clients events slots in calls ++ (close_clients slots' ++ close_all)

-- setsockopt, bind and listen, each with the same clean-up
abbrev pub listen_for_clients : Bool → Bool → Bool → List Event → Slots → List Call
listen_for_clients option_set bound listening events slots =
    if not option_set
    then close_all
    else if not bound
    then close_all
    else if not listening
    then close_all
    else run_server events slots

abbrev pub with_database : Bool → Bool → Bool → Bool → List Event → Slots → List Call
with_database socket_created option_set bound listening events slots =
    if not socket_created
    then release network ∷ release database ∷ release mutex ∷ []
    else acquire listener ∷ listen_for_clients option_set bound listening events slots

module _ (e : Engine) where
  -- The clean-up after init_db has failed does not close the handle of the database.
  unfoldable pub server_main : Host e.Db → List Event → List Call
  unfolding init_db serve_clients close_clients
  server_main host events =
      acquire mutex
      ∷ (if not host.network_starts
          then release mutex ∷ []
          else acquire network
            ∷ acquire database
            ∷ (if not (init_db e (host.opened, host.file)).0
                then release network ∷ release mutex ∷ []
                else with_database host.socket_created host.option_set host.bound host.listening
                    events (replicate max_clients 0)))
