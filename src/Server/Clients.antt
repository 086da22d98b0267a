-- ===== src/Server/Clients.antt =====
-- server/server.c: the array client_sockets, which main and the threads of handle_client share
-- under clients_mutex. A slot of 0 is free.
pub mod Slots
pub mod Distinct
use school_meals.Base.{
  ℕ, zero, suc, ◌≡◌, ◌≢◌, Bool, true, false, Option, none, some, List, [], ◌∷◌, ◌==◌, ◌>>=◌,
  if◌then◌else◌, any, set, replicate,
}

abbrev pub max_clients : ℕ
max_clients = 10

abbrev pub Slots : Type 0
Slots = List ℕ

-- The loop that breaks at the first slot that holds `socket`: its index, or none at the end
unfoldable pub slot_of : ℕ → Slots → Option ℕ
slot_of socket [] = none
slot_of socket (c ∷ slots) =
    let later = slot_of socket slots in if c == socket then some 0 else (do i ← later; some (suc i))

-- main, for an accepted socket: the first free slot takes it, or it is closed where none is free.
-- A thread that cannot be created gives the slot back.
unfoldable pub accept_client : ℕ → Bool → Slots → Slots
unfolding slot_of
accept_client socket created slots = elim (slot_of 0 slots) [
  | none ↦ slots
  | some i ↦ if created then set slots i socket else set (set slots i socket) i 0
]

-- handle_client, after its loop
unfoldable pub end_client : ℕ → Slots → Slots
unfolding slot_of
end_client socket slots = elim (slot_of socket slots) [ none ↦ slots | some i ↦ set slots i 0 ]

-- The sockets that accept returns are not 0 and not among those that are still open.
pub data Step : Slots → Slots → Type 0 where
  accepted :
      {slots : Slots} (socket : ℕ) (created : Bool)
      → socket ≢ 0
      → any (λ c. c == socket) slots ≡ false
      → Step slots (accept_client socket created slots)
  ended : {slots : Slots} (socket : ℕ) → socket ≢ 0 → Step slots (end_client socket slots)

-- What main and the threads make of the array that main has zeroed
pub data Reachable : Slots → Type 0 where
  started : Reachable (replicate max_clients 0)
  next : {slots slots' : Slots} → Reachable slots → Step slots slots' → Reachable slots'
