-- ===== src/Server/Main/Sockets.antt =====
-- The sockets that the loop of main accepts are closed, by the loop, by a thread or by the clean-up.
use school_meals.Base.{
  ℕ, ◌+◌, ◌≡◌, ◌≢◌, refl, sym, subst, Bool, Bool-cases, Option-cases, inl, inr, true, false, Option,
  none, some, List, [], ◌∷◌, ◌++◌, ◌==◌, ==_iff, any, set, if◌then◌else◌, arith,
}
use school_meals.Server.Clients.{Slots, slot_of, accept_client, end_client}
use school_meals.Server.Clients.Slots.{
  Found-in, no_slot, accept_client-full, accept_client-free, accept_client-no_thread, end_client-at,
}
use school_meals.Server.Main.{
  Resource, mutex, network, database, listener, client, Call, acquire, release, Event,
  accept_failed, accepted, ended, accept_calls, serve_clients, close_clients,
}

abbrev pub code : Resource → ℕ
code mutex = 0
code network = 1
code database = 2
code listener = 3
code (client socket) = 4 + socket

abbrev pub once : Resource → Resource → ℕ
once r s = if code r == code s then 1 else 0

-- How often a list of calls takes a resource, and how often it gives it back
abbrev pub taken : Resource → List Call → ℕ
taken r [] = 0
taken r (acquire s ∷ calls) = once r s + taken r calls
taken r (release s ∷ calls) = taken r calls

abbrev pub given_back : Resource → List Call → ℕ
given_back r [] = 0
given_back r (acquire s ∷ calls) = given_back r calls
given_back r (release s ∷ calls) = once r s + given_back r calls

empty_slots : (socket i : ℕ) → slot_of socket [] ≢ some i
unfolding slot_of
empty_slots socket i h = cc

slot_of-none :
    (socket : ℕ) (slots : Slots)
    → slot_of socket slots ≡ none
    → any (λ c. c == socket) slots ≡ false
unfolding slot_of
slot_of-none socket [] h = refl
slot_of-none socket (c ∷ slots) h = elim (Bool-cases (c == socket)) [
  | inl here ↦ absurd (cc (rw here at h))
  | inr other ↦ rw other (
      slot_of-none socket slots (elim (Option-cases (slot_of socket slots)) [
        | inl absent ↦ absent
        | inr (i, found) ↦ absurd (cc (rw found at (rw other at h)))
      ]))
]

module _ (r : Resource) where
  pub taken-append :
      (calls calls' : List Call) → taken r (calls ++ calls') ≡ taken r calls + taken r calls'
  taken-append [] calls' = omega arith
  taken-append (acquire s ∷ calls) calls' = omega (arith, taken-append calls calls')
  taken-append (release s ∷ calls) calls' = taken-append calls calls'

  pub given_back-append :
      (calls calls' : List Call)
      → given_back r (calls ++ calls') ≡ given_back r calls + given_back r calls'
  given_back-append [] calls' = omega arith
  given_back-append (acquire s ∷ calls) calls' = given_back-append calls calls'
  given_back-append (release s ∷ calls) calls' = omega (arith, given_back-append calls calls')

  -- The slots that the clean-up would close for this resource
  abbrev pub in_slots : Slots → ℕ
  in_slots slots = given_back r (close_clients slots)

  in_slots-head :
      (c : ℕ) (slots : Slots)
      → in_slots (c ∷ slots) ≡ (if c == 0 then 0 else once r (client c)) + in_slots slots
  unfolding close_clients
  in_slots-head c slots = elim (Bool-cases (c == 0)) [
    | inl free ↦ rw free (omega arith)
    | inr busy ↦ rw busy refl
  ]

  in_slots-set :
      (socket : ℕ) (slots : Slots) (i : ℕ)
      → socket ≢ 0
      → slot_of 0 slots ≡ some i
      → in_slots (set slots i socket) ≡ once r (client socket) + in_slots slots
  in_slots-set socket [] i h free = absurd (no_slot i free)
  in_slots-set socket (c ∷ slots) i h free = elim (Found-in 0 c slots i free) [
    | inl (e, first) ↦
        subst
          (λ k. in_slots (set (c ∷ slots) k socket) ≡ once r (client socket) + in_slots (c ∷ slots))
          (sym first) (rw (in_slots-head socket slots, in_slots-head c slots) (ground arith))
    | inr (e, j, later, at) ↦
        subst
          (λ k. in_slots (set (c ∷ slots) k socket) ≡ once r (client socket) + in_slots (c ∷ slots))
          (sym at)
          (rw (in_slots-head c (set slots j socket), in_slots-head c slots)
            (omega (arith, in_slots-set socket slots j h later)))
  ]

  in_slots-unset :
      (socket : ℕ) (slots : Slots) (i : ℕ)
      → socket ≢ 0
      → slot_of socket slots ≡ some i
      → in_slots slots ≡ once r (client socket) + in_slots (set slots i 0)
  in_slots-unset socket [] i h found = absurd (empty_slots socket i found)
  in_slots-unset socket (c ∷ slots) i h found = elim (Found-in socket c slots i found) [
    | inl (e, first) ↦
        subst (λ k. in_slots (c ∷ slots) ≡ once r (client socket) + in_slots (set (c ∷ slots) k 0))
          (sym first)
          (rw (in_slots-head c slots, in_slots-head 0 slots, (==_iff c socket).0 e) (ground arith))
    | inr (e, j, later, at) ↦
        subst (λ k. in_slots (c ∷ slots) ≡ once r (client socket) + in_slots (set (c ∷ slots) k 0))
          (sym at)
          (rw (in_slots-head c slots, in_slots-head c (set slots j 0))
            (omega (arith, in_slots-unset socket slots j h later)))
  ]

  accept_calls-balanced :
      (socket : ℕ) (created : Bool) (slots : Slots)
      → socket ≢ 0
      → (o : Option ℕ) → slot_of 0 slots ≡ o
      → taken r (accept_calls socket created o) + in_slots slots
        ≡ given_back r (accept_calls socket created o)
          + in_slots (accept_client socket created slots)
  accept_calls-balanced socket created slots h none full =
      rw (accept_client-full socket created slots full) refl
  accept_calls-balanced socket true slots h (some i) free =
      rw (accept_client-free socket slots i free)
        (omega (arith, in_slots-set socket slots i h free))
  accept_calls-balanced socket false slots h (some i) free =
      rw (accept_client-no_thread socket slots) refl

  ended-balanced :
      (socket : ℕ) (slots : Slots)
      → socket ≢ 0
      → any (λ c. c == socket) slots ≡ true
      → in_slots slots ≡ once r (client socket) + in_slots (end_client socket slots)
  ended-balanced socket slots h there = elim (Option-cases (slot_of socket slots)) [
    | inl absent ↦ absurd (cc (slot_of-none socket slots absent))
    | inr (i, found) ↦
        rw (end_client-at socket slots i found) (in_slots-unset socket slots i h found)
  ]

-- Events as they happen: an accepted socket is not 0 and not among the open ones, and a thread that
-- ends is one of a client in a slot.
abbrev pub IsRun : List Event → Slots → Type 0
IsRun [] slots = Unit
IsRun (accept_failed ∷ events) slots = IsRun events slots
IsRun (accepted socket created ∷ events) slots =
    (socket ≢ 0)
    × (any (λ c. c == socket) slots ≡ false)
    × IsRun events (accept_client socket created slots)
IsRun (ended socket ∷ events) slots =
    (socket ≢ 0) × (any (λ c. c == socket) slots ≡ true) × IsRun events (end_client socket slots)

pub serve_clients-balanced :
    (r : Resource) (events : List Event) (slots : Slots)
    → IsRun events slots
    → taken r (serve_clients events slots).0 + in_slots r slots
      ≡ given_back r (serve_clients events slots).0 + in_slots r (serve_clients events slots).1
unfolding serve_clients
serve_clients-balanced r [] slots run = refl
serve_clients-balanced r (accept_failed ∷ events) slots run =
    serve_clients-balanced r events slots run
serve_clients-balanced r (accepted socket created ∷ events) slots (h, new, run) = omega (
  arith,
  taken-append r (accept_calls socket created (slot_of 0 slots))
      (serve_clients events (accept_client socket created slots)).0,
  given_back-append r (accept_calls socket created (slot_of 0 slots))
      (serve_clients events (accept_client socket created slots)).0,
  accept_calls-balanced r socket created slots h _ refl,
  serve_clients-balanced r events (accept_client socket created slots) run,
)
serve_clients-balanced r (ended socket ∷ events) slots (h, there, run) = omega (
  arith,
  ended-balanced r socket slots h there,
  serve_clients-balanced r events (end_client socket slots) run,
)
