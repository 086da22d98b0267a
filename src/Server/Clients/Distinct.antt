-- ===== src/Server/Clients/Distinct.antt =====
-- No two slots hold the same socket.
use school_meals.Base.{
  ℕ, zero, suc, ◌≡◌, refl, sym, ◌∙◌, subst, Bool, Bool-cases, Option-cases, inl, inr, true, false,
  [], ◌∷◌, ◌==◌, ==_iff, ◌⊎◌, any, set, length, length-set, replicate, arith,
}
use school_meals.Server.Clients.{
  Slots, max_clients, slot_of, accept_client, end_client, Step, accepted, ended, Reachable, started,
  next,
}
use school_meals.Server.Clients.Slots.{
  absent-tail, accept_client-full, accept_client-free, accept_client-no_thread, end_client-at,
}

-- No socket stands in two slots.
abbrev pub DistinctSockets : Slots → Type 0
DistinctSockets [] = Unit
DistinctSockets (c ∷ slots) = ((c ≡ 0) ⊎ (any (λ d. d == c) slots ≡ false)) × DistinctSockets slots

any-set :
    (slots : Slots) (i v d : ℕ)
    → any (λ c. c == d) slots ≡ false
    → (v == d) ≡ false
    → any (λ c. c == d) (set slots i v) ≡ false
any-set [] i v d h hv = refl
any-set (c ∷ slots) zero v d h hv = rw hv ((absent-tail c (c == d) _ h).1)
any-set (c ∷ slots) (suc i) v d h hv =
    let (hc, hs) = absent-tail c (c == d) _ h in rw hc (any-set slots i v d hs hv)

abbrev IsNew : ℕ → Slots → Type 0
IsNew v slots = (v ≡ 0) ⊎ (any (λ c. c == v) slots ≡ false)

IsNew-tail : (v c : ℕ) (slots : Slots) → IsNew v (c ∷ slots) → IsNew v slots
IsNew-tail v c slots (inl z) = inl z
IsNew-tail v c slots (inr h) = inr (absent-tail c (c == v) _ h).1

-- A socket that stood in no slot behind c still stands in none.
IsNew-set :
    (c v i : ℕ) (slots : Slots) → IsNew c slots → IsNew v (c ∷ slots) → IsNew c (set slots i v)
IsNew-set c v i slots (inl z) hv = inl z
IsNew-set c v i slots (inr h) (inl z) = elim (Bool-cases (v == c)) [
  | inl e ↦ inl (sym ((==_iff v c).0 e) ∙ z)
  | inr e ↦ inr (any-set slots i v c h e)
]
IsNew-set c v i slots (inr h) (inr hv) =
    inr (any-set slots i v c h (ground (arith, (absent-tail c (c == v) _ hv).0)))

set-DistinctSockets :
    (slots : Slots) (i v : ℕ)
    → IsNew v slots
    → DistinctSockets slots
    → DistinctSockets (set slots i v)
set-DistinctSockets [] i v hv h = tt
set-DistinctSockets (c ∷ slots) zero v hv (hc, h) = (IsNew-tail v c slots hv, h)
set-DistinctSockets (c ∷ slots) (suc i) v hv (hc, h) =
    (IsNew-set c v i slots hc hv, set-DistinctSockets slots i v (IsNew-tail v c slots hv) h)

abbrev IsTable : Slots → Type 0
IsTable slots = (length slots ≡ max_clients) × DistinctSockets slots

set-IsTable : (slots : Slots) (i v : ℕ) → IsNew v slots → IsTable slots → IsTable (set slots i v)
set-IsTable slots i v hv (size, h) =
    (length-set slots i v ∙ size, set-DistinctSockets slots i v hv h)

accept_client-IsTable :
    (socket : ℕ) (created : Bool) (slots : Slots)
    → any (λ c. c == socket) slots ≡ false
    → IsTable slots
    → IsTable (accept_client socket created slots)
accept_client-IsTable socket false slots new h =
    subst IsTable (sym (accept_client-no_thread socket slots)) h
accept_client-IsTable socket true slots new h = elim (Option-cases (slot_of 0 slots)) [
  | inl full ↦ subst IsTable (sym (accept_client-full socket true slots full)) h
  | inr (i, free) ↦
      subst IsTable (sym (accept_client-free socket slots i free))
        (set-IsTable slots i socket (inr new) h)
]

end_client-IsTable :
    (socket : ℕ) (slots : Slots) → IsTable slots → IsTable (end_client socket slots)
unfolding end_client
end_client-IsTable socket slots h = elim (Option-cases (slot_of socket slots)) [
  | inl absent ↦ rw (end_client, absent) h
  | inr (i, at) ↦
      subst IsTable (sym (end_client-at socket slots i at)) (set-IsTable slots i 0 (inl refl) h)
]

Step-IsTable : {slots slots' : Slots} → Step slots slots' → IsTable slots → IsTable slots'
Step-IsTable (accepted {slots} socket created _ new) h =
    accept_client-IsTable socket created slots new h
Step-IsTable (ended {slots} socket _) h = end_client-IsTable socket slots h

zeros : (n : ℕ) → DistinctSockets (replicate n 0)
zeros zero = tt
zeros (suc n) = (inl refl, zeros n)

-- However clients come and go, the array keeps its ten slots, and no socket stands in two of them.
pub Reachable-DistinctSockets :
    {slots : Slots} → Reachable slots → (length slots ≡ max_clients) × DistinctSockets slots
Reachable-DistinctSockets started = (refl, zeros max_clients)
Reachable-DistinctSockets (next reached step) =
    Step-IsTable step (Reachable-DistinctSockets reached)
