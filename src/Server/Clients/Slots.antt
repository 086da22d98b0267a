-- ===== src/Server/Clients/Slots.antt =====
-- A client takes a slot and gives it back.
use school_meals.Base.{
  ℕ, suc, ◌≡◌, ◌≢◌, refl, sym, ap, ◌∙◌, subst, Bool, Bool-cases, Option-cases, inl, inr, true,
  false, Option, none, some, [], ◌∷◌, ◌==◌, ==_iff, ==_refl, ◌⊎◌, ◌||◌, ◌>>=◌, any, set, arith,
}
use school_meals.Server.Clients.{Slots, slot_of, accept_client, end_client}

abbrev pub Found : ℕ → ℕ → Slots → ℕ → Type 0
Found x c slots i =
    (((c == x) ≡ true) × (i ≡ 0))
    ⊎ (((c == x) ≡ false) × (j : ℕ) × (slot_of x slots ≡ some j) × (i ≡ suc j))

pub Found-in :
    (x c : ℕ) (slots : Slots) (i : ℕ) → slot_of x (c ∷ slots) ≡ some i → Found x c slots i
unfolding slot_of
Found-in x c slots i h = elim (Bool-cases (c == x)) [
  | inl e ↦ inl (e, sym (cc (rw e at h)))
  | inr e ↦ elim (Option-cases (slot_of x slots)) [
    | inl none_left ↦ absurd (cc (rw none_left at (rw e at h)))
    | inr (j, is) ↦ inr (e, j, is, sym (cc (rw is at (rw e at h))))
  ]
]

slot_of-head : (x c : ℕ) (slots : Slots) → (c == x) ≡ true → slot_of x (c ∷ slots) ≡ some 0
unfolding slot_of
slot_of-head x c slots e = rw e

slot_of-tail :
    (x c : ℕ) (slots : Slots) (o : Option ℕ)
    → (c == x) ≡ false
    → slot_of x slots ≡ o
    → slot_of x (c ∷ slots) ≡ (do i ← o; some (suc i))
unfolding slot_of
slot_of-tail x c slots o e h = rw (e, h)

pub absent-tail : (c : ℕ) (b rest : Bool) → (b || rest) ≡ false → (b ≡ false) × (rest ≡ false)
absent-tail c b rest h = (ground arith, ground arith)

pub no_slot : (i : ℕ) → slot_of 0 [] ≢ some i
unfolding slot_of
no_slot i h = cc

module _ (socket : ℕ) where
  slot_of-absent :
      (slots : Slots) → any (λ c. c == socket) slots ≡ false → slot_of socket slots ≡ none
  unfolding slot_of
  slot_of-absent [] h = refl
  slot_of-absent (c ∷ slots) h =
      let (hc, hs) = absent-tail c (c == socket) _ h in
      slot_of-tail socket c slots none hc (slot_of-absent slots hs)

  -- The slot that was the first free one is the one that holds a new socket.
  slot_of-set :
      (slots : Slots) (i : ℕ)
      → any (λ c. c == socket) slots ≡ false
      → slot_of 0 slots ≡ some i
      → slot_of socket (set slots i socket) ≡ some i
  slot_of-set [] i new free = absurd (no_slot i free)
  slot_of-set (c ∷ slots) i new free = elim (Found-in 0 c slots i free) [
    | inl (e, first) ↦
        subst (λ k. slot_of socket (set (c ∷ slots) k socket) ≡ some k) (sym first)
          (slot_of-head socket socket slots (==_refl socket))
    | inr (e, j, later, at) ↦
        let (hc, hs) = absent-tail c (c == socket) _ new in
        subst (λ k. slot_of socket (set (c ∷ slots) k socket) ≡ some k) (sym at)
          (slot_of-tail socket c (set slots j socket) (some j) hc (slot_of-set slots j hs later))
  ]

  set-set :
      (slots : Slots) (i : ℕ) → slot_of 0 slots ≡ some i → set (set slots i socket) i 0 ≡ slots
  set-set [] i free = refl
  set-set (c ∷ slots) i free = elim (Found-in 0 c slots i free) [
    | inl (e, first) ↦
        subst (λ k. set (set (c ∷ slots) k socket) k 0 ≡ c ∷ slots) (sym first)
          (ap (λ d. d ∷ slots) (sym ((==_iff c 0).0 e)))
    | inr (e, j, later, at) ↦
        subst (λ k. set (set (c ∷ slots) k socket) k 0 ≡ c ∷ slots) (sym at)
          (ap (λ r. c ∷ r) (set-set slots j later))
  ]

  pub accept_client-full :
      (created : Bool) (slots : Slots)
      → slot_of 0 slots ≡ none
      → accept_client socket created slots ≡ slots
  unfolding accept_client
  accept_client-full created slots full = rw (accept_client, full)

  pub accept_client-free :
      (slots : Slots) (i : ℕ)
      → slot_of 0 slots ≡ some i
      → accept_client socket true slots ≡ set slots i socket
  unfolding accept_client
  accept_client-free slots i free = rw (accept_client, free)

  pub accept_client-no_thread : (slots : Slots) → accept_client socket false slots ≡ slots
  unfolding accept_client
  accept_client-no_thread slots = elim (Option-cases (slot_of 0 slots)) [
    | inl full ↦ accept_client-full false slots full
    | inr (i, free) ↦ rw (accept_client, free) (set-set slots i free)
  ]

  end_client-absent :
      (slots : Slots) → any (λ c. c == socket) slots ≡ false → end_client socket slots ≡ slots
  unfolding end_client
  end_client-absent slots new = rw (end_client, slot_of-absent slots new)

  pub end_client-at :
      (slots : Slots) (i : ℕ)
      → slot_of socket slots ≡ some i
      → end_client socket slots ≡ set slots i 0
  unfolding end_client
  end_client-at slots i at = rw (end_client, at)

  -- A client whose socket is in no slot leaves the slots as they were when it has come and gone,
  -- whether there was a free slot for it or not, and whether its thread was created or not.
  pub end_client-accept_client :
      (created : Bool) (slots : Slots)
      → any (λ c. c == socket) slots ≡ false
      → end_client socket (accept_client socket created slots) ≡ slots
  end_client-accept_client false slots new =
      ap (end_client socket) (accept_client-no_thread slots) ∙ end_client-absent slots new
  end_client-accept_client true slots new = elim (Option-cases (slot_of 0 slots)) [
    | inl full ↦
        ap (end_client socket) (accept_client-full true slots full) ∙ end_client-absent slots new
    | inr (i, free) ↦
        ap (end_client socket) (accept_client-free slots i free)
        ∙ end_client-at (set slots i socket) i (slot_of-set slots i new free)
        ∙ set-set slots i free
  ]
