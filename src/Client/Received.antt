-- ===== src/Client/Received.antt =====
-- client/network.c: the loop of send_data on what the sockets do.
use school_meals.Base.{
  ℕ, zero, suc, ◌+◌, ◌-◌, ◌≡◌, true, none, some, List, [], ◌∷◌, map, leb, if◌then◌else◌, arith,
}
use school_meals.Client.Network.{sent, send_data}

abbrev pub total : List ℕ → ℕ
total [] = 0
total (n ∷ ns) = n + total ns

-- With no failure, send_data returns true as soon as the counts that send returned add up to the
-- length, and does not return before that.
pub send_data-total :
    (ns : List ℕ) (len : ℕ)
    → send_data (map sent ns) len ≡ (if leb len (total ns) then some true else none)
unfolding send_data
send_data-total [] zero = ground arith
send_data-total [] (suc len) = ground arith
send_data-total (n ∷ ns) zero = ground arith
send_data-total (n ∷ ns) (suc len) = rw (send_data-total ns (suc len - n)) (ground arith)
