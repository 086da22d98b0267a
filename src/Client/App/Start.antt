-- ===== src/Client/App/Start.antt =====
-- client/client.c: main around its loop.
use school_meals.Base.{ℕ, ◌≡◌, refl, Bool, true, false, not, List, [], ◌∷◌, if◌then◌else◌}

-- WSAStartup, socket, connect, the loop of Client.App, closesocket and WSACleanup
pub data Call : Type 0 where
  network_started : Call
  socket_created : Call
  connected : Call
  looped : Call
  socket_closed : Call
  network_cleaned : Call

-- What main returns, and the calls that it has made
unfoldable pub client_process : Bool → Bool → Bool → ℕ × List Call
client_process starts creates connects =
    if not starts
    then (1, [])
    else if not creates
    then (1, network_started ∷ network_cleaned ∷ [])
    else if not connects
    then (1, network_started ∷ socket_created ∷ socket_closed ∷ network_cleaned ∷ [])
    else (
      0,
      network_started ∷ socket_created ∷ connected ∷ looped ∷ socket_closed ∷ network_cleaned ∷ [],
    )

-- The calls that are still to be undone, the last one first
abbrev undone : List Call → List Call → List Call
undone open_calls [] = open_calls
undone open_calls (network_started ∷ calls) = undone (network_started ∷ open_calls) calls
undone open_calls (socket_created ∷ calls) = undone (socket_created ∷ open_calls) calls
undone open_calls (connected ∷ calls) = undone open_calls calls
undone open_calls (looped ∷ calls) = undone open_calls calls
undone (socket_created ∷ open_calls) (socket_closed ∷ calls) = undone open_calls calls
undone (network_started ∷ open_calls) (network_cleaned ∷ calls) = undone open_calls calls
undone open_calls calls = network_cleaned ∷ []

-- However the start goes, main undoes what it has done, in the opposite order.
client_process-undoes :
    (starts creates connects : Bool) → undone [] (client_process starts creates connects).1 ≡ []
unfolding client_process
client_process-undoes false creates connects = refl
client_process-undoes true false connects = refl
client_process-undoes true true false = refl
client_process-undoes true true true = refl
