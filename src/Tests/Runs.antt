-- ===== src/Tests/Runs.antt =====
-- The list of active sockets and whole runs, at fixed inputs.
use danp.Prelude.{
  ℕ, ◌+◌, ◌≤◌, zero, suc, ◌≡◌, refl, ap, ◌⊎◌, true, [], ◌∷◌, none, some, get_or-replicate,
}
use danp.Types.{dgram, stream}
use danp.Node.{Socket, Node, blank_socket}
use danp.Socket.Bind.{bind}
use danp.Socket.Create.{create}
use danp.Socket.Create.Listed.{create-IsListed}
use danp.Socket.Links.{remove, Off}
use danp.Socket.Links.Listed.{next_in, IsListed}
use danp.Socket.Sound.{IsSound}
use danp.Route.{Routing}
use danp.Run.{start, Run, followed, creates, binds}
use danp.Run.Invariant.{reachable-IsSound}
use danp.Run.Ownership.{reachable-Owned}
use danp.Socket.Owned.{queued_in, free_at}
use danp.Tests.Os.{list_osal, list_osal-IsOsal}
use danp.Tests.Sockets.{here, here-IsLinked}

here-unlisted : (j : ℕ) → Off j (0 ∷ []) → next_in here.socket_pool j ≡ none
here-unlisted zero h = refl
here-unlisted (suc j) h =
    ap (λ (s : Socket list_osal). s.next) (get_or-replicate 19 j (blank_socket list_osal))

here-IsListed : IsListed here (0 ∷ [])
here-IsListed = record { linked = here-IsLinked; unlisted = here-unlisted; sockets = refl }

create-IsListed_example :
    let (got, m) = create dgram here in
    ((c : ℕ) × (got ≡ some c) × IsListed m (c ∷ remove c (0 ∷ [])))
    ⊎ ((got ≡ none) × (IsListed m (0 ∷ []) ⊎ ((c : ℕ) × IsListed m (remove c (0 ∷ [])))))
create-IsListed_example = create-IsListed dgram here (0 ∷ []) here-IsListed

-- A program makes a stream, and binds it to port 10.
abbrev no_routes : Routing
no_routes = record { interfaces = []; iface_list = none; route_table = [] }

abbrev initialised : Node list_osal
initialised = start list_osal true true 1 no_routes

abbrev made : Node list_osal
made = (create stream initialised).1

abbrev bound : Node list_osal
bound = (bind 0 10 made).1

bound-Run : Run initialised bound
bound-Run = followed initialised made bound (creates stream initialised) (binds 0 10 made)

reachable-IsSound_example : IsSound bound
reachable-IsSound_example = reachable-IsSound true true 1 no_routes bound bound-Run

reachable-Owned_example : queued_in 0 bound.socket_pool + free_at 0 bound.pool.free_map ≤ 1
reachable-Owned_example = reachable-Owned list_osal-IsOsal true true 1 no_routes bound bound-Run 0
