-- ===== src/System/Objects.antt =====
-- What the program holds of its surroundings besides descriptors, after a trace.
use wlr_remote.Base.{ℕ, ◌+◌, ◌-◌, [], ◌∷◌, ◌==◌, if◌then◌else◌}
use wlr_remote.Base.{some}
use wlr_remote.System.Controls.{controls, waits_in}
use wlr_remote.System.Types.{resolved, found}
use wlr_remote.System.Event.{
  getaddrinfo, lookup, freeaddrinfo, getifaddrs, freeifaddrs, Trace, dtls_new_context,
  dtls_free_context, wl_connect, wl_disconnect, wl_get_registry, registry_destroy,
  create_virtual_pointer, pointer_destroy,
}

-- How many contexts of tinydtls there are.
abbrev pub contexts : Trace → ℕ
contexts [] = 0
contexts (dtls_new_context made ∷ t) = contexts t + (if made then 1 else 0)
contexts (dtls_free_context ∷ t) = contexts t - 1
contexts (_ ∷ t) = contexts t

-- How many there ever were.
abbrev pub contexts_made : Trace → ℕ
contexts_made [] = 0
contexts_made (dtls_new_context made ∷ t) = contexts_made t + (if made then 1 else 0)
contexts_made (_ ∷ t) = contexts_made t

-- How many connections to the compositor; a NULL display is none.
abbrev pub displays : Trace → ℕ
displays [] = 0
displays (wl_connect d ∷ t) = displays t + (if d == 0 then 0 else 1)
displays (wl_disconnect ∷ t) = displays t - 1
displays (_ ∷ t) = displays t

abbrev pub registries : Trace → ℕ
registries [] = 0
registries (wl_get_registry ∷ t) = registries t + 1
registries (registry_destroy ∷ t) = registries t - 1
registries (_ ∷ t) = registries t

abbrev pub pointers : Trace → ℕ
pointers [] = 0
pointers (create_virtual_pointer p ∷ t) = pointers t + 1
pointers (pointer_destroy p ∷ t) = pointers t - 1
pointers (_ ∷ t) = pointers t

-- How many lists of addresses, of the kernel's interfaces or of a name's, there are.
abbrev pub lists : Trace → ℕ
lists [] = 0
lists (getaddrinfo port (resolved infos) ∷ t) = lists t + 1
lists (lookup name port (found head addrlen) ∷ t) = lists t + 1
lists (freeaddrinfo ∷ t) = lists t - 1
lists (getifaddrs (some interfaces) ∷ t) = lists t + 1
lists (freeifaddrs ∷ t) = lists t - 1
lists (_ ∷ t) = lists t

abbrev pub objects : Trace → ℕ × ℕ × ℕ × ℕ × ℕ
objects t = (contexts t, displays t, registries t, pointers t, lists t)

-- How often the program waited for events.
abbrev pub waits : Trace → ℕ
waits t = waits_in (controls t)
