-- ===== src/AsyncService/Nulls.antt =====
-- The NULL entries that `operator[]` leaves in `fd_service_map`.
use friend_serv.Base.{ℕ, ◌≡◌, refl, none}
use friend_serv.AsyncService.{AsyncService, find, set_service_connected, set_service_disconnected}

-- A disconnection reported for a descriptor that is not in the map leaves a NULL under it, and the
-- next connection reported, for whatever descriptor, dereferences it.
pub null_dereferenced :
    (s : AsyncService) (fd fd' : ℕ)
    → find s.fds fd ≡ none
    → set_service_connected fd' (set_service_disconnected fd s) ≡ none
null_dereferenced s fd fd' absent = rw absent refl
