-- ===== src/Gateway/Sessions.antt =====
-- infrastructure/cache/memory/operation_session_store.py: `InMemoryOperationSessionStore`. Each method
-- holds the store's lock for its whole body, so a call is one step.
pub mod Invariant
pub mod Expiry
use geldstrom.Prelude.{
  ℕ, ◌+◌, Bool, true, false, ◌&&◌, List, [], ◌∷◌, Option, none, some, String, str_eq, leb,
  if◌then◌else◌, length, Outcome, ok, raised,
}
use geldstrom.Gateway.{
  PendingOperationSession, OperationStatus, is_pending, pending_confirmation, completed, failed,
  expired,
}
use geldstrom.Gateway.Dict.{Dict, find, put, remove}

pub record Store : Type 0 where
  pub max_sessions : ℕ
  pub sessions : Dict PendingOperationSession

-- `InternalError`, of a store at its capacity.
pub data StoreRaise : Type 0 where
  at_capacity : StoreRaise

-- operation_id not in self._sessions and len(self._sessions) >= self._max_sessions
abbrev pub is_full_without : Store → Option PendingOperationSession → Bool
is_full_without store (some held) = false
is_full_without store none = leb store.max_sessions (length store.sessions)

abbrev pub is_full : Store → PendingOperationSession → Bool
is_full store session = is_full_without store (find session.operation_id store.sessions)

abbrev pub stored : Store → PendingOperationSession → Store
stored store session = record store { sessions = put session.operation_id session store.sessions }

unfoldable pub create : PendingOperationSession → Store → Outcome StoreRaise (Unit {0}) × Store
create session store =
    if is_full store session then (raised at_capacity, store) else (ok tt, stored store session)

unfoldable pub get : String → Store → Option PendingOperationSession
get operation_id store = find operation_id store.sessions

unfoldable pub update : PendingOperationSession → Store → Store
update session store = stored store session

unfoldable pub delete : String → Store → Store
delete operation_id store = record store { sessions = remove operation_id store.sessions }

-- session.status in _terminal
abbrev pub is_terminal : OperationStatus → Bool
is_terminal pending_confirmation = false
is_terminal completed = true
is_terminal failed = true
is_terminal expired = true

abbrev pub is_stale : ℕ → PendingOperationSession → Bool
is_stale now session = leb session.expires_at now && is_terminal session.status

unfoldable pub stale_operation_ids : ℕ → Dict PendingOperationSession → List String
stale_operation_ids now [] = []
stale_operation_ids now ((operation_id, session) ∷ rest) =
    let ids = stale_operation_ids now rest in
    if is_stale now session then operation_id ∷ ids else ids

unfoldable pub remove_all :
    List String → Dict PendingOperationSession → Dict PendingOperationSession
remove_all [] sessions = sessions
remove_all (operation_id ∷ ids) sessions = remove_all ids (remove operation_id sessions)

unfoldable pub expire_stale : ℕ → Store → ℕ × Store
unfolding stale_operation_ids remove_all
expire_stale now store =
    let ids = stale_operation_ids now store.sessions in
    (length ids, record store { sessions = remove_all ids store.sessions })

-- The dictionary's values.
unfoldable pub list_all : Dict PendingOperationSession → List PendingOperationSession
list_all [] = []
list_all ((operation_id, session) ∷ rest) = session ∷ list_all rest
