-- ===== src/Fix/SessionManager.antt =====
-- include/fix/session_manager.hpp and src/fix/session_manager.cpp. The unordered map from identities
-- to shared sessions has one entry for each identity; a session is named by a number, and lies in a
-- heap that its other owners share. The mutex and the log are left out.
pub mod Registry
use fix4_0_demo.Prelude.{
  ℕ, ◌==◌, ◌≡◌, Bool, true, false, ◌&&◌, not, List, [], ◌∷◌, Option, none, some, if◌then◌else◌,
  is_some, length, Text, text_eq,
}
use fix4_0_demo.Fix.Message.{FixMessage, Result, ok, err}
use fix4_0_demo.Fix.Session.{Session, Store, Clock, get_session_id}
use fix4_0_demo.Fix.Session.Sending.{send_app_message}
use fix4_0_demo.Engine.Order.{SessionId}

abbrev pub id_eq : SessionId → SessionId → Bool
id_eq a b = text_eq a.sender_comp_id b.sender_comp_id && text_eq a.target_comp_id b.target_comp_id

abbrev pub Sessions : Type 0
Sessions = List (SessionId × ℕ)

abbrev pub SessionHeap : Type 0 → Type 0
SessionHeap S = ℕ → Session S

-- `emplace`, and the replacement when there was an entry.
unfoldable pub emplace : SessionId → ℕ → Sessions → Sessions
emplace id p [] = (id, p) ∷ []
emplace id p ((k, q) ∷ sessions) =
    if id_eq k id then (k, p) ∷ sessions else (k, q) ∷ emplace id p sessions

unfoldable pub find_session : SessionId → Sessions → Option ℕ
find_session id [] = none
find_session id ((k, p) ∷ sessions) = if id_eq k id then some p else find_session id sessions

unfoldable pub erase : SessionId → Sessions → Sessions
erase id [] = []
erase id ((k, p) ∷ sessions) = if id_eq k id then sessions else (k, p) ∷ erase id sessions

abbrev pub has_session : SessionId → Sessions → Bool
has_session id sessions = is_some (find_session id sessions)

abbrev pub unregister_session : SessionId → Sessions → Bool × Sessions
unregister_session id sessions =
    if has_session id sessions then (true, erase id sessions) else (false, sessions)

abbrev pub get_session_count : Sessions → ℕ
get_session_count sessions = length sessions

-- The sessions are copied first: what a callback does to the manager is not seen by the walk.
unfoldable pub for_each_session : {W : Type 0} → (SessionId → ℕ → W → W) → Sessions → W → W
for_each_session callback [] w = w
for_each_session callback ((id, p) ∷ sessions) w =
    for_each_session callback sessions (callback id p w)

module _ {S : Type 0} where
  -- A null session is not registered.
  abbrev pub register_session : Option ℕ → SessionHeap S → Sessions → Sessions
  register_session none heap sessions = sessions
  register_session (some p) heap sessions = emplace (get_session_id (heap p)) p sessions

  abbrev pub write : ℕ → Session S → SessionHeap S → SessionHeap S
  write p s heap q = if p == q then s else heap q

module _ {S : Type 0} ⦃store : Store S⦄ (clock : Clock) where
  unfoldable pub send_message :
      (FixMessage → SessionId → FixMessage)
      → SessionId
      → FixMessage
      → Sessions
      → SessionHeap S
      → Bool × SessionHeap S
  send_message to_app id msg sessions heap = elim (find_session id sessions) [
    | none ↦ (false, heap)
    | some p ↦
        let sent = send_app_message clock to_app msg (heap p) in
        if not (heap p).running
        then (false, heap)
        else (elim sent.0 [ ok _ ↦ true | err _ ↦ false ], write p sent.1 heap)
  ]
