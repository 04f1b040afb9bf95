-- ===== src/Session/Ownership.antt =====
-- Who may have a session: `resolve` and `delete` of `SessionManager`.
use open_simple_agent.Session.Manager.{resolve, delete}
use open_simple_agent.Base.Dict
use open_simple_agent.Base.{arith, false, some, true, ◌≡◌}
use open_simple_agent.Base.Clock.{Time}
use open_simple_agent.Base.Dict.{Dict}
use open_simple_agent.Base.Result.{returned}
use open_simple_agent.Base.Same.{nat_eq, option_eq, pair_eq, same_refl}
use open_simple_agent.Base.Text.{Text, text_eq}
use open_simple_agent.Session.{Caller, Session, is_expired, matches_owner}
use open_simple_agent.Session.Manager.{Manager}
use open_simple_agent.Base.{Option, none, refl}
use open_simple_agent.Base.Dict.{get-erase}
use open_simple_agent.Base.Result.{raised}
use open_simple_agent.Base.Text.{option_text_iff}
use open_simple_agent.Session.{session_access_denied, session_not_found}
use open_simple_agent.Session.Manager.{resolve_found}
use open_simple_agent.Session.Manager.{delete_found}

-- the session is of this caller: the same agent, user and tenant
pub record IsOwner (s : Session) (c : Caller) : Type 0 where
  pub agent : s.agent_name ≡ c.agent_name
  pub user : s.user_id ≡ c.user_id
  pub tenant : s.tenant_id ≡ c.tenant_id

pub matches-IsOwner : (s : Session) (c : Caller) → matches_owner s c ≡ true → IsOwner s c
unfolding matches_owner
matches-IsOwner s c h = record {
  agent = ground (arith, text_eq.same_iff s.agent_name c.agent_name);
  user = ground (arith, option_text_iff s.user_id c.user_id);
  tenant = ground (arith, option_text_iff s.tenant_id c.tenant_id);
}

pub IsOwner-matches : (s : Session) (c : Caller) → IsOwner s c → matches_owner s c ≡ true
unfolding matches_owner
IsOwner-matches s c o =
    rw (o.agent, o.user, o.tenant)
      (ground (arith, same_refl c.agent_name, same_refl c.user_id, same_refl c.tenant_id))

found_returns :
    (m : Manager) (session_id : Text) (c : Caller) (now : Time) (o : Option Session) {s : Session}
    → (resolve_found m session_id c now o).1 ≡ returned s
    → (o ≡ some s)
      × (is_expired s now ≡ false)
      × (matches_owner s c ≡ true)
      × ((resolve_found m session_id c now o).0 ≡ m)
unfolding resolve_found
found_returns m session_id c now none h = cc
found_returns m session_id c now (some stored) h = ground arith

-- What `resolve` returns is the stored session: it has not expired, it is the caller's own, and
-- the store is unchanged.
pub resolve_returns :
    (m : Manager) (session_id : Text) (c : Caller) (now : Time) {s : Session}
    → (resolve m session_id c now).1 ≡ returned s
    → (Dict.get m session_id ≡ some s)
      × (is_expired s now ≡ false)
      × IsOwner s c
      × ((resolve m session_id c now).0 ≡ m)
unfolding resolve
resolve_returns m session_id c now {s} h =
    let (found, live, own, same) = found_returns m session_id c now (Dict.get m session_id) h in
    (found, live, matches-IsOwner s c own, same)

denied_found :
    (m : Manager) (session_id : Text) (c : Caller) (now : Time) (o : Option Session) {id : Text}
    → (resolve_found m session_id c now o).1 ≡ raised (session_access_denied id)
    → (s : Session) × (o ≡ some s)
      × (is_expired s now ≡ false)
      × (matches_owner s c ≡ false)
      × ((resolve_found m session_id c now o).0 ≡ m)
unfolding resolve_found
denied_found m session_id c now none h = cc
denied_found m session_id c now (some s) h = (s, refl, ground arith, ground arith, ground arith)

-- `resolve` denies access exactly to those who are not the owner of a live session: it raises this
-- error only for a stored session that has not expired and is not the caller's, and changes nothing.
pub resolve_denied :
    (m : Manager) (session_id : Text) (c : Caller) (now : Time) {id : Text}
    → (resolve m session_id c now).1 ≡ raised (session_access_denied id)
    → (s : Session) × (Dict.get m session_id ≡ some s)
      × (is_expired s now ≡ false)
      × (¬ IsOwner s c)
      × ((resolve m session_id c now).0 ≡ m)
unfolding resolve
resolve_denied m session_id c now h =
    let (s, found, live, foreign, same) =
      denied_found m session_id c now (Dict.get m session_id) h in
    (s, found, live, (λ o. cc (foreign, IsOwner-matches s c o)), same)

-- The owner of a live session gets it.
pub resolve_owner :
    (m : Manager) (session_id : Text) (c : Caller) (now : Time) {s : Session}
    → Dict.get m session_id ≡ some s
    → is_expired s now ≡ false
    → IsOwner s c
    → resolve m session_id c now ≡ (m, returned s)
unfolding resolve resolve_found
resolve_owner m session_id c now {s} found live own = rw (found, live, IsOwner-matches s c own)

-- An expired session is reported as unknown to everybody, its owner included, and is gone.
pub resolve_expired :
    (m : Manager) (session_id : Text) (c : Caller) (now : Time) {s : Session}
    → Dict.get m session_id ≡ some s
    → is_expired s now ≡ true
    → ((resolve m session_id c now).1 ≡ raised (session_not_found session_id))
      × (Dict.get (resolve m session_id c now).0 session_id ≡ none)
unfolding resolve resolve_found
resolve_expired m session_id c now {s} found old =
    rw (found, old) (refl, rw (get-erase m session_id session_id) (rw (same_refl session_id)))

deleted_found :
    (m : Manager) (session_id : Text) (c : Caller) (o : Option Session)
    → (delete_found m session_id c o).1 ≡ returned true
    → (s : Session) × (o ≡ some s)
      × (matches_owner s c ≡ true)
      × ((delete_found m session_id c o).0 ≡ Dict.erase m session_id)
unfolding delete_found
deleted_found m session_id c none h = cc
deleted_found m session_id c (some s) h = (s, refl, ground arith, ground arith)

-- Only the owner can delete a session.
pub delete-IsOwner :
    (m : Manager) (session_id : Text) (c : Caller)
    → (delete m session_id c).1 ≡ returned true
    → (s : Session) × (Dict.get m session_id ≡ some s)
      × IsOwner s c
      × (Dict.get (delete m session_id c).0 session_id ≡ none)
unfolding delete
delete-IsOwner m session_id c h =
    let (s, found, own, erased) = deleted_found m session_id c (Dict.get m session_id) h in
    (
      s,
      found,
      matches-IsOwner s c own,
      rw erased (rw (get-erase m session_id session_id) (rw (same_refl session_id))),
    )
