-- ===== src/Repository/Audit.antt =====
-- repositories.py: the repositories of audit events. The detail of an event is a parameter; texts
-- are ordered by code points.
use open_simple_agent.Base.Lists.{length, take, drop}
use open_simple_agent.Base.{
  Bool, List, Option, [], ap, arith, false, if◌then◌else◌, ltb, refl, suc, true, zero, ℕ, ◌&&◌,
  ◌++◌, ◌-◌, ◌<◌, ◌||◌, ◌∷◌, ◌≡◌,
}
use open_simple_agent.Base.Clock.{Time}
use open_simple_agent.Base.Lists.{filter}
use open_simple_agent.Base.Same.{nat_eq, option_eq, pair_eq, ◌==◌}
use open_simple_agent.Base.Text.{Text, text_eq}

pub record AuditEvent (J : Type 0) : Type 0 where
  pub event_id : Text
  pub actor : Text
  pub action : Text
  pub target : Text
  pub occurred_at : Time
  pub detail : J
  pub tenant_id : Option Text

-- `a < b` for texts
unfoldable pub id_before : Text → Text → Bool
id_before s [] = false
id_before [] (b ∷ t) = true
id_before (a ∷ s) (b ∷ t) = ltb a b || (a == b && id_before s t)

module _ {J : Type 0} where
  unfoldable pub append : List (AuditEvent J) → AuditEvent J → List (AuditEvent J)
  append events event = events ++ (event ∷ [])

  abbrev pub of_tenant : Option Text → List (AuditEvent J) → List (AuditEvent J)
  of_tenant tenant_id events = filter (λ e. e.tenant_id == tenant_id) events

  -- `events[-limit:]`
  abbrev pub last_events : ℕ → List (AuditEvent J) → List (AuditEvent J)
  last_events zero events = events
  last_events (suc n) events = drop (length events - suc n) events

  -- `InMemoryAuditEventRepository.list_events`
  unfoldable pub memory_events : List (AuditEvent J) → ℕ → Option Text → List (AuditEvent J)
  memory_events events limit tenant_id = last_events limit (of_tenant tenant_id events)

  -- `a` comes before `b` in the order by time and identifier
  abbrev pub is_earlier : AuditEvent J → AuditEvent J → Bool
  is_earlier a b =
      ltb a.occurred_at b.occurred_at
      || (a.occurred_at == b.occurred_at && id_before a.event_id b.event_id)

  unfoldable pub insert_event : AuditEvent J → List (AuditEvent J) → List (AuditEvent J)
  insert_event e [] = e ∷ []
  insert_event e (f ∷ fs) = if is_earlier f e then f ∷ insert_event e fs else e ∷ f ∷ fs

  -- `ORDER BY occurred_at ASC, event_id ASC`
  unfoldable pub in_time : List (AuditEvent J) → List (AuditEvent J)
  in_time [] = []
  in_time (e ∷ es) = insert_event e (in_time es)

  -- `PostgresAuditEventRepository.list_events`, on the rows of the table
  unfoldable pub table_events : List (AuditEvent J) → ℕ → Option Text → List (AuditEvent J)
  table_events rows limit tenant_id = take limit (in_time (of_tenant tenant_id rows))

  -- each event comes before the next
  abbrev pub IsAscending : List (AuditEvent J) → Type 0
  IsAscending [] = Unit
  IsAscending (e ∷ []) = Unit
  IsAscending (e ∷ f ∷ es) = (is_earlier f e ≡ false) × IsAscending (f ∷ es)

  in_time_ascending : (es : List (AuditEvent J)) → IsAscending es → in_time es ≡ es
  unfolding in_time insert_event
  in_time_ascending [] h = refl
  in_time_ascending (e ∷ []) h = refl
  in_time_ascending (e ∷ f ∷ es) (first, rest) =
      let same : insert_event f (in_time es) ≡ f ∷ es = in_time_ascending (f ∷ es) rest in
      rw (same, first) refl

  -- Of the events of a tenant, recorded in the order of their times, the repository in memory lists
  -- the last ones up to a positive limit, and the tables list the first ones.
  pub pages_apart :
      (events : List (AuditEvent J)) (limit : ℕ) (tenant_id : Option Text)
      → 0 < limit
      → IsAscending (of_tenant tenant_id events)
      → (memory_events events limit tenant_id
          ≡ drop (length (of_tenant tenant_id events) - limit) (of_tenant tenant_id events))
        × (table_events events limit tenant_id ≡ take limit (of_tenant tenant_id events))
  unfolding memory_events table_events
  pages_apart events zero tenant_id some_limit h = absurd (omega arith)
  pages_apart events (suc n) tenant_id some_limit h =
      (refl, ap (take (suc n)) (in_time_ascending (of_tenant tenant_id events) h))
