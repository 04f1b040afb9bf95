-- ===== src/Memory/Provider.antt =====
-- memory.py: `InMemoryProvider`, all its operations. A call reads the clock once.
use open_simple_agent.Base.Dict.{get, put, erase}
use open_simple_agent.Base.{
  Bool, List, Option, [], if◌then◌else◌, is_some, leb, ltb, max, none, not, or_default, some, ℕ,
  ◌&&◌, ◌*◌, ◌++◌, ◌+◌, ◌-◌, ◌||◌, ◌∷◌,
}
use open_simple_agent.Base.Clock.{Time, seconds}
use open_simple_agent.Base.Dict.{Dict, values}
use open_simple_agent.Base.Lists.{any, filter, length, take}
use open_simple_agent.Base.Same.{nat_eq, option_eq, pair_eq, ◌==◌}
use open_simple_agent.Base.Text.{Text, is_empty, starts_with, text, text_eq}
use open_simple_agent.Memory.{MemoryEntry, MemoryScope, scope_text}

pub record Provider : Type 0 where
  pub entries : Dict Text (List MemoryEntry)
  pub max_entries : Option ℕ
  pub retention_days : Option ℕ

abbrev pub days : ℕ → Time
days n = seconds (n * 86400)

unfoldable pub scope_prefix : MemoryScope → Text → Text
scope_prefix scope scope_id = scope_text scope ++ (text ":" ++ (scope_id ++ text ":"))

unfoldable pub make_key : Text → MemoryScope → Text → Text
make_key key scope scope_id = scope_text scope ++ (text ":" ++ (scope_id ++ (text ":" ++ key)))

-- `e.updated_at > now - timedelta(days=retention)`
abbrev pub is_kept : ℕ → Time → MemoryEntry → Bool
is_kept retention now e = ltb now (e.updated_at + days retention)

-- In the buckets whose key has the prefix, the entries that pass the test stay; a bucket that
-- becomes empty is deleted.
unfoldable pub keep_where :
    Text → (MemoryEntry → Bool) → Dict Text (List MemoryEntry) → Dict Text (List MemoryEntry)
keep_where prefix test [] = []
keep_where prefix test ((bucket_key, bucket) ∷ d) =
    let rest = keep_where prefix test d in
    let kept = filter test bucket in
    if not (starts_with prefix bucket_key)
    then (bucket_key, bucket) ∷ rest
    else if length kept == 0
    then rest
    else (bucket_key, kept) ∷ rest

-- a purge with an optional retention
unfoldable pub purge :
    Option ℕ → Text → Time → Dict Text (List MemoryEntry) → Dict Text (List MemoryEntry)
purge none prefix now d = d
purge (some retention) prefix now d = keep_where prefix (is_kept retention now) d

unfoldable pub purge_expired : Provider → Text → Time → Provider
purge_expired p prefix now = record p { entries = purge p.retention_days prefix now p.entries }

unfoldable pub load : Provider → Text → MemoryScope → Text → Time → Provider × List MemoryEntry
load p key scope scope_id now =
    let purged = purge_expired p (scope_prefix scope scope_id) now in
    (purged, or_default (get purged.entries (make_key key scope scope_id)) [])

unfoldable pub store : Provider → MemoryEntry → Provider
store p e =
    let full_key = make_key e.key e.scope e.scope_id in
    record p {
      entries = put p.entries full_key (or_default (get p.entries full_key) [] ++ (e ∷ []));
    }

unfoldable pub delete : Provider → Text → MemoryScope → Text → Provider × Bool
delete p key scope scope_id =
    let full_key = make_key key scope scope_id in
    (record p { entries = erase p.entries full_key }, is_some (get p.entries full_key))

-- all entries, bucket by bucket
abbrev pub all_entries : List (List MemoryEntry) → List MemoryEntry
all_entries [] = []
all_entries (bucket ∷ buckets) = bucket ++ all_entries buckets

-- `contains query content`: the lowered query is in the lowered content
unfoldable pub search :
    (contains : Text → Text → Bool)
    → Provider
    → Text
    → MemoryScope
    → Text
    → ℕ
    → Time
    → Provider × List MemoryEntry
search contains p query scope scope_id limit now =
    let purged = purge_expired p (scope_prefix scope scope_id) now in
    (
      purged,
      take (max limit 1) (
          filter
            (λ (e : MemoryEntry).
              scope_text e.scope == scope_text scope
              && (is_empty scope_id || e.scope_id == scope_id)
              && contains query e.content)
            (all_entries (values purged.entries))),
    )

-- the buckets whose key has the prefix
abbrev pub buckets_of : Text → Dict Text (List MemoryEntry) → List MemoryEntry
buckets_of prefix [] = []
buckets_of prefix ((bucket_key, bucket) ∷ d) =
    let rest = buckets_of prefix d in if starts_with prefix bucket_key then bucket ++ rest else rest

-- `sorted(…, key=lambda e: e.created_at)`, which is stable
abbrev pub insert_by_age : MemoryEntry → List MemoryEntry → List MemoryEntry
insert_by_age e [] = e ∷ []
insert_by_age e (f ∷ es) =
    let rest = insert_by_age e es in if leb e.created_at f.created_at then e ∷ f ∷ es else f ∷ rest

abbrev pub by_age : List MemoryEntry → List MemoryEntry
by_age [] = []
by_age (e ∷ es) = insert_by_age e (by_age es)

abbrev pub has_id : Text → List MemoryEntry → Bool
has_id entry_id es = any (λ (e : MemoryEntry). e.entry_id == entry_id) es

unfoldable pub evict : Option ℕ → Text → Dict Text (List MemoryEntry) → Dict Text (List MemoryEntry)
evict none prefix d = d
evict (some effective_max) prefix d =
    let bucket = by_age (buckets_of prefix d) in
    let excess = length bucket - effective_max in
    if excess == 0
    then d
    else keep_where prefix (λ (e : MemoryEntry). not (has_id e.entry_id (take excess bucket))) d

-- `value if value is not None else default`
abbrev pub or_own : Option ℕ → Option ℕ → Option ℕ
or_own none own = own
or_own (some n) own = some n

unfoldable pub enforce : Provider → MemoryScope → Text → Option ℕ → Option ℕ → Time → Provider
enforce p scope scope_id max_entries retention_days now =
    let prefix = scope_prefix scope scope_id in
    let purged = purge (or_own retention_days p.retention_days) prefix now p.entries in
    record p { entries = evict (or_own max_entries p.max_entries) prefix purged }
