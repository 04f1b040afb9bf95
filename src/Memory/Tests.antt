-- ===== src/Memory/Tests.antt =====
-- Concrete runs of the memory provider, and the theorems at concrete inputs.
use open_simple_agent.Base.Dict.{get, put}
use open_simple_agent.Memory.{MemoryEntry, user}
use open_simple_agent.Memory.Provider.{Provider, store, load, make_key, purge, purge_expired}
use open_simple_agent.Base.{[], none, refl, ◌++◌, ◌∷◌, ◌≡◌}
use open_simple_agent.Base.Same.{nat_eq, option_eq, pair_eq}
use open_simple_agent.Base.Text.{text, text_eq, text_same}
use open_simple_agent.Memory.Entries.{make_key_ambiguous}

abbrev note : MemoryEntry
note = record {
  key = text "b:c";
  content = text "hi";
  scope = user;
  scope_id = text "a";
  entry_id = text "1";
  created_at = 0;
  updated_at = 0;
}

abbrev nothing_stored : Provider
nothing_stored = record { entries = []; max_entries = none; retention_days = none }

note_leaks : (load (store nothing_stored note) (text "c") user (text "a:b") 5).1 ≡ note ∷ []
unfolding load store make_key purge purge_expired get put text_same
note_leaks = refl

make_key_ambiguous_example :
    (load (store nothing_stored note) (text "c") user (text "a:b") 5).1
    ≡ (load nothing_stored (text "c") user (text "a:b") 5).1 ++ (note ∷ [])
make_key_ambiguous_example =
    make_key_ambiguous nothing_stored note (text "b") (text "c") 5 refl refl
