-- ===== src/Session/Tests.antt =====
-- Concrete runs of the session provider, and the theorems at concrete inputs.
use open_simple_agent.Base.Dict.{get, put}
use open_simple_agent.Session.Durable
use open_simple_agent.Session.Durable.{
  HistoryJson, Rows, parameters, save_row, saved_row, session_from_row, concurrent_save,
}
use open_simple_agent.Session.Saves
use open_simple_agent.Session.Saves.{stale_save, load-save}
use open_simple_agent.Base.Dict.{get, put}
use open_simple_agent.Session.Manager.{create, resolve, delete}
use Prim.Native.String.{String}
use open_simple_agent.Base.{List, [], arith, false, none, refl, some, true, ◌++◌, ◌∷◌, ◌≡◌, ◌≤◌}
use open_simple_agent.Base.Clock.{Time}
use open_simple_agent.Base.Dict.{IsUnique}
use open_simple_agent.Base.Lists.{length}
use open_simple_agent.Base.Result.{raised, returned}
use open_simple_agent.Base.Text.{text, text_same, text_same_iff}
use open_simple_agent.Session.{
  Caller, Message, Session, add_message, is_expired, matches_owner, session_access_denied,
}
use open_simple_agent.Session.History.{add_messages, bounded_history, last, messages}
use open_simple_agent.Session.Isolation.{
  Call, Holds, creates, deletes, foreign_calls_harmless, purges, resolves, run_all,
}
use open_simple_agent.Session.Manager.{Manager}
use open_simple_agent.Session.Ownership.{IsOwner, resolve_owner, resolve_returns}
use open_simple_agent.Base.Same.{nat_eq, option_eq, pair_eq}
use open_simple_agent.Base.Text.{text_eq}
use open_simple_agent.Session.Durable.{load}

abbrev ann : Caller
ann = record { agent_name = text "helper"; user_id = some (text "ann"); tenant_id = none }

abbrev bob : Caller
bob = record { agent_name = text "helper"; user_id = some (text "bob"); tenant_id = none }

-- a session of one hour, with room for two messages
abbrev anns : Session
anns = record {
  session_id = text "s1";
  agent_name = text "helper";
  user_id = some (text "ann");
  tenant_id = none;
  created_at = 0;
  last_active_at = 0;
  ttl_seconds = some 3600;
  max_history_messages = 2;
  conversation_history = [];
  revision = 0;
}

abbrev store : Manager
store = (text "s1", anns) ∷ []

created : create [] (text "s1") ann (some 3600) 2 0 ≡ (store, anns)
unfolding create put
created = refl

abbrev say : String → Message
say s = record { role = text "user"; content = text s }

abbrev three : List (Message × Time)
three = (say "a", 1) ∷ (say "b", 2) ∷ (say "c", 3) ∷ []

third_drops_first : (add_messages anns three).conversation_history ≡ say "b" ∷ say "c" ∷ []
unfolding add_messages add_message
third_drops_first = refl

bounded_history_example :
    ((add_messages anns three).conversation_history ≡ last 2 ([] ++ messages three))
    × (length (add_messages anns three).conversation_history ≤ 2)
bounded_history_example = bounded_history anns three (omega arith)

found_by_ann : (resolve store (text "s1") ann 5).1 ≡ returned anns
unfolding resolve get text_same is_expired matches_owner
found_by_ann = refl

refused_to_bob : (resolve store (text "s1") bob 5).1 ≡ raised (session_access_denied (text "s1"))
unfolding resolve get text_same is_expired matches_owner
refused_to_bob = refl

stored : get store (text "s1") ≡ some anns
unfolding get text_same
stored = refl

live : is_expired anns 5 ≡ false
unfolding is_expired
live = refl

old : is_expired anns 3600000000 ≡ true
unfolding is_expired
old = refl

anns-IsOwner : IsOwner anns ann
anns-IsOwner = record { agent = refl; user = refl; tenant = refl }

resolve_returns_example :
    (get store (text "s1") ≡ some anns)
    × (is_expired anns 5 ≡ false)
    × IsOwner anns ann
    × ((resolve store (text "s1") ann 5).0 ≡ store)
resolve_returns_example = resolve_returns store (text "s1") ann 5 {s = anns} found_by_ann

resolve_owner_example : resolve store (text "s1") ann 5 ≡ (store, returned anns)
resolve_owner_example = resolve_owner store (text "s1") ann 5 stored live anns-IsOwner

deleted_by_ann : (delete store (text "s1") ann).1 ≡ returned true
unfolding delete get text_same matches_owner
deleted_by_ann = refl

store-IsUnique : IsUnique store
unfolding get
store-IsUnique = (refl, tt)

abbrev attacks : List (Call × Time)
attacks =
    (resolves (text "s1") bob, 5)
    ∷ (deletes (text "s1") bob, 5)
    ∷ (creates (text "s2") bob none 20, 5)
    ∷ (purges, 5)
    ∷ []

foreign_calls_harmless_example : Holds (run_all store attacks) anns
unfolding is_expired matches_owner text_same
foreign_calls_harmless_example =
    foreign_calls_harmless store anns attacks (store-IsUnique, stored)
      (
        (tt, refl),
        (
          (refl, refl),
          (
            ((λ e. absurd (ground (arith, text_same_iff (text "s2") (text "s1")))), refl),
            ((tt, refl), tt),
          ),
        ),
      )

-- a history as its own JSON
abbrev kept : HistoryJson
kept = record {
  Json = List Message;
  dump = λ history. history;
  load = λ history. history;
  load-dump = λ history. refl;
}

abbrev chat : Session
chat = record {
  session_id = text "s1";
  agent_name = text "echo";
  user_id = none;
  tenant_id = none;
  created_at = 1;
  last_active_at = 1;
  ttl_seconds = none;
  max_history_messages = 20;
  conversation_history = [];
  revision = 0;
}

abbrev stored_chat : Rows (List Message)
stored_chat = (text "s1", parameters kept chat) ∷ []

abbrev saved_chat : Session
saved_chat = record chat { last_active_at = 5; revision = 1 }

abbrev stored_again : Rows (List Message)
stored_again = (text "s1", parameters kept saved_chat) ∷ []

chat_saved : Durable.save kept stored_chat chat 5 ≡ (stored_again, returned saved_chat)
unfolding Durable.save save_row saved_row parameters get put text_same
chat_saved = refl

chat_loaded : Durable.load kept stored_chat (text "s1") ≡ some chat
unfolding Durable.load session_from_row parameters get text_same
chat_loaded = refl

stale_save_example :
    Durable.save kept stored_again chat 6 ≡ (stored_again, raised (concurrent_save (text "s1")))
stale_save_example =
    stale_save kept stored_chat stored_again chat saved_chat chat 5 6 chat_saved Saves.at_start refl
      (omega arith)

load-save_example : Durable.load kept stored_again (text "s1") ≡ some saved_chat
load-save_example =
    load-save kept stored_chat stored_again chat saved_chat [] 5 chat_loaded chat_saved
