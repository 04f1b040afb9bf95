-- ===== src/Session/Saves.antt =====
-- `save` of the durable sessions: no update is lost.
use open_simple_agent.Base.Dict
use open_simple_agent.Base.Dict.{put, erase, get-put, get-put_self, get-erase}
use open_simple_agent.Base.Result.{raised, returned}
use open_simple_agent.Session.Durable
use open_simple_agent.Session.Durable.{
  HistoryJson, SessionRow, Rows, DurableError, concurrent_save, load, load_row, save, save_row,
  saved_row, create, delete_raw, session_from_row,
}
use open_simple_agent.Base.{
  Bool, Bool-cases, Option, arith, eqb_iff, false, inl, inr, leb, none, refl, some, true, ℕ, ◌≡◌,
}
use open_simple_agent.Base.Clock.{Time}
use open_simple_agent.Base.Dict.{Dict}
use open_simple_agent.Base.Same.{nat_eq, option_eq, pair_eq, ◌==◌}
use open_simple_agent.Base.Text.{Text, text_eq, text_same_iff}
use open_simple_agent.Session.{Caller, Session}
use open_simple_agent.Base.{List, Option-cases, ap, sym, ◌+◌, ◌≤◌}
use open_simple_agent.Base.Result.{returned_inj}
use open_simple_agent.Session.{Message}

-- One statement of any worker. A new session has an identifier of its own, which is not `k`.
pub data Step (W : HistoryJson) (k : Text) (rows : Rows W.Json) : Rows W.Json → Type 0 where
  creates :
      (session_id : Text) (c : Caller) (ttl : Option ℕ) (bound : ℕ) (now : Time)
      → (session_id == k) ≡ false
      → Step W k rows (Durable.create W rows session_id c ttl bound now).0
  saves : (s : Session) (now : Time) → Step W k rows (Durable.save W rows s now).0
  deletes : (session_id : Text) → Step W k rows (delete_raw W rows session_id).0

pub data Reach (W : HistoryJson) (k : Text) (rows : Rows W.Json) : Rows W.Json → Type 0 where
  at_start : Reach W k rows rows
  after : {q r : Rows W.Json} → Reach W k rows q → Step W k q r → Reach W k rows r

module _ (W : HistoryJson) where
  -- a row of at least this revision, if there is one
  abbrev pub is_ahead : ℕ → Option (SessionRow W.Json) → Bool
  is_ahead n none = true
  is_ahead n (some row) = leb n row.revision

  save_row-is_ahead :
      (rows : Rows W.Json) (k : Text) (s : Session) (n : ℕ) (found : Option (SessionRow W.Json))
      → Dict.get rows s.session_id ≡ found
      → is_ahead n (Dict.get rows k) ≡ true
      → is_ahead n (Dict.get (save_row W rows s found).0 k) ≡ true
  unfolding save_row saved_row
  save_row-is_ahead rows k s n none e h = h
  save_row-is_ahead rows k s n (some row) e h = elim (Bool-cases (row.revision == s.revision)) [
    | inr other ↦ rw other h
    | inl same ↦ elim (Bool-cases (s.session_id == k)) [
      | inr elsewhere ↦ rw (same, get-put rows s.session_id k (saved_row W row s), elsewhere) h
      | inl here ↦
          let one : s.session_id ≡ k = (text_same_iff s.session_id k).0 here in
          let known : Dict.get rows k ≡ some row = rw (← one) e in
          let old : is_ahead n (some row) ≡ true = rw known at h in
          rw (same, get-put rows s.session_id k (saved_row W row s), here)
            (ground (arith, old, same, eqb_iff row.revision s.revision))
    ]
  ]

  Step-is_ahead :
      {p q : Rows W.Json} (k : Text) (n : ℕ)
      → Step W k p q
      → is_ahead n (Dict.get p k) ≡ true
      → is_ahead n (Dict.get q k) ≡ true
  unfolding Durable.create Durable.save delete_raw
  Step-is_ahead {p} k n (creates session_id c ttl bound now other) h =
      rw (get-put p session_id k _, other) h
  Step-is_ahead {p} k n (saves s now) h =
      save_row-is_ahead p k (record s { last_active_at = now }) n (Dict.get p s.session_id) refl h
  Step-is_ahead {p} k n (deletes session_id) h = rw (get-erase p session_id k) (ground (arith, h))

  Reach-is_ahead :
      (k : Text) (n : ℕ) {p q : Rows W.Json}
      → Reach W k p q
      → is_ahead n (Dict.get p k) ≡ true
      → is_ahead n (Dict.get q k) ≡ true
  Reach-is_ahead k n at_start h = h
  Reach-is_ahead k n (after r st) h = Step-is_ahead k n st (Reach-is_ahead k n r h)

  -- a save is refused where the row is absent or has another revision
  refused_save :
      (rows : Rows W.Json) (s : Session) (found : Option (SessionRow W.Json))
      → is_ahead (s.revision + 1) found ≡ true
      → save_row W rows s found ≡ (rows, raised (concurrent_save s.session_id))
  unfolding save_row
  refused_save rows s none h = refl
  refused_save rows s (some row) h = elim (Bool-cases (row.revision == s.revision)) [
    | inr other ↦ rw other refl
    | inl same ↦ absurd (ground (arith, h, eqb_iff row.revision s.revision))
  ]

  -- A save that is accepted writes the next revision.
  accepted_save :
      (rows rows' : Rows W.Json) (s s' : Session) (now : Time)
      → save W rows s now ≡ (rows', returned s')
      → (row : SessionRow W.Json) × (Dict.get rows s.session_id ≡ some row)
        × ((row.revision == s.revision) ≡ true)
        × (Dict.get rows' s.session_id ≡ some (saved_row W row (record s { last_active_at = now })))
        × (s' ≡ record s { last_active_at = now; revision = s.revision + 1 })
  unfolding save save_row
  accepted_save rows rows' s s' now h = elim (Option-cases (Dict.get rows s.session_id)) [
    | inl gone ↦ absurd (cc (rw gone at h))
    | inr (row, known) ↦ elim (Bool-cases (row.revision == s.revision)) [
      | inr other ↦ absurd (cc (rw (known, other) at h))
      | inl same ↦
          let pair = rw (known, same) at h in
          (
            row,
            known,
            same,
            rw (← ap (λ x. x.0) pair) (get-put_self rows s.session_id _),
            sym (returned_inj (ap (λ x. x.1) pair)),
          )
    ]
  ]

  -- Of two copies of a session with one revision, at most one is saved: after a save that was
  -- accepted, and whatever calls of any workers follow it, a save of a copy that is not newer than
  -- the saved one is refused and changes nothing.
  pub stale_save :
      (rows rows' : Rows W.Json) (s s' copy : Session) (now later : Time)
      → save W rows s now ≡ (rows', returned s')
      → {rows'' : Rows W.Json} → Reach W s.session_id rows' rows''
      → copy.session_id ≡ s.session_id
      → copy.revision ≤ s.revision
      → save W rows'' copy later ≡ (rows'', raised (concurrent_save s.session_id))
  unfolding save saved_row
  stale_save rows rows' s s' copy now later accepted {rows''} r same older =
      let (row, _, _, written, _) = accepted_save rows rows' s s' now accepted in
      let first : is_ahead (copy.revision + 1) (Dict.get rows' s.session_id) ≡ true =
        rw written (ground (arith, older)) in
      let last = Reach-is_ahead s.session_id (copy.revision + 1) r first in
      rw (← same) (
        refused_save rows'' (record copy { last_active_at = later })
          (Dict.get rows'' copy.session_id) (rw same last))

  -- What an accepted save returns is what a load then finds, for a copy of the row that differs from
  -- it only in its history.
  pub load-save :
      (rows rows' : Rows W.Json) (s s' : Session) (history : List Message) (now : Time)
      → load W rows s.session_id ≡ some s
      → save W rows (record s { conversation_history = history }) now ≡ (rows', returned s')
      → load W rows' s.session_id ≡ some s'
  unfolding load saved_row session_from_row
  load-save rows rows' s s' history now loaded accepted =
      let (row, known, _, written, out) =
        accepted_save rows rows' (record s { conversation_history = history }) s' now accepted in
      let found : ◌≡◌ {A = Option Session} (some (session_from_row W s.session_id row)) (some s) =
        rw known at loaded in
      let same : session_from_row W s.session_id row ≡ s = cc in
      let written_over : Session → Session = λ t. record t {
        last_active_at = now;
        conversation_history = history;
        revision = s.revision + 1;
      } in
      rw (written, out, W.load-dump history) (ap (λ t. some (written_over t)) same)
