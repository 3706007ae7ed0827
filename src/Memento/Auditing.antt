-- ===== src/Memento/Auditing.antt =====
-- synckit/memento.go: `AuditableResolver` around a resolver. What the code takes from the context, from
-- the clock and from the formatting of types, versions and errors is an argument; the logger is nil.
use Prim.Native.String.{◌++◌ as str_append}
use go_sync_kit.Base.{ℕ, ◌-◌, String, Option, none, some, List, [], ◌∷◌, true, false}
use go_sync_kit.Base.Dict.{Dict, insert}
use go_sync_kit.Types.{
  Conflict, EventWithVersion, ResolvedConflict, Version, text, absent, Result, ok, err,
}
use go_sync_kit.Workflow.{flag}
use go_sync_kit.Memento.{ConflictState, ResolutionMemento, Codec, save}

-- How things are written, and the name of the wrapped resolver's type.
pub record Wording (E : Type 0) : Type 0 where
  pub version_text : Version → String
  pub error_text : E → String
  pub number_text : ℕ → String
  pub resolver_type : String

-- What the extractors give for the context of one call (empty where there is none), and the readings
-- of the clock.
pub record AuditCall : Type 0 where
  pub user_id : String
  pub session_id : String
  pub origin : String
  pub started_at : ℕ
  pub resolved_at : ℕ
  pub id_time : ℕ
  pub timestamp : ℕ

-- `generateMementoID`.
abbrev pub generate_memento_id : (ℕ → String) → ℕ → String
generate_memento_id number_text now = str_append "memento_" (number_text now)

module _ {E : Type 0} (wording : Wording E) where
  unfoldable pub before_state : Conflict → ConflictState
  before_state c = record {
    aggregate_id = c.aggregate_id;
    event_type = c.event_type;
    local_version = wording.version_text c.local.version;
    remote_version = wording.version_text c.remote.version;
    local_data = c.local.event.payload;
    remote_data = c.remote.event.payload;
    resolved_data = absent;
    metadata = c.metadata;
  }

  -- The state after, from the first resolved event.
  unfoldable pub after_state : Conflict → List EventWithVersion → Option ConflictState
  after_state c [] = none
  after_state c (first ∷ rest) = some (record {
    aggregate_id = c.aggregate_id;
    event_type = "";
    local_version = wording.version_text c.local.version;
    remote_version = wording.version_text c.remote.version;
    local_data = absent;
    remote_data = absent;
    resolved_data = first.event.payload;
    metadata = c.metadata;
  })

  -- The memento before its outcome is known.
  unfoldable pub pending : AuditCall → Conflict → ResolutionMemento
  unfolding before_state
  pending call c = record {
    id = generate_memento_id wording.number_text call.id_time;
    timestamp = call.timestamp;
    event_type = c.event_type;
    aggregate_id = c.aggregate_id;
    changed_fields = c.changed_fields;
    metadata = c.metadata;
    decision = "";
    reasons = [];
    resolver_name = wording.resolver_type;
    rule_name = "";
    group_name = "";
    context = [];
    user_id = call.user_id;
    session_id = call.session_id;
    origin = call.origin;
    resolution_duration = call.resolved_at - call.started_at;
    before_state = some (before_state c);
    after_state = none;
    original_conflict = some c;
    resolved_conflict = none;
  }

  unfoldable pub with_outcome :
      Conflict → Result E ResolvedConflict → ResolutionMemento → ResolutionMemento
  unfolding after_state
  with_outcome c (err e) m = record m {
    context =
        insert "success" (flag false) (insert "error" (text (wording.error_text e)) m.context);
  }
  with_outcome c (ok r) m = record m {
    resolved_conflict = some r;
    decision = r.decision;
    reasons = r.reasons;
    context = insert "success" (flag true) m.context;
    after_state = after_state c r.resolved_events;
  }

  unfoldable pub memento_of : AuditCall → Conflict → Result E ResolvedConflict → ResolutionMemento
  unfolding pending with_outcome
  memento_of call c r = with_outcome c r (pending call c)

  -- `Resolve`; that the memento cannot be saved changes nothing else.
  unfoldable pub resolve :
      {Raw : Type 0}
      → Codec Raw
      → AuditCall
      → (Conflict → Result E ResolvedConflict)
      → Conflict
      → Dict ResolutionMemento
      → Dict ResolutionMemento × Result E ResolvedConflict
  unfolding memento_of
  resolve json call wrapped c mementos =
      let r = wrapped c in ((save json (memento_of call c r) mementos).0, r)
