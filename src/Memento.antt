-- ===== src/Memento.antt =====
-- synckit/memento.go: the caretaker that keeps mementos of resolutions in memory. `encoding/json` is a
-- parameter, by what it makes of a memento and of its encoding. The order of Go's map is that of the
-- association list.
pub mod Auditing
pub mod Trails
pub mod Kept
pub mod Rollbacks
pub mod Undoing
mod Tests
use go_sync_kit.Base.{
  ℕ, String, Option, none, some, List, [], ◌∷◌, Bool, true, false, not, ltb, ◌&&◌, str_eq,
  if◌then◌else◌, length, take, drop,
}
use go_sync_kit.Base.Dict.{Dict, insert, erase, lookup}
use go_sync_kit.Base.Int.{ℤ, pos, negsuc}
use go_sync_kit.Types.{Conflict, ResolvedConflict, Payload, Value, Result, ok, err}

pub record ConflictState : Type 0 where
  pub aggregate_id : String
  pub event_type : String
  pub local_version : String
  pub remote_version : String
  pub local_data : Payload
  pub remote_data : Payload
  pub resolved_data : Payload
  pub metadata : Option (Dict Value)

-- `ResolutionMemento`; the last two fields are `none` where they are zero.
pub record ResolutionMemento : Type 0 where
  pub id : String
  pub timestamp : ℕ
  pub event_type : String
  pub aggregate_id : String
  pub changed_fields : List String
  pub metadata : Option (Dict Value)
  pub decision : String
  pub reasons : List String
  pub resolver_name : String
  pub rule_name : String
  pub group_name : String
  pub context : Dict Value
  pub user_id : String
  pub session_id : String
  pub origin : String
  pub resolution_duration : ℕ
  pub before_state : Option ConflictState
  pub after_state : Option ConflictState
  pub original_conflict : Option Conflict
  pub resolved_conflict : Option ResolvedConflict

pub data MementoError : Type 0 where
  empty_id marshal_failed unmarshal_failed : MementoError
  not_found : String → MementoError

-- `json.Marshal` and `json.Unmarshal` of a memento; `none` is an error.
pub record Codec (Raw : Type 0) : Type 0 where
  pub marshal : ResolutionMemento → Option Raw
  pub unmarshal : Raw → Option ResolutionMemento

-- `MementoCriteria`, whose times may be nil.
pub record MementoCriteria : Type 0 where
  pub aggregate_id : String
  pub user_id : String
  pub resolver_name : String
  pub group_name : String
  pub from_time : Option ℕ
  pub to_time : Option ℕ
  pub limit : ℤ
  pub offset : ℤ

-- `criteria.F != "" && memento.F != criteria.F` does not hold.
abbrev pub accepts_text : String → String → Bool
accepts_text wanted value = if str_eq wanted "" then true else str_eq value wanted

abbrev pub not_before : ℕ → Option ℕ → Bool
not_before time none = true
not_before time (some earliest) = not (ltb time earliest)

abbrev pub not_after : ℕ → Option ℕ → Bool
not_after time none = true
not_after time (some latest) = not (ltb latest time)

-- `matchesCriteria`.
unfoldable pub matches_criteria : ResolutionMemento → Option MementoCriteria → Bool
matches_criteria m none = true
matches_criteria m (some k) =
    accepts_text k.aggregate_id m.aggregate_id
    && accepts_text k.user_id m.user_id
    && accepts_text k.resolver_name m.resolver_name
    && accepts_text k.group_name m.group_name
    && not_before m.timestamp k.from_time
    && not_after m.timestamp k.to_time

abbrev pub unmarshalled : Option ResolutionMemento → Result MementoError ResolutionMemento
unmarshalled none = err unmarshal_failed
unmarshalled (some copy) = ok copy

abbrev pub stored :
    String
    → Result MementoError ResolutionMemento
    → Dict ResolutionMemento
    → Dict ResolutionMemento × Option MementoError
stored id (err e) mementos = (mementos, some e)
stored id (ok copy) mementos = (insert id copy mementos, none)

abbrev pub cons_copy :
    Result MementoError ResolutionMemento → List ResolutionMemento → List ResolutionMemento
cons_copy (err e) later = later
cons_copy (ok copy) later = copy ∷ later

abbrev pub offset_by : ℤ → List ResolutionMemento → List ResolutionMemento
offset_by (negsuc n) results = results
offset_by (pos n) results = if ltb 0 n && ltb n (length results) then drop n results else results

abbrev pub limited_to : ℤ → List ResolutionMemento → List ResolutionMemento
limited_to (negsuc n) results = results
limited_to (pos n) results = if ltb 0 n && ltb n (length results) then take n results else results

abbrev pub paged : Option MementoCriteria → List ResolutionMemento → List ResolutionMemento
paged none results = results
paged (some k) results = limited_to k.limit (offset_by k.offset results)

abbrev pub of_aggregate : String → MementoCriteria
of_aggregate id = record {
  aggregate_id = id;
  user_id = "";
  resolver_name = "";
  group_name = "";
  from_time = none;
  to_time = none;
  limit = pos 0;
  offset = pos 0;
}

module _ {Raw : Type 0} (json : Codec Raw) where
  -- The copy that the operations make by encoding and decoding.
  unfoldable pub deep_copy : ResolutionMemento → Result MementoError ResolutionMemento
  deep_copy m = elim (json.marshal m) [
    | none ↦ err marshal_failed
    | some raw ↦ unmarshalled (json.unmarshal raw)
  ]

  -- `Save`.
  unfoldable pub save :
      ResolutionMemento → Dict ResolutionMemento → Dict ResolutionMemento × Option MementoError
  save m mementos =
      if str_eq m.id "" then (mementos, some empty_id) else stored m.id (deep_copy m) mementos

  -- `Get`.
  unfoldable pub get : String → Dict ResolutionMemento → Result MementoError ResolutionMemento
  get id mementos = elim (lookup id mementos) [ none ↦ err (not_found id) | some m ↦ deep_copy m ]

  -- The loop of `List`.
  unfoldable pub select : Option MementoCriteria → Dict ResolutionMemento → List ResolutionMemento
  select criteria [] = []
  select criteria ((id, m) ∷ rest) =
      let later = select criteria rest in
      if matches_criteria m criteria then cons_copy (deep_copy m) later else later

  -- `List`.
  unfoldable pub list : Option MementoCriteria → Dict ResolutionMemento → List ResolutionMemento
  list criteria mementos = paged criteria (select criteria mementos)

  -- `GetAuditTrail`.
  unfoldable pub get_audit_trail : String → Dict ResolutionMemento → List ResolutionMemento
  get_audit_trail aggregate_id mementos = list (some (of_aggregate aggregate_id)) mementos

-- `Delete`.
unfoldable pub delete :
    String → Dict ResolutionMemento → Dict ResolutionMemento × Option MementoError
delete id mementos = elim (lookup id mementos) [
  | none ↦ (mementos, some (not_found id))
  | some m ↦ (erase id mementos, none)
]
