-- ===== src/Manager/Conflicts.antt =====
-- synckit/manager.go, `detectConflicts`, `detectChangedFields` and `findLatestVersion`.
pub mod Detection
use Prim.Native.String.{◌++◌ as concat}
use go_sync_kit.Base.{
  ℕ, String, Option, none, some, List, [], ◌∷◌, ◌++◌, Bool, true, false, not, if◌then◌else◌, str_eq,
}
use go_sync_kit.Base.Int.{ℤ, is_zero, is_positive}
use go_sync_kit.Base.Dict.{Dict, lookup, insert}
use go_sync_kit.Types.{
  Value, text, number, Payload, absent, bytes, formatted, Event, EventWithVersion, Version,
  Conflict,
}
use go_sync_kit.Manager.{Methods}

-- `AggregateID() + ":" + Type()`.
unfoldable pub key_of : Event → String
key_of e = concat (concat e.aggregate_id ":") e.kind

abbrev pub or_no_events : Option (List EventWithVersion) → List EventWithVersion
or_no_events none = []
or_no_events (some evs) = evs

-- `localByKey`, filled in the order of the local events.
unfoldable pub index_by_key :
    List EventWithVersion → Dict (List EventWithVersion) → Dict (List EventWithVersion)
index_by_key [] m = m
index_by_key (ev ∷ rest) m =
    index_by_key rest
      (insert (key_of ev.event) (or_no_events (lookup (key_of ev.event) m) ++ ev ∷ []) m)

-- `findLatestVersion`: the first of the versions to which no later one is greater.
pub latest_from : (Version → Version → ℤ) → Version → List EventWithVersion → Version
latest_from compare latest [] = latest
latest_from compare latest (ev ∷ rest) =
    latest_from compare (if is_positive (compare ev.version latest) then ev.version else latest)
      rest

pub find_latest_version : (Version → Version → ℤ) → List EventWithVersion → Option Version
unfolding latest_from
find_latest_version compare [] = none
find_latest_version compare (ev ∷ rest) = some (latest_from compare ev.version rest)

-- Copy one entry of an event's metadata under a new key, if it is there.
abbrev pub copy_entry : String → String → Option (Dict Value) → Dict Value → Dict Value
copy_entry key target none m = m
copy_entry key target (some source) m = elim (lookup key source) [
  | none ↦ m
  | some v ↦ insert target v m
]

module _ (methods : Methods) where
  both_shown : String → String → List String
  both_shown a b = if str_eq a b then [] else "data" ∷ []

  pub detect_changed_fields : Payload → Payload → List String
  unfolding both_shown
  detect_changed_fields absent absent = []
  detect_changed_fields absent (bytes b) = "data" ∷ []
  detect_changed_fields absent (formatted b) = "data" ∷ []
  detect_changed_fields (bytes b) absent = "data" ∷ []
  detect_changed_fields (formatted b) absent = "data" ∷ []
  detect_changed_fields local remote =
      both_shown (methods.show_payload local) (methods.show_payload remote)

  pub conflict_metadata : EventWithVersion → EventWithVersion → Dict Value
  conflict_metadata local remote = copy_entry "timestamp" "remote_timestamp" remote.event.metadata (
      copy_entry "origin" "remote_origin" remote.event.metadata (
        copy_entry "timestamp" "local_timestamp" local.event.metadata (
          copy_entry "origin" "local_origin" local.event.metadata (
            insert "version_comparison" (number (methods.compare local.version remote.version)) (
              insert "remote_version" (text (methods.show_version remote.version))
                (insert "local_version" (text (methods.show_version local.version)) []))))))

  -- The conflict that is reported for a pair of events.
  pub conflict_of : EventWithVersion → EventWithVersion → Conflict
  conflict_of local remote = record {
    event_type = remote.event.kind;
    aggregate_id = remote.event.aggregate_id;
    changed_fields = detect_changed_fields local.event.payload remote.event.payload;
    metadata = some (conflict_metadata local remote);
    local = local;
    remote = remote;
  }

  -- `local.Version.Compare(remote.Version) != 0`.
  unfoldable pub versions_differ : EventWithVersion → EventWithVersion → Bool
  versions_differ local remote = not (is_zero (methods.compare local.version remote.version))

  -- The inner loop, over the local events with the remote event's key.
  unfoldable pub conflicts_with : EventWithVersion → List EventWithVersion → List Conflict
  conflicts_with remote [] = []
  conflicts_with remote (local ∷ rest) =
      let later = conflicts_with remote rest in
      if versions_differ local remote then conflict_of local remote ∷ later else later

  -- The outer loop, over the remote events.
  unfoldable pub scan_remote : Dict (List EventWithVersion) → List EventWithVersion → List Conflict
  scan_remote by_key [] = []
  scan_remote by_key (remote ∷ rest) =
      conflicts_with remote (or_no_events (lookup (key_of remote.event) by_key))
      ++ scan_remote by_key rest

  unfoldable pub detect_conflicts : List EventWithVersion → List EventWithVersion → List Conflict
  unfolding index_by_key scan_remote
  detect_conflicts local remote = scan_remote (index_by_key local []) remote
