-- ===== src/Memento/Tests.antt =====
-- synckit/memento.go: two resolutions of one aggregate, with an encoding that drops what is not encoded.
use mathlib.Core.List.{Memᴰ}
use go_sync_kit.Base.{
  ℕ, ◌<◌, String, none, some, [], ◌∷◌, Bool, true, ◌≡◌, ◌≢◌, ◌↔◌, refl, arith, length, take, eq_iff,
  ◌≤◌, drop,
}
use go_sync_kit.Base.Int.{pos}
use go_sync_kit.Base.Dict.{Dict, lookup}
use go_sync_kit.Types.{
  Conflict, EventWithVersion, ResolvedConflict, integer, absent, Result, ok, err,
}
use go_sync_kit.Memento.{
  ResolutionMemento, Codec, MementoCriteria, deep_copy, get, list, select, get_audit_trail,
  matches_criteria, of_aggregate,
}
use go_sync_kit.Memento.Auditing.{Wording, AuditCall, resolve, memento_of}
use go_sync_kit.Memento.Rollbacks.{RollbackAnalysis, analyze_rollback}
use go_sync_kit.Memento.Kept.{saved, change_all, IsInTrail, audit_trail_iff, list_page}
use go_sync_kit.Memento.Undoing.{Tells, resolve_is_audited, analyze_rollback_lem}

-- The fields tagged `json:"-"` are lost.
abbrev encoded : ResolutionMemento → ResolutionMemento
encoded m = record m { original_conflict = none; resolved_conflict = none }

abbrev json : Codec ResolutionMemento
json = record { marshal = λ m. some (encoded m); unmarshal = λ r. some r }

abbrev named : String → ℕ → ResolutionMemento
named id time = record {
  id = id;
  timestamp = time;
  event_type = "order";
  aggregate_id = "a";
  changed_fields = [];
  metadata = none;
  decision = "kept";
  reasons = [];
  resolver_name = "r";
  rule_name = "";
  group_name = "";
  context = [];
  user_id = "";
  session_id = "";
  origin = "";
  resolution_duration = 0;
  before_state = none;
  after_state = none;
  original_conflict = none;
  resolved_conflict = none;
}

abbrev two : Dict ResolutionMemento
two = ("m1", named "m1" 1) ∷ ("m2", named "m2" 2) ∷ []

m3_named : (named "m3" 3).id ≢ ""
m3_named h = absurd (ground (arith, h, eq_iff "m3" ""))

m3_copied : deep_copy json (named "m3" 3) ≡ ok (named "m3" 3)
unfolding deep_copy
m3_copied = refl

abbrev second_page : MementoCriteria
second_page = record (of_aggregate "a") { offset = pos 2; limit = pos 2 }

list_page_example :
    (2 < length (select json (some second_page) two)
      → list json (some second_page) two ≡ take 2 (drop 2 (select json (some second_page) two)))
    × (length (select json (some second_page) two) ≤ 2
        → list json (some second_page) two ≡ take 2 (select json (some second_page) two))
list_page_example = list_page json second_page 2 1 two refl refl

-- The page after the last is the first again.
second_page_is_first : list json (some second_page) two ≡ named "m1" 1 ∷ named "m2" 2 ∷ []
unfolding list select matches_criteria deep_copy
second_page_is_first = refl

m1_found : get json "m1" two ≡ ok (named "m1" 1)
unfolding get lookup deep_copy
m1_found = refl

rollback_of_first :
    (a : RollbackAnalysis) × (analyze_rollback json "m1" two ≡ ok a)
    × (a.target_memento ≡ named "m1" 1)
    × ((x : ResolutionMemento)
        → Memᴰ x a.affected_resolutions
          ↔ (Memᴰ x (get_audit_trail json "a" two) × (1 < x.timestamp)))
    × ((a.requires_reprocessing ≡ true) ↔ (a.rollback_complexity ≢ "simple"))
rollback_of_first = analyze_rollback_lem json "m1" two (named "m1" 1) m1_found

abbrev wording : Wording Bool
wording = record {
  version_text = λ v. "1";
  error_text = λ e. "failed";
  number_text = λ n. "7";
  resolver_type = "*synckit.DynamicResolver";
}

abbrev call : AuditCall
call = record {
  user_id = "u";
  session_id = "";
  origin = "";
  started_at = 1;
  resolved_at = 2;
  id_time = 7;
  timestamp = 3;
}

abbrev event : EventWithVersion
event = record {
  event = record {
    id = "e";
    kind = "order";
    aggregate_id = "a";
    payload = absent;
    metadata = none;
  };
  version = integer 1;
}

abbrev conflict : Conflict
conflict = record {
  event_type = "order";
  aggregate_id = "a";
  changed_fields = [];
  metadata = none;
  local = event;
  remote = event;
}

abbrev failing : Conflict → Result Bool ResolvedConflict
failing c = err true

made :
    deep_copy json (memento_of wording call conflict (failing conflict))
    ≡ ok (encoded (memento_of wording call conflict (failing conflict)))
unfolding deep_copy memento_of
made = refl

resolve_is_audited_example :
    ((resolve wording json call failing conflict []).1 ≡ err true)
    × Memᴰ
        (encoded (memento_of wording call conflict (failing conflict)))
        (get_audit_trail json "a" (resolve wording json call failing conflict []).0)
    × Tells wording conflict
        (failing conflict)
        (encoded (memento_of wording call conflict (failing conflict)))
unfolding deep_copy
resolve_is_audited_example =
    resolve_is_audited json wording call failing conflict []
      (encoded (memento_of wording call conflict (failing conflict))) tt made refl
      (record { aggregate = refl; decision = refl; reasons = refl; context = refl })

audit_trail_iff_example :
    Memᴰ (named "m1" 1) (get_audit_trail json "a" (change_all json (saved (named "m1" 1) ∷ []) []))
    ↔ IsInTrail json "a" (change_all json (saved (named "m1" 1) ∷ []) []) (named "m1" 1)
audit_trail_iff_example = audit_trail_iff json (saved (named "m1" 1) ∷ []) "a" (named "m1" 1)
