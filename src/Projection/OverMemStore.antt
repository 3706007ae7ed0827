-- ===== src/Projection/OverMemStore.antt =====
-- projection/runner.go over the store of storage/memstore/memstore.go.
use go_sync_kit.Base.{ℕ, Option, none, some, [], false, ◌≡◌, ap, ◌∙◌, drop, String}
use go_sync_kit.Types.{Version, StoreError, ok}
use go_sync_kit.MemStore.{MemStore, load, parse_version}
use go_sync_kit.MemStore.Invariant.{IsValid}
use go_sync_kit.MemStore.Loading.{fits_all, load-eq-drop, parse_version-empty}
use go_sync_kit.Projection.{OffsetStore, Source}
use go_sync_kit.Projection.Log.{Laws}

-- The in-memory store as a runner reads it; `scan` is `fmt.Sscanf`.
abbrev pub mem_source : (String → Option ℕ) → MemStore → Source StoreError
mem_source scan s = record {
  load = λ since. load false since [] s;
  zero_version = parse_version scan "";
}

-- An open, well-formed in-memory store meets the laws of a runner's store, with its events as the log.
pub MemStore-Laws :
    {O : Type 0} (offsets : OffsetStore O StoreError) (scan : String → Option ℕ) (s : MemStore)
    → ((v : Version) (o o' : O) → offsets.set v o ≡ (o', none) → offsets.get o' ≡ ok (some v))
    → IsValid s
    → s.closed ≡ false
    → Laws offsets (mem_source scan s) s.events
MemStore-Laws offsets scan s get-set v is_open = record {
  numbered = v.numbered;
  loads = λ n. load-eq-drop n [] s v is_open ∙ ap ok (fits_all (drop n s.events));
  from_zero = parse_version-empty scan;
  get-set = get-set;
}
