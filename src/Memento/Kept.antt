-- ===== src/Memento/Kept.antt =====
-- synckit/memento.go: the mementos after any sequence of saves and deletions.
use mathlib.Core.List.{Memᴰ}
use go_sync_kit.Base.{
  ℕ, ◌≤◌, ◌<◌, String, Option, none, some, List, [], ◌∷◌, true, ◌≡◌, ◌≢◌, ◌↔◌, refl, ap, arith, ◌∙◌,
  length, str_eq, eq_iff, if_both, zero, suc, take, drop,
}
use go_sync_kit.Base.Int.{pos}
use go_sync_kit.Base.Dict.{
  Dict, lookup, erase, HasDistinctKeys, insert-HasDistinctKeys, erase-HasDistinctKeys,
}
use go_sync_kit.Types.{Result, ok, err}
use go_sync_kit.Memento.{
  ResolutionMemento, MementoError, Codec, MementoCriteria, deep_copy, save, select, list, delete,
  not_found, get_audit_trail, matches_criteria, stored, of_aggregate, limited_to, offset_by,
}
use go_sync_kit.Memento.Trails.{select_iff}

-- The calls that change the mementos.
pub data Change : Type 0 where
  saved : ResolutionMemento → Change
  deleted : String → Change

delete-HasDistinctKeys :
    (id : String) (mementos : Dict ResolutionMemento)
    → HasDistinctKeys mementos
    → HasDistinctKeys (delete id mementos).0
unfolding delete
delete-HasDistinctKeys id mementos d =
    elim (lookup id mementos)
      as (λ o.
        HasDistinctKeys {V = ResolutionMemento}
          (elim o as (λ x. Dict ResolutionMemento × Option MementoError) [
            | none ↦ (mementos, some (not_found id))
            | some m ↦ (erase id mementos, none)
          ]).0) [ none ↦ d | some m ↦ erase-HasDistinctKeys id mementos d ]

matches_aggregate :
    (aggregate_id : String) (m : ResolutionMemento)
    → (matches_criteria m (some (of_aggregate aggregate_id)) ≡ true)
      ↔ (aggregate_id ≢ "" → m.aggregate_id ≡ aggregate_id)
unfolding matches_criteria
matches_aggregate aggregate_id m =
    ground (arith, eq_iff aggregate_id "", eq_iff m.aggregate_id aggregate_id)

take_all : (n : ℕ) (xs : List ResolutionMemento) → length xs ≤ n → take n xs ≡ xs
take_all zero [] h = refl
take_all zero (x ∷ xs) h = absurd (omega arith)
take_all (suc n) [] h = refl
take_all (suc n) (x ∷ xs) h = ap (λ l. x ∷ l) (take_all n xs (omega arith))

limited_to_lem :
    (n : ℕ) (xs : List ResolutionMemento) → limited_to (pos (suc n)) xs ≡ take (suc n) xs
limited_to_lem n xs = ground (arith, take_all (suc n) xs)

offset_within :
    (n : ℕ) (xs : List ResolutionMemento) → n < length xs → offset_by (pos n) xs ≡ drop n xs
offset_within zero xs h = refl
offset_within (suc n) xs h = ground arith

offset_beyond : (n : ℕ) (xs : List ResolutionMemento) → length xs ≤ n → offset_by (pos n) xs ≡ xs
offset_beyond n xs h = ground arith

module _ {Raw : Type 0} (json : Codec Raw) where
  unfoldable pub change_all : List Change → Dict ResolutionMemento → Dict ResolutionMemento
  change_all [] mementos = mementos
  change_all (saved m ∷ rest) mementos = change_all rest (save json m mementos).0
  change_all (deleted id ∷ rest) mementos = change_all rest (delete id mementos).0

  stored-HasDistinctKeys :
      (id : String) (r : Result MementoError ResolutionMemento) (mementos : Dict ResolutionMemento)
      → HasDistinctKeys mementos
      → HasDistinctKeys (stored id r mementos).0
  stored-HasDistinctKeys id (err e) mementos d = d
  stored-HasDistinctKeys id (ok copy) mementos d = insert-HasDistinctKeys id copy mementos d

  pub save-HasDistinctKeys :
      (m : ResolutionMemento) (mementos : Dict ResolutionMemento)
      → HasDistinctKeys mementos
      → HasDistinctKeys (save json m mementos).0
  unfolding save
  save-HasDistinctKeys m mementos d =
      if_both {A = Dict ResolutionMemento × Option MementoError} (λ r. HasDistinctKeys r.0)
        (str_eq m.id "") d (stored-HasDistinctKeys m.id (deep_copy json m) mementos d)

  change_all-HasDistinctKeys :
      (changes : List Change) (mementos : Dict ResolutionMemento)
      → HasDistinctKeys mementos
      → HasDistinctKeys (change_all changes mementos)
  unfolding change_all
  change_all-HasDistinctKeys [] mementos d = d
  change_all-HasDistinctKeys (saved m ∷ rest) mementos d =
      change_all-HasDistinctKeys rest _ (save-HasDistinctKeys m mementos d)
  change_all-HasDistinctKeys (deleted id ∷ rest) mementos d =
      change_all-HasDistinctKeys rest _ (delete-HasDistinctKeys id mementos d)

  -- What the audit trail of an aggregate holds.
  abbrev pub IsInTrail : String → Dict ResolutionMemento → ResolutionMemento → Type 0
  IsInTrail aggregate_id mementos x =
      (key : String) × (m : ResolutionMemento) × (lookup key mementos ≡ some m)
      × (aggregate_id ≢ "" → m.aggregate_id ≡ aggregate_id)
      × (deep_copy json m ≡ ok x)

  pub get_audit_trail_iff :
      (mementos : Dict ResolutionMemento) (aggregate_id : String) (x : ResolutionMemento)
      → HasDistinctKeys mementos
      → Memᴰ x (get_audit_trail json aggregate_id mementos) ↔ IsInTrail aggregate_id mementos x
  unfolding get_audit_trail list
  get_audit_trail_iff mementos aggregate_id x d =
      let both = select_iff json (some (of_aggregate aggregate_id)) mementos x d in
      (
        λ h.
            let c = both.0 h in
            (
              c.key,
              c.original,
              c.there,
              (matches_aggregate aggregate_id c.original).0 c.matches,
              c.copied,
            ),
        λ (key, m, there, same, copied). both.1 (record {
          key = key;
          original = m;
          there = there;
          matches = (matches_aggregate aggregate_id m).1 same;
          copied = copied;
        }),
      )

  -- After any saves and deletions, the audit trail of an aggregate holds a copy of each stored memento of
  -- that aggregate, where the copy can be made, and nothing else; for the empty ID it holds a copy of
  -- every stored memento whose copy can be made.
  pub audit_trail_iff :
      (changes : List Change) (aggregate_id : String) (x : ResolutionMemento)
      → Memᴰ x (get_audit_trail json aggregate_id (change_all changes []))
        ↔ IsInTrail aggregate_id (change_all changes []) x
  audit_trail_iff changes aggregate_id x =
      get_audit_trail_iff (change_all changes []) aggregate_id x
        (change_all-HasDistinctKeys changes [] tt)

  -- Paging: with a positive limit, `List` returns at most that many of the results from the offset on;
  -- but an offset that is not below the number of results is ignored, so that what should be an empty
  -- page is the first page again.
  pub list_page :
      (k : MementoCriteria) (offset limit : ℕ) (mementos : Dict ResolutionMemento)
      → k.offset ≡ pos offset
      → k.limit ≡ pos (suc limit)
      → let all = select json (some k) mementos in
        (offset < length all → list json (some k) mementos ≡ take (suc limit) (drop offset all))
        × (length all ≤ offset → list json (some k) mementos ≡ take (suc limit) all)
  unfolding list
  list_page k offset limit mementos is_offset is_limit =
      let all = select json (some k) mementos in
      let page : list json (some k) mementos
          ≡ limited_to (pos (suc limit)) (offset_by (pos offset) all) =
        λ i. limited_to (is_limit i) (offset_by (is_offset i) all) in
      (
        λ h. page ∙ limited_to_lem limit _ ∙ ap (take (suc limit)) (offset_within offset all h),
        λ h. page ∙ limited_to_lem limit _ ∙ ap (take (suc limit)) (offset_beyond offset all h),
      )
