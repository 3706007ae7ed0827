-- ===== src/Memento/Trails.antt =====
-- synckit/memento.go: what is found of what was saved.
use mathlib.Core.List.{Memᴰ}
use mathlib.Core.Option.{some-injective}
use go_sync_kit.Base.{
  String, Option, none, some, List, [], ◌∷◌, true, ◌≡◌, ◌≢◌, ◌↔◌, refl, sym, ap, arith, ◌∙◌, subst,
  str_eq, eq_iff, if◌then◌else◌, Bool-cases, inl, inr, if_eq_false, if_eq_true, if_both,
  Option-cases, eq_refl, ◌⊎◌,
}
use go_sync_kit.Base.Dict.{Dict, lookup, lookup-insert, lookup-erase, HasDistinctKeys}
use go_sync_kit.Types.{Result, ok, err}
use go_sync_kit.Memento.{
  ResolutionMemento, MementoError, Codec, MementoCriteria, deep_copy, save, get, select, delete,
  not_found, matches_criteria, cons_copy,
}

module _ {Raw : Type 0} (json : Codec Raw) where
  -- `Save` of a memento with an ID whose copy is made: under its ID `Get` then finds a copy of that
  -- copy, and under every other ID what it found before.
  pub get-save :
      (m copy : ResolutionMemento) (id : String) (mementos : Dict ResolutionMemento)
      → m.id ≢ ""
      → deep_copy json m ≡ ok copy
      → ((save json m mementos).1 ≡ none)
        × (get json id (save json m mementos).0
            ≡ (if str_eq m.id id then deep_copy json copy else get json id mementos))
  unfolding save get
  get-save m copy id mementos named copied =
      rw copied
        (ground (arith, eq_iff m.id "", eq_iff m.id id, lookup-insert m.id id copy mementos))

  -- `Delete` succeeds exactly for a memento that is there; afterwards `Get` does not find it, and finds
  -- the others as before.
  pub get-delete :
      (id other : String) (mementos : Dict ResolutionMemento)
      → (((delete id mementos).1 ≡ none)
          ↔ ((m : ResolutionMemento) × (lookup id mementos ≡ some m)))
        × (get json other (delete id mementos).0
            ≡ (if str_eq id other then err (not_found other) else get json other mementos))
  unfolding delete get
  get-delete id other mementos = elim (Option-cases (lookup id mementos)) [
    | inl gone ↦ rw gone (
      (λ h. absurd (ground arith), λ (m, there). absurd (ground arith)),
      ground (arith, gone, eq_iff id other),
    )
    | inr (m, there) ↦ (
      (λ h. (m, there), λ h. ground (arith, there)),
      ground (arith, there, lookup-erase id other mementos),
    )
  ]

  -- A memento is a copy of a stored one that matches the criteria.
  pub record IsCopy (criteria : Option MementoCriteria) (mementos : Dict ResolutionMemento)
      (x : ResolutionMemento) : Type 0 where
    pub key : String
    pub original : ResolutionMemento
    pub there : lookup key mementos ≡ some original
    pub matches : matches_criteria original criteria ≡ true
    pub copied : deep_copy json original ≡ ok x

  Memᴰ-cons_copy :
      (r : Result MementoError ResolutionMemento) (x : ResolutionMemento)
      (later : List ResolutionMemento)
      → Memᴰ x (cons_copy r later)
      → (r ≡ ok x) ⊎ Memᴰ x later
  Memᴰ-cons_copy (err e) x later h = inr h
  Memᴰ-cons_copy (ok copy) x later (Memᴰ.head is) = inl (ap ok (sym is))
  Memᴰ-cons_copy (ok copy) x later (Memᴰ.tail h) = inr h

  IsCopy-cons :
      (criteria : Option MementoCriteria) (k : String) (m : ResolutionMemento)
      (rest : Dict ResolutionMemento) (x : ResolutionMemento)
      → lookup k rest ≡ none
      → IsCopy criteria rest x
      → IsCopy criteria ((k, m) ∷ rest) x
  unfolding lookup
  IsCopy-cons criteria k m rest x new c = record {
    key = c.key;
    original = c.original;
    there = ground (arith, c.there, new, eq_iff k c.key);
    matches = c.matches;
    copied = c.copied;
  }

  select-IsCopy :
      (criteria : Option MementoCriteria) (mementos : Dict ResolutionMemento)
      (x : ResolutionMemento)
      → HasDistinctKeys mementos
      → Memᴰ x (select json criteria mementos)
      → IsCopy criteria mementos x
  unfolding select
  select-IsCopy criteria [] x d h = elim h [ ]
  select-IsCopy criteria ((k, m) ∷ rest) x d h = elim (Bool-cases (matches_criteria m criteria)) [
    | inl matches ↦
        elim (Memᴰ-cons_copy (deep_copy json m) x _ (subst (Memᴰ x) (if_eq_true _ _ matches) h)) [
          | inl copied ↦ record {
            key = k;
            original = m;
            there = unfold lookup in if_eq_true _ _ (eq_refl k);
            matches = matches;
            copied = copied;
          }
          | inr later ↦
              IsCopy-cons criteria k m rest x d.0 (select-IsCopy criteria rest x d.1 later)
        ]
    | inr fails ↦
        IsCopy-cons criteria k m rest x d.0
          (select-IsCopy criteria rest x d.1 (subst (Memᴰ x) (if_eq_false _ _ fails) h))
  ]

  cons_copy-there :
      (r : Result MementoError ResolutionMemento) (x : ResolutionMemento)
      (later : List ResolutionMemento)
      → r ≡ ok x
      → Memᴰ x (cons_copy r later)
  cons_copy-there r x later is = rw is (Memᴰ.head refl)

  cons_copy-later :
      (r : Result MementoError ResolutionMemento) (x : ResolutionMemento)
      (later : List ResolutionMemento)
      → Memᴰ x later
      → Memᴰ x (cons_copy r later)
  cons_copy-later (err e) x later h = h
  cons_copy-later (ok copy) x later h = Memᴰ.tail h

  select-complete :
      (criteria : Option MementoCriteria) (mementos : Dict ResolutionMemento)
      (x : ResolutionMemento) (key : String) (m : ResolutionMemento)
      → lookup key mementos ≡ some m
      → matches_criteria m criteria ≡ true
      → deep_copy json m ≡ ok x
      → Memᴰ x (select json criteria mementos)
  unfolding select lookup
  select-complete criteria [] x key m there matches copied = absurd (ground arith)
  select-complete criteria ((k, v) ∷ rest) x key m there matches copied =
      elim (Bool-cases (str_eq k key)) [
        | inl here ↦
            let is : v ≡ m = some-injective _ _ (sym (if_eq_true _ _ here) ∙ there) in
            rw (is, matches) (cons_copy-there (deep_copy json m) x _ copied)
        | inr other ↦
            let later =
              select-complete criteria rest x key m (sym (if_eq_false _ _ other) ∙ there) matches
                copied in
            if_both (Memᴰ x) (matches_criteria v criteria)
              (cons_copy-later (deep_copy json v) x _ later) later
      ]

  -- What `List` returns under criteria that do not page: copies of what matches, and of nothing else.
  pub select_iff :
      (criteria : Option MementoCriteria) (mementos : Dict ResolutionMemento)
      (x : ResolutionMemento)
      → HasDistinctKeys mementos
      → Memᴰ x (select json criteria mementos) ↔ IsCopy criteria mementos x
  select_iff criteria mementos x d = (
    select-IsCopy criteria mementos x d,
    λ c. select-complete criteria mementos x c.key c.original c.there c.matches c.copied,
  )
