-- ===== src/Specs.antt =====
-- synckit/spec.go: predicates on conflicts and their combinators; a nil `Spec` is `none`. Metadata
-- values of a type that Go cannot compare are left out.
use go_sync_kit.Base.{
  ◌==◌, String, Option, none, some, List, [], ◌∷◌, Bool, true, false, not, ◌&&◌, ◌||◌,
  if◌then◌else◌, str_eq, ◌≡◌, refl, sym, arith,
}
use go_sync_kit.Base.Int.{ℤ, pos, negsuc}
use go_sync_kit.Base.Dict.{lookup}
use go_sync_kit.Types.{Conflict, Value, text, number, opaque}

abbrev pub Spec : Type 0
Spec = Conflict → Bool

-- `a != nil && a(c)`.
abbrev pub holds : Option Spec → Conflict → Bool
holds none c = false
holds (some spec) c = spec c

-- `And`, `Or` and `Not`.
pub and_spec : Option Spec → Option Spec → Spec
and_spec none b c = false
and_spec (some a) none c = false
and_spec (some a) (some b) c = a c && b c

pub or_spec : Option Spec → Option Spec → Spec
or_spec a b c = holds a c || holds b c

pub not_spec : Option Spec → Spec
not_spec none c = true
not_spec (some a) c = not (a c)

-- `EventTypeIs`.
abbrev pub event_type_is : String → Spec
event_type_is t c = str_eq c.event_type t

-- `_, ok := set[f]`, in the set of the given fields.
pub in_set : String → List String → Bool
in_set f [] = false
in_set f (field ∷ rest) = str_eq f field || in_set f rest

-- The loop of `AnyFieldIn` over the changed fields.
pub any_changed_in : List String → List String → Bool
unfolding in_set
any_changed_in fields [] = false
any_changed_in fields (f ∷ rest) =
    let later = any_changed_in fields rest in if in_set f fields then true else later

-- `AnyFieldIn`.
abbrev pub any_field_in : List String → Spec
any_field_in fields c = any_changed_in fields c.changed_fields

-- The loop of `FieldChanged`.
pub changed_in : String → List String → Bool
changed_in field [] = false
changed_in field (f ∷ rest) =
    let later = changed_in field rest in if str_eq f field then true else later

-- `FieldChanged`.
abbrev pub field_changed : String → Spec
field_changed field c = changed_in field c.changed_fields

abbrev pub same_int : ℤ → ℤ → Bool
same_int (pos m) (pos n) = m == n
same_int (negsuc m) (negsuc n) = m == n
same_int (pos m) (negsuc n) = false
same_int (negsuc m) (pos n) = false

-- `anyEqual`.
abbrev pub any_equal : Value → Value → Bool
any_equal (text s) (text t) = str_eq s t
any_equal (number m) (number n) = same_int m n
any_equal (opaque i) (opaque j) = i == j
any_equal v w = false

abbrev pub found_equal : Value → Option Value → Bool
found_equal value none = false
found_equal value (some v) = any_equal v value

-- `MetadataEq`.
pub metadata_eq : String → Value → Spec
metadata_eq key value c = elim c.metadata [
  | none ↦ false
  | some metadata ↦ found_equal value (lookup key metadata)
]

-- `AggregateIDMatches`.
abbrev pub aggregate_id_matches : String → Spec
aggregate_id_matches pattern_text c = str_eq c.aggregate_id pattern_text

-- `AlwaysMatch`.
abbrev pub always_match : Spec
always_match c = true

-- `AndMatcher`.
pub and_matcher : List (Option Spec) → Spec
and_matcher [] c = true
and_matcher (spec ∷ rest) c =
    let later = and_matcher rest c in if not (holds spec c) then false else later

-- The conjunction of truth values, and whether one of them is true.
abbrev pub all_of : {A : Type 0} → (A → Bool) → List A → Bool
all_of p [] = true
all_of p (x ∷ rest) = p x && all_of p rest

abbrev pub any_of : {A : Type 0} → (A → Bool) → List A → Bool
any_of p [] = false
any_of p (x ∷ rest) = p x || any_of p rest

-- The combinators are the Boolean operations, with a nil spec as the one that never matches.
pub combinators_boolean :
    (c : Conflict) (a b : Option Spec) (specs : List (Option Spec))
    → (and_spec a b c ≡ holds a c && holds b c)
      × (or_spec a b c ≡ holds a c || holds b c)
      × (not_spec a c ≡ not (holds a c))
      × (and_matcher specs c ≡ all_of (λ s. holds s c) specs)
unfolding and_spec or_spec not_spec and_matcher
combinators_boolean c a b specs = (conj a b, refl, negated a, matched specs)
  where
    conj : (a b : Option Spec) → and_spec a b c ≡ holds a c && holds b c
    conj none b = refl
    conj (some a) none = ground arith
    conj (some a) (some b) = refl

    negated : (a : Option Spec) → not_spec a c ≡ not (holds a c)
    negated none = refl
    negated (some a) = refl

    matched : (specs : List (Option Spec)) → and_matcher specs c ≡ all_of (λ s. holds s c) specs
    matched [] = refl
    matched (s ∷ rest) = ground (arith, matched rest)

in_set-or :
    (changed : String) (rest fields : List String)
    → any_of (λ f. changed_in f (changed ∷ rest)) fields
      ≡ in_set changed fields || any_of (λ f. changed_in f rest) fields
unfolding in_set changed_in
in_set-or changed rest [] = refl
in_set-or changed rest (f ∷ fields) = ground (arith, in_set-or changed rest fields)

none_changed : (fields : List String) → any_of (λ f. changed_in f []) fields ≡ false
unfolding changed_in
none_changed [] = refl
none_changed (f ∷ fields) = none_changed fields

-- `AnyFieldIn` holds exactly when `FieldChanged` does for one of its fields.
pub any_field_in-field_changed :
    (fields : List String) (c : Conflict)
    → any_field_in fields c ≡ any_of (λ f. field_changed f c) fields
unfolding any_changed_in
any_field_in-field_changed fields c = over c.changed_fields
  where
    over :
        (changed : List String)
        → any_changed_in fields changed ≡ any_of (λ f. changed_in f changed) fields
    over [] = sym (none_changed fields)
    over (f ∷ rest) = ground (arith, over rest, in_set-or f rest fields)
