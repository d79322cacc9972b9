-- ===== src/Domain/Json/Dict.antt =====
-- Python's dict operations on the entries of a JSON object.
use rules_enrichment_daemon.Prelude.{
  ℕ, suc, String, ◌≡◌, refl, Bool, true, false, Option, none, some, arith, eq_iff, str_eq,
  if◌then◌else◌,
}
use rules_enrichment_daemon.Domain.Json.{Json, Fields, end, field}

-- `d.get(key)`
unfoldable pub get : String → Fields → Option Json
get key end = none
get key (field k v fs) = if str_eq k key then some v else get key fs

-- `d.get(key)`, with `None` for a missing key
unfoldable pub get_or_null : String → Fields → Json
unfolding get
get_or_null key fs = elim (get key fs) [ none ↦ Json.null | some v ↦ v ]

-- `key in d`
unfoldable pub has : String → Fields → Bool
has key end = false
has key (field k v fs) = if str_eq k key then true else has key fs

-- `d[key] = value`: in place, or behind the last entry
unfoldable pub set : String → Json → Fields → Fields
set key value end = field key value end
set key value (field k v fs) =
    if str_eq k key then field k value fs else field k v (set key value fs)

-- `d.update(other)`
unfoldable pub update : Fields → Fields → Fields
unfolding set
update d end = d
update d (field k v fs) = update (set k v d) fs

-- `len(d)`
unfoldable pub size : Fields → ℕ
size end = 0
size (field k v fs) = suc (size fs)

-- the entry of `key` that an update by these fields leaves: the last one
unfoldable pub get_last : String → Fields → Option Json
get_last key end = none
get_last key (field k v fs) =
    let rest = get_last key fs in
    elim rest [ none ↦ if str_eq k key then some v else none | some w ↦ some w ]

-- no key twice, as in every dict
abbrev pub HasUniqueKeys : Fields → Type 0
HasUniqueKeys end = Unit
HasUniqueKeys (field k v fs) = (get k fs ≡ none) × HasUniqueKeys fs

-- the first of two options that holds a value
abbrev pub or_else {ℓ} : {A : Type ℓ} → Option A → Option A → Option A
or_else none b = b
or_else (some a) b = some a

pub or_else_assoc {ℓ} :
    {A : Type ℓ} (a b c : Option A) → or_else (or_else a b) c ≡ or_else a (or_else b c)
or_else_assoc none b c = refl
or_else_assoc (some x) b c = refl

pub get-set :
    (k j : String) (v : Json) (d : Fields)
    → get j (set k v d) ≡ (if str_eq k j then some v else get j d)
unfolding get set
get-set k j v end = refl
get-set k j v (field i w fs) = ground (arith, eq_iff k j, eq_iff i k, eq_iff i j, get-set k j v fs)

-- An update overrides what was there.
pub get-update : (j : String) (d e : Fields) → get j (update d e) ≡ or_else (get_last j e) (get j d)
unfolding update get_last
get-update j d end = refl
get-update j d (field k v fs) = ground (arith, get-update j (set k v d) fs, get-set k j v d)

pub get_last-eq-get : (j : String) (e : Fields) → HasUniqueKeys e → get_last j e ≡ get j e
unfolding get get_last
get_last-eq-get j end h = refl
get_last-eq-get j (field k v fs) h = ground (arith, eq_iff k j, get_last-eq-get j fs h.1, same_key)
  where
    same_key : k ≡ j → get j fs ≡ none
    same_key e = rw (← e) h.0
