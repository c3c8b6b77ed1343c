-- ===== src/Dict.antt =====
-- Python's `dict` with text keys, in insertion order: an update keeps the key's place, a new key
-- goes to the end.
use gaia_server.Base.{
  String, ◌≡◌, refl, Bool, Option, none, some, List, [], ◌∷◌, map, arith, ◌==◌, eq_iff,
  if◌then◌else◌, or_else, is_some, count,
}

abbrev pub Dict {ℓ} : Type ℓ → Type ℓ
Dict V = List (String × V)

module _ {ℓ} {V : Type ℓ} where
  -- `d.get(k)`
  unfoldable pub get : String → Dict V → Option V
  get k [] = none
  get k ((j, v) ∷ d) = if j == k then some v else get k d

  -- `d.get(k, v)`
  abbrev pub get_or : String → V → Dict V → V
  get_or k v d = or_else v (get k d)

  -- `k in d`
  abbrev pub contains : String → Dict V → Bool
  contains k d = is_some (get k d)

  -- `d[k] = v`
  unfoldable pub insert : String → V → Dict V → Dict V
  insert k v [] = (k, v) ∷ []
  insert k v ((j, w) ∷ d) = if j == k then (j, v) ∷ d else (j, w) ∷ insert k v d

  -- `del d[k]`
  unfoldable pub erase : String → Dict V → Dict V
  erase k [] = []
  erase k ((j, w) ∷ d) = if j == k then d else (j, w) ∷ erase k d

  abbrev pub keys : Dict V → List String
  keys = map (λ e. e.0)

  abbrev pub values : Dict V → List V
  values = map (λ e. e.1)

  pub get-insert :
      (k j : String) (v : V) (d : Dict V)
      → get j (insert k v d) ≡ (if k == j then some v else get j d)
  unfolding get insert
  get-insert k j v [] = refl
  get-insert k j v ((i, w) ∷ d) =
      ground (arith, eq_iff k j, eq_iff i k, eq_iff i j, get-insert k j v d)

  pub get-insert_self : (k : String) (v : V) (d : Dict V) → get k (insert k v d) ≡ some v
  get-insert_self k v d = ground (arith, get-insert k k v d, eq_iff k k)

-- No key twice.
abbrev pub IsUnique {ℓ} : {V : Type ℓ} → Dict V → Type 0
IsUnique [] = Unit
IsUnique ((k, v) ∷ d) = (contains k d ≡ Bool.false) × IsUnique d

module _ {ℓ} {V : Type ℓ} where
  pub IsUnique-insert : (k : String) (v : V) (d : Dict V) → IsUnique d → IsUnique (insert k v d)
  unfolding get insert
  IsUnique-insert k v [] u = (refl, tt)
  IsUnique-insert k v ((j, w) ∷ d) u =
      ground (arith, IsUnique-insert k v d u.1, get-insert k j v d, eq_iff k j, eq_iff j k)

  -- A dict has each of its keys once.
  pub count-keys :
      (k : String) (d : Dict V) → IsUnique d → count k (keys d) ≡ (if contains k d then 1 else 0)
  unfolding get
  count-keys k [] u = refl
  count-keys k ((j, w) ∷ d) u = ground (arith, count-keys k d u.1, eq_iff j k)
