-- ===== src/Dict.antt =====
-- `Record<string, V>` and `Map<string, V>`: entries in the order of insertion; a write to a key
-- that is there keeps its place. (Card ids, tmux ids and session names are no array indices, which
-- an object would put first.)
pub mod Laws
pub mod Extension
use tukan.Prelude.{◌≡◌, Bool, List, [], ◌∷◌, Option, none, some, is_some, if◌then◌else◌}
use tukan.Text.{Text, ◌==◌}

abbrev pub Dict {ℓ} : Type ℓ → Type ℓ
Dict V = List (Text × V)

module _ {ℓ} {V : Type ℓ} where
  -- `d[k]`, `d.get(k)`
  unfoldable pub get : Text → Dict V → Option V
  get k [] = none
  get k ((j, v) ∷ d) = if j == k then some v else get k d

  -- `d[k] = v`, `d.set(k, v)`, `{ ...d, [k]: v }`
  unfoldable pub set : Text → V → Dict V → Dict V
  set k v [] = (k, v) ∷ []
  set k v ((j, w) ∷ d) = if j == k then (j, v) ∷ d else (j, w) ∷ set k v d

  -- `const { [k]: _, ...rest } = d`
  unfoldable pub without : Text → Dict V → Dict V
  without k [] = []
  without k ((j, v) ∷ d) = if j == k then without k d else (j, v) ∷ without k d

  -- `d.has(k)`
  abbrev pub has : Text → Dict V → Bool
  has k d = is_some (get k d)

  -- `Object.values(d)`, `d.values()`
  abbrev pub values : Dict V → List V
  values [] = []
  values ((k, v) ∷ d) = v ∷ values d

  -- `Object.keys(d)`
  abbrev pub keys : Dict V → List Text
  keys [] = []
  keys ((k, v) ∷ d) = k ∷ keys d

  -- No key stands twice.
  abbrev pub IsDistinct : Dict V → Type ℓ
  IsDistinct [] = Unit
  IsDistinct ((k, v) ∷ d) = (get k d ≡ none) × IsDistinct d
