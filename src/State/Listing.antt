-- ===== src/State/Listing.antt =====
-- src/state/store.ts: the names of the sessions, and all sessions at once.
pub mod Names
use tukan.Prelude.{Bool, true, false, Option, none, some, List, [], ◌∷◌, ◌++◌, ltb, if◌then◌else◌}
use tukan.Text.{Text}
use tukan.Dict.{Dict, set, keys}
use tukan.Board.{BoardConfig}
use tukan.Board.Activity.{add}
use tukan.State.{SessionState}
use tukan.State.Migrate.{RawBoard}
use tukan.State.Store.{Files, read_registry, read_session_state}

-- the order of strings by their code units
unfoldable pub leq : Text → Text → Bool
leq [] b = true
leq (c ∷ a) [] = false
leq (c ∷ a) (d ∷ b) =
    let rest = leq a b in if ltb c d then true else if ltb d c then false else rest

unfoldable pub insert : Text → List Text → List Text
unfolding leq
insert a [] = a ∷ []
insert a (b ∷ bs) = let rest = insert a bs in if leq a b then a ∷ b ∷ bs else b ∷ rest

-- `Array.prototype.sort` on strings
unfoldable pub sort : List Text → List Text
unfolding insert
sort [] = []
sort (a ∷ xs) = insert a (sort xs)

-- `new Set([...])`, on what is in it already
unfoldable pub add_names : List Text → List Text → List Text
add_names found [] = found
add_names found (a ∷ xs) = add_names (add a found) xs

unfoldable pub list_registered_sessions : Files → List Text
unfolding sort read_registry
list_registered_sessions files = sort (keys (read_registry files))

-- The names of the session files are those in their directory without the ending `.json`.
unfoldable pub list_session_names : Files → List Text
unfolding list_registered_sessions add_names
list_session_names files =
    sort (add_names [] (list_registered_sessions files ++ keys files.session_files))

abbrev set_if_any : Text → Option SessionState → Dict SessionState → Dict SessionState
set_if_any name none sessions = sessions
set_if_any name (some session) sessions = set name session sessions

-- `migrate` is `migrateConfig`, and `exists_dir` is `existsSync` of a directory. The sessions, which
-- the program reads in parallel, are read one after the other.
module _ (migrate : RawBoard → BoardConfig) (exists_dir : Text → Bool) where
  unfoldable pub read_sessions : List Text → Dict SessionState → Files → Dict SessionState × Files
  read_sessions [] sessions files = (sessions, files)
  read_sessions (name ∷ names) sessions files =
      let (session, read) = read_session_state migrate exists_dir name none files in
      read_sessions names (set_if_any name session sessions) read

  unfoldable pub read_all_sessions : Files → Dict SessionState × Files
  unfolding read_sessions list_session_names
  read_all_sessions files = read_sessions (list_session_names files) [] files
