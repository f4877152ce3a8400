-- ===== src/Board/Columns.antt =====
-- src/board/card-ops.ts: the names of the columns. The two tables are object literals, so a key that
-- they lack is looked up in `Object.prototype`.
use tukan.Prelude.{
  ◌≡◌, refl, none, some, List, [], ◌∷◌, arith, if◌then◌else◌, any, All, Has, All-Has,
}
use tukan.Text.{Text, units, ◌==◌, LowerCase, IsAscii, ascii_lower}
use tukan.Dict.{Dict, get, keys}
use tukan.Board.{col_unassigned, col_todo, col_in_progress, col_review, col_done}

-- the names that every object literal inherits
abbrev pub object_members : List Text
object_members =
    units "constructor"
    ∷ units "__defineGetter__"
    ∷ units "__defineSetter__"
    ∷ units "hasOwnProperty"
    ∷ units "__lookupGetter__"
    ∷ units "__lookupSetter__"
    ∷ units "isPrototypeOf"
    ∷ units "propertyIsEnumerable"
    ∷ units "toString"
    ∷ units "valueOf"
    ∷ units "__proto__"
    ∷ units "toLocaleString"
    ∷ []

-- what `table[key]` is: a text of the table's own, a member of `Object.prototype`, or `undefined`
pub data Property : Type 0 where
  own : Text → Property
  inherited : Property
  undefined : Property

unfoldable pub property : Dict Text → Text → Property
property table key = elim (get key table) [
  | some value ↦ own value
  | none ↦ if any (λ name. name == key) object_members then inherited else undefined
]

abbrev pub column_name_map : Dict Text
column_name_map =
    (units "unassigned", col_unassigned)
    ∷ (units "todo", col_todo)
    ∷ (units "in progress", col_in_progress)
    ∷ (units "in-progress", col_in_progress)
    ∷ (units "inprogress", col_in_progress)
    ∷ (units "review", col_review)
    ∷ (units "done", col_done)
    ∷ []

-- The result `undefined` stands for the `null` that `??` puts in its place.
unfoldable pub column_id_from_name : LowerCase → Text → Property
unfolding property
column_id_from_name locale name = property column_name_map (locale.to_lower_case name)

abbrev pub column_id_map : Dict Text
column_id_map =
    (col_unassigned, units "Unassigned")
    ∷ (col_todo, units "Todo")
    ∷ (col_in_progress, units "In Progress")
    ∷ (col_review, units "Review")
    ∷ (col_done, units "Done")
    ∷ []

abbrev or_unknown : Property → Property
or_unknown undefined = own (units "Unknown")
or_unknown (own name) = own name
or_unknown inherited = inherited

unfoldable pub column_name_from_id : Text → Property
unfolding property
column_name_from_id id = or_unknown (property column_id_map id)

abbrev IsColumnId : Text → Type 0
IsColumnId id = Has id (keys column_id_map)

each_member : All (λ m. property column_name_map m ≡ inherited) object_members
unfolding property get ◌==◌
each_member = (
  refl,
  (refl, (refl, (refl, (refl, (refl, (refl, (refl, (refl, (refl, (refl, (refl, tt))))))))))),
)

module _ (locale : LowerCase) where
  abbrev pub then_id : Property → Property
  then_id (own name) = column_id_from_name locale name
  then_id inherited = inherited
  then_id undefined = undefined

  by_ascii_name :
      (id name : Text)
      → column_name_from_id id ≡ own name
      → IsAscii name
      → property column_name_map (ascii_lower name) ≡ own id
      → then_id (column_name_from_id id) ≡ own id
  unfolding column_id_from_name
  by_ascii_name id name e h k = rw (e, locale.ascii name h) k

  each_column : All (λ id. then_id (column_name_from_id id) ≡ own id) (keys column_id_map)
  unfolding column_name_from_id get ◌==◌ ascii_lower
  each_column =
      let c0 = by_ascii_name col_unassigned (units "Unassigned") refl (omega arith) refl in
      let c1 = by_ascii_name col_todo (units "Todo") refl (omega arith) refl in
      let c2 = by_ascii_name col_in_progress (units "In Progress") refl (omega arith) refl in
      let c3 = by_ascii_name col_review (units "Review") refl (omega arith) refl in
      let c4 = by_ascii_name col_done (units "Done") refl (omega arith) refl in
      (c0, (c1, (c2, (c3, (c4, tt)))))

  -- The name of each of the five columns resolves to that column.
  pub column_id-column_name :
      (id : Text) → IsColumnId id → then_id (column_name_from_id id) ≡ own id
  column_id-column_name id h =
      All-Has (λ id. then_id (column_name_from_id id) ≡ own id) (keys column_id_map) id each_column
        h

  -- A name whose lower case is a member of `Object.prototype`, such as "constructor", is never
  -- reported as unknown: the lookup answers with the inherited member, and not with `null`.
  pub column_id-inherited :
      (name : Text)
      → Has (locale.to_lower_case name) object_members
      → column_id_from_name locale name ≡ inherited
  unfolding column_id_from_name
  column_id-inherited name h =
      All-Has (λ m. property column_name_map m ≡ inherited) object_members _ each_member h
