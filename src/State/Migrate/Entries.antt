-- ===== src/State/Migrate/Entries.antt =====
-- The loop of `ensureCommands`, round by round.
use tukan.Prelude.{
  subst, ◌≡◌, refl, sym, ap, ◌∙◌, ◌≢◌, ◌⊎◌, inl, inr, true, none, some, List, [], ◌∷◌, ◌++◌, arith,
  find, Bool-cases, Option-cases, any-append, append-nil, is_some,
}
use tukan.Text.{Text, ◌==◌}
use tukan.Text.Equality.{eq_iff, eq_refl}
use tukan.Dict.{Dict, get, set, IsDistinct}
use tukan.Dict.Laws.{get-set, set-IsDistinct}
use tukan.Board.{Card, CommandDef, BoardConfig, col_done}
use tukan.State.Migrate.{
  has_done, ensure_done_column, Pass, custom_of, use_command, convert_entry, convert_entries,
  or_default, ensure_commands, command_slug,
}

-- A board of the present format: it has the Done column and commands, no id of a card stands twice,
-- and no card has a command text of its own under the command "custom".
pub record IsCurrent (config : BoardConfig) : Type 0 where
  pub done : has_done config.columns ≡ true
  pub commands : config.commands ≢ []
  pub distinct : IsDistinct config.cards
  pub converted : (k : Text) (card : Card) → get k config.cards ≡ some card → custom_of card ≡ none

custom_of-none :
    (card : Card) (command : Text)
    → custom_of (record card { command = command; custom_command = none }) ≡ none
custom_of-none card command = ground arith

-- the entries that are still to be converted hold every card that has a text of its own
abbrev Pending : Dict Card → Dict Card → Type 0
Pending entries cards =
    (k : Text) (card : Card) (custom : Text)
    → get k cards ≡ some card
    → custom_of card ≡ some custom
    → get k entries ≡ some card

-- Converting one card writes it without a text of its own, and keeps the commands.
record Converts (card_id : Text) (card : Card) (before after : Pass) : Type 0 where
  command : Text
  cards :
      after.cards
      ≡ set card_id (record card { command = command; custom_command = none }) before.cards
  added : List CommandDef
  commands : after.commands ≡ before.commands ++ added

use_command-Converts :
    (card_id : Text) (card : Card) (custom : Text) (pass : Pass)
    → Converts card_id card pass (use_command card_id card custom pass)
unfolding use_command
use_command-Converts card_id card custom pass =
    elim (Option-cases (find (λ c. c.template == custom) pass.commands)) [
      | inr (existing, e) ↦
          rw (e, use_command)
            (record {
              command = existing.id;
              cards = refl;
              added = [];
              commands = sym (append-nil pass.commands);
            })
      | inl new ↦
          rw (new, use_command)
            (elim (Bool-cases (is_some (find (λ c. c.id == command_slug custom) pass.commands))) [
              | inl there ↦ rw there (record {
                command = command_slug custom;
                cards = refl;
                added = [];
                commands = sym (append-nil pass.commands);
              })
              | inr missing ↦ rw missing (record {
                command = command_slug custom;
                cards = refl;
                added = record { id = command_slug custom; label = custom; template = custom } ∷ [];
                commands = refl;
              })
            ])
    ]

Converts-Pending :
    (card_id : Text) (card : Card) (entries : Dict Card) (before after : Pass)
    → Converts card_id card before after
    → Pending ((card_id, card) ∷ entries) before.cards
    → Pending entries after.cards
unfolding get
Converts-Pending card_id card entries before after c p = λ k other custom there own.
    let written = record card { command = c.command; custom_command = none } in
    let at = get-set card_id k written before.cards in
    let here = ap (get k) (sym c.cards) ∙ there in
    ground (arith, at, here, custom_of-none card c.command, p k other custom, eq_iff card_id k)

nonempty-append : {A : Type 0} (xs ys : List A) → xs ≢ [] → xs ++ ys ≢ []
nonempty-append [] ys ne e = ne refl
nonempty-append (x ∷ xs) ys ne e = cc

-- A round of the loop leaves everything, at a card without a text of its own, or converts the card.
convert_entry-cases :
    (card_id : Text) (card : Card) (pass : Pass)
    → ((convert_entry card_id card pass ≡ pass) × (custom_of card ≡ none))
      ⊎ Converts card_id card pass (convert_entry card_id card pass)
unfolding convert_entry
convert_entry-cases card_id card pass = elim (Option-cases (custom_of card)) [
  | inl plain ↦ inl (rw (plain, convert_entry) refl, plain)
  | inr (custom, own) ↦
      inr (rw (own, convert_entry) (use_command-Converts card_id card custom pass))
]

plain-Pending :
    (card_id : Text) (card : Card) (entries cards : Dict Card)
    → custom_of card ≡ none
    → Pending ((card_id, card) ∷ entries) cards
    → Pending entries cards
unfolding get
plain-Pending card_id card entries cards plain p =
    λ k other custom there own. ground (arith, p k other custom there own, eq_iff card_id k)

convert_entry-Pending :
    (card_id : Text) (card : Card) (entries : Dict Card) (pass : Pass)
    → Pending ((card_id, card) ∷ entries) pass.cards
    → Pending entries (convert_entry card_id card pass).cards
convert_entry-Pending card_id card entries pass p = elim (convert_entry-cases card_id card pass) [
  | inl (same, plain) ↦ rw same (plain-Pending card_id card entries pass.cards plain p)
  | inr c ↦ Converts-Pending card_id card entries pass (convert_entry card_id card pass) c p
]

convert_entry-IsDistinct :
    (card_id : Text) (card : Card) (pass : Pass)
    → IsDistinct pass.cards
    → IsDistinct (convert_entry card_id card pass).cards
convert_entry-IsDistinct card_id card pass d = elim (convert_entry-cases card_id card pass) [
  | inl (same, plain) ↦ rw same d
  | inr c ↦ subst IsDistinct (sym c.cards) (
      set-IsDistinct card_id (record card { command = c.command; custom_command = none }) pass.cards
        d)
]

convert_entry-commands :
    (card_id : Text) (card : Card) (pass : Pass)
    → pass.commands ≢ []
    → (convert_entry card_id card pass).commands ≢ []
convert_entry-commands card_id card pass ne = elim (convert_entry-cases card_id card pass) [
  | inl (same, plain) ↦ rw same ne
  | inr c ↦ subst (λ l. l ≢ []) (sym c.commands) (nonempty-append pass.commands c.added ne)
]

convert_entries-converted :
    (entries : Dict Card) (pass : Pass)
    → Pending entries pass.cards
    → (k : Text) (card : Card) → get k (convert_entries pass entries).cards ≡ some card
    → custom_of card ≡ none
unfolding convert_entries get
convert_entries-converted [] pass p k card there = elim (Option-cases (custom_of card)) [
  | inl plain ↦ plain
  | inr (custom, own) ↦ let e : none ≡ some card = p k card custom there own in absurd (cc)
]
convert_entries-converted ((id, c) ∷ entries) pass p k card there =
    convert_entries-converted entries (convert_entry id c pass)
      (convert_entry-Pending id c entries pass p) k card there

convert_entries-IsDistinct :
    (entries : Dict Card) (pass : Pass)
    → IsDistinct pass.cards
    → IsDistinct (convert_entries pass entries).cards
unfolding convert_entries
convert_entries-IsDistinct [] pass d = d
convert_entries-IsDistinct ((id, c) ∷ entries) pass d =
    convert_entries-IsDistinct entries (convert_entry id c pass)
      (convert_entry-IsDistinct id c pass d)

convert_entries-commands :
    (entries : Dict Card) (pass : Pass)
    → pass.commands ≢ []
    → (convert_entries pass entries).commands ≢ []
unfolding convert_entries
convert_entries-commands [] pass ne = ne
convert_entries-commands ((id, c) ∷ entries) pass ne =
    convert_entries-commands entries (convert_entry id c pass) (convert_entry-commands id c pass ne)

or_default-nonempty : (commands : List CommandDef) → or_default commands ≢ []
or_default-nonempty [] e = cc
or_default-nonempty (c ∷ commands) e = cc

pub has_done-ensure_done_column :
    (config : BoardConfig) → has_done (ensure_done_column config).columns ≡ true
unfolding ensure_done_column
has_done-ensure_done_column config = elim (Bool-cases (has_done config.columns)) [
  | inl there ↦ rw there there
  | inr missing ↦ rw missing (rw any-append (ground (arith, eq_refl col_done)))
]

pub ensure_commands-IsCurrent :
    (config : BoardConfig)
    → has_done config.columns ≡ true
    → IsDistinct config.cards
    → IsCurrent (ensure_commands config)
unfolding ensure_commands
ensure_commands-IsCurrent config done d =
    let first : Pass = record { commands = or_default config.commands; cards = config.cards } in
    record {
      done = done;
      commands = convert_entries-commands config.cards first (or_default-nonempty config.commands);
      distinct = convert_entries-IsDistinct config.cards first d;
      converted = convert_entries-converted config.cards first (λ k card custom there own. there);
    }
