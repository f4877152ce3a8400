-- ===== src/State/Migrate/Current.antt =====
-- What holds of a migrated board.
use tukan.Prelude.{ℕ, ◌≡◌, ◌≢◌, refl, ap, ◌∙◌, none, some, List, [], ◌∷◌, arith, All, or_else}
use tukan.Text.{Text}
use tukan.Text.Equality.{eq_iff, eq_refl}
use tukan.Dict.{Dict, get, set, IsDistinct}
use tukan.Dict.Laws.{set-IsDistinct}
use tukan.Board.{Card, BoardConfig, CommandDef}
use tukan.State.Migrate.{
  RawBoard, unified, split_up, VirtualCard, CardMeta, saved, ensure_done_column, Pass, custom_of,
  convert_entry, convert_entries, or_default, ensure_commands, card_of_virtual, add_virtual_cards,
  card_of_assignment, add_assignments, migrate_config,
}
use tukan.State.Migrate.Entries.{IsCurrent, ensure_commands-IsCurrent, has_done-ensure_done_column}

-- No id stands twice in the `cards` of the JSON.
abbrev pub HasDistinctCards : RawBoard → Type 0
HasDistinctCards (unified columns cards commands idle_timeout_ms) = IsDistinct cards
HasDistinctCards (split_up columns virtual_cards assignments card_meta) = Unit

add_virtual_cards-IsDistinct :
    (now : ℕ) (cards : Dict Card) (vcs : List VirtualCard)
    → IsDistinct cards
    → IsDistinct (add_virtual_cards now cards vcs)
unfolding add_virtual_cards
add_virtual_cards-IsDistinct now cards [] d = d
add_virtual_cards-IsDistinct now cards (vc ∷ vcs) d =
    add_virtual_cards-IsDistinct now (set vc.id (card_of_virtual now vc) cards) vcs
      (set-IsDistinct vc.id (card_of_virtual now vc) cards d)

add_assignments-IsDistinct :
    (now : ℕ) (uuid : Text → Text) (card_meta : Dict CardMeta) (cards : Dict Card)
    (assignments : Dict Text)
    → IsDistinct cards
    → IsDistinct (add_assignments now uuid card_meta cards assignments)
unfolding add_assignments
add_assignments-IsDistinct now uuid card_meta cards [] d = d
add_assignments-IsDistinct now uuid card_meta cards ((w, column_id) ∷ assignments) d =
    let card = card_of_assignment now (uuid w) w column_id (get w card_meta) in
    add_assignments-IsDistinct now uuid card_meta (set (uuid w) card cards) assignments
      (set-IsDistinct (uuid w) card cards d)

cards-ensure_done_column : (config : BoardConfig) → (ensure_done_column config).cards ≡ config.cards
unfolding ensure_done_column
cards-ensure_done_column config = ground arith

ensured-IsCurrent :
    (config : BoardConfig)
    → IsDistinct config.cards
    → IsCurrent (ensure_commands (ensure_done_column config))
ensured-IsCurrent config d =
    ensure_commands-IsCurrent (ensure_done_column config) (has_done-ensure_done_column config)
      (rw (cards-ensure_done_column config) d)

-- Whatever the format of the board that was read, if no id of its `cards` stands twice: the migrated
-- board has the Done column and at least one command, no id of a card stands twice, and no card has
-- a command text of its own under the command "custom".
pub migrate_config-IsCurrent :
    (now : ℕ) (uuid : Text → Text) (raw : RawBoard)
    → HasDistinctCards raw
    → IsCurrent (migrate_config now uuid raw)
unfolding migrate_config
migrate_config-IsCurrent now uuid (unified columns cards commands idle_timeout_ms) d =
    ensured-IsCurrent _ d
migrate_config-IsCurrent now uuid (split_up columns virtual_cards assignments card_meta) d =
    ensured-IsCurrent _ (
      add_assignments-IsDistinct now uuid (or_else card_meta [])
        (add_virtual_cards now [] (or_else virtual_cards [])) (or_else assignments [])
        (add_virtual_cards-IsDistinct now [] (or_else virtual_cards []) tt))

abbrev IsPlain : Text × Card → Type 0
IsPlain e = custom_of e.1 ≡ none

All-IsPlain :
    (cards : Dict Card)
    → IsDistinct cards
    → ((k : Text) (card : Card) → get k cards ≡ some card → custom_of card ≡ none)
    → All IsPlain cards
unfolding get
All-IsPlain [] d h = tt
All-IsPlain ((id, card) ∷ cards) (fresh, d) h = (
  h id card (rw (eq_refl id) refl),
  All-IsPlain cards d (λ k c there. h k c (ground (arith, eq_iff id k))),
)

convert_entry_plain :
    (id : Text) (card : Card) (pass : Pass)
    → custom_of card ≡ none
    → convert_entry id card pass ≡ pass
unfolding convert_entry
convert_entry_plain id card pass h = rw (h, convert_entry) refl

convert_entries_plain :
    (pass : Pass) (entries : Dict Card) → All IsPlain entries → convert_entries pass entries ≡ pass
unfolding convert_entries
convert_entries_plain pass [] h = refl
convert_entries_plain pass ((id, card) ∷ entries) (plain, h) =
    ap (λ p. convert_entries p entries) (convert_entry_plain id card pass plain)
    ∙ convert_entries_plain pass entries h

or_default_self : (commands : List CommandDef) → commands ≢ [] → or_default commands ≡ commands
or_default_self [] ne = absurd (ne refl)
or_default_self (c ∷ commands) ne = refl

ensure_commands_self : (config : BoardConfig) → IsCurrent config → ensure_commands config ≡ config
unfolding ensure_commands
ensure_commands_self config h =
    let first : Pass = record { commands = or_default config.commands; cards = config.cards } in
    ap (λ (p : Pass). record config { commands = p.commands; cards = p.cards })
      (convert_entries_plain first config.cards (All-IsPlain config.cards h.distinct h.converted))
    ∙ ap (λ l. record config { commands = l }) (or_default_self config.commands h.commands)

ensure_done_column_self :
    (config : BoardConfig) → IsCurrent config → ensure_done_column config ≡ config
unfolding ensure_done_column
ensure_done_column_self config h = rw h.done refl

-- A board of the present format, written and read again, is itself: migrating changes nothing.
pub migrate_config-saved :
    (now : ℕ) (uuid : Text → Text) (config : BoardConfig)
    → IsCurrent config
    → migrate_config now uuid (saved config) ≡ config
unfolding migrate_config
migrate_config-saved now uuid config h =
    ap ensure_commands (ensure_done_column_self config h) ∙ ensure_commands_self config h

-- Migrating a second time, after the migrated board is written and read, changes nothing, if no id of
-- the `cards` that were read first stands twice.
pub migrate_config_idempotent :
    (now later : ℕ) (uuid uuid' : Text → Text) (raw : RawBoard)
    → HasDistinctCards raw
    → migrate_config later uuid' (saved (migrate_config now uuid raw)) ≡ migrate_config now uuid raw
migrate_config_idempotent now later uuid uuid' raw d =
    migrate_config-saved later uuid' (migrate_config now uuid raw)
      (migrate_config-IsCurrent now uuid raw d)
