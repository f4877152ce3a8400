-- ===== src/Cli/Context/Forgets.antt =====
-- What a refresh leaves of the runtime state.
use tukan.Prelude.{
  ℕ, ◌≡◌, refl, sym, ap, ap₂, ◌∙◌, inl, inr, Bool, true, none, some, [], ◌∷◌, Option, arith,
  Option-cases,
}
use tukan.Text.{Text, is_truthy}
use tukan.Dict.{Dict, get, IsDistinct}
use tukan.Dict.Extension.{map_values, get-map_values, map_values-IsDistinct}
use tukan.Board.{Card, BoardConfig}
use tukan.State.{SessionState}
use tukan.State.Migrate.{custom_of, migrate_config}
use tukan.State.Migrate.Entries.{IsCurrent}
use tukan.State.Store.{Files, no_runtime, read_session_state}
use tukan.State.Store.Laws.{read-write_session_state}
use tukan.Cli.Refresh.{refresh_session}
use tukan.Cli.Refresh.Laws.{advance, refresh_session-eq-advance}
use tukan.Cli.Context.{Context, last_change_times_of, save_config, refresh_context}

custom_of-advance :
    (now : ℕ) (times : Dict ℕ) (card : Card) → custom_of (advance now times card) ≡ custom_of card
unfolding advance
custom_of-advance now times card = ground arith

map_values-converted :
    (f : Card → Card) (cards : Dict Card)
    → ((card : Card) → custom_of (f card) ≡ custom_of card)
    → ((k : Text) (card : Card) → get k cards ≡ some card → custom_of card ≡ none)
    → (k : Text) (card : Card) → get k (map_values f cards) ≡ some card
    → custom_of card ≡ none
map_values-converted f cards same h k card there =
    let mapped = sym (get-map_values f cards k) ∙ there in
    elim (Option-cases (get k cards)) [
      | inl missing ↦ let e : none ≡ some card = rw missing at mapped in absurd (cc)
      | inr (c, e) ↦ ground (arith, mapped, e, h k c, same c)
    ]

refresh_session-IsCurrent :
    (now : ℕ) (times : Dict ℕ) (config : BoardConfig)
    → IsCurrent config
    → IsCurrent (refresh_session now times config)
refresh_session-IsCurrent now times config h =
    rw (refresh_session-eq-advance now times config h.distinct) (record {
      done = h.done;
      commands = h.commands;
      distinct = map_values-IsDistinct (advance now times) config.cards h.distinct;
      converted =
          map_values-converted (advance now times) config.cards (custom_of-advance now times)
            h.converted;
    })

advance_self : (now : ℕ) (card : Card) → advance now [] card ≡ card
unfolding advance get
advance_self now card = ground arith

-- Without any time of change no card moves.
map_values_self : (now : ℕ) (cards : Dict Card) → map_values (advance now []) cards ≡ cards
unfolding map_values
map_values_self now [] = refl
map_values_self now ((id, card) ∷ cards) =
    ap₂ (λ c rest. (id, c) ∷ rest) (advance_self now card) (map_values_self now cards)

refresh_session_self :
    (now : ℕ) (config : BoardConfig)
    → IsDistinct config.cards
    → refresh_session now [] config ≡ config
refresh_session_self now config d =
    refresh_session-eq-advance now [] config d
    ∙ ap (λ c. record config { cards = c }) (map_values_self now config.cards)

module _ (exists_dir : Text → Bool) (now : ℕ) (uuid : Text → Text) where
  -- In a directory that exists and for a board of the present format, the round of `refresh` saves
  -- the refreshed board without an error, and with it no runtime state: the session that is read
  -- afterwards has no times of change, and a later refresh of that board moves no card, however long
  -- its windows have been idle or active by then.
  pub refresh_context_forgets :
      (refreshed_at later : ℕ) (ctx : Context) (files : Files)
      → is_truthy ctx.working_dir ≡ true
      → exists_dir ctx.working_dir ≡ true
      → IsCurrent ctx.config
      → let run = read_session_state (migrate_config now uuid) exists_dir ctx.session_name none in
        let board = refresh_session refreshed_at (last_change_times_of (run files).0) ctx.config in
        (after : Files) × (refresh_context
            (migrate_config now uuid)
            exists_dir
            refreshed_at
            ctx
            files
          ≡ some after)
        × ((run after).0
            ≡ some
                (record { board = board; working_dir = ctx.working_dir; ephemeral = no_runtime }))
        × (refresh_session later (last_change_times_of (run after).0) board ≡ board)
  unfolding refresh_context save_config
  refresh_context_forgets refreshed_at later ctx files t e h =
      let run = read_session_state (migrate_config now uuid) exists_dir ctx.session_name none in
      let times = last_change_times_of (run files).0 in
      let board = refresh_session refreshed_at times ctx.config in
      let current = refresh_session-IsCurrent refreshed_at times ctx.config h in
      let session : SessionState = record {
        board = board;
        working_dir = ctx.working_dir;
        ephemeral = no_runtime;
      } in
      let (after, saved, back) =
        read-write_session_state exists_dir now uuid ctx.session_name none session (run files).1 t e
          current in
      let read = ap (λ (r : Option SessionState × Files). r.0) back in
      (
        after,
        saved,
        read,
        ap (λ s. refresh_session later (last_change_times_of s) board) read
            ∙ refresh_session_self later board current.distinct,
      )
