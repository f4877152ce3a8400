-- ===== src/Ui/App/Race.antt =====
-- What happens to the board while `confirmResolve` waits for git.
use tukan.Prelude.{◌≡◌, ap, sym, ◌∙◌, Bool, Option, none, some, List, arith, if◌then◌else◌, or_else}
use tukan.Text.Equality.{eq_iff, eq_refl}
use tukan.Dict.{get}
use tukan.Dict.Laws.{get-set}
use tukan.Board.{Card, BoardConfig, Cursor}
use tukan.Board.Derive.{BoardCard}
use tukan.Ui.App.{AppState, Env, Effect, Outcome, with_card}
use tukan.Ui.App.Handlers.{FormValues, build_card_from_values, handle_create}
use tukan.Ui.App.Confirm.{finish_resolve, resolved, closed_with}

config-closed_with :
    (effects : List Effect) (cursor : Option Cursor) (t s' : AppState) (last : List Effect)
    → closed_with effects cursor t ≡ some (s', last)
    → s'.config ≡ t.config
config-closed_with effects none t s' last h = absurd (cc h)
config-closed_with effects (some cursor) t s' last h =
    sym (ap (λ (o : Outcome). (or_else o (t, effects)).0.config) h)

-- The configuration that a resolve leaves is made of the one that was there when it began.
config-finish_resolve :
    (env : Env) (bc : BoardCard) (merge : Bool) (seen s s' : AppState) (effects : List Effect)
    (card : Card)
    → get bc.card_id seen.config.cards ≡ some card
    → finish_resolve env bc merge seen s ≡ some (s', effects)
    → s'.config ≡ with_card bc.card_id (resolved env card) seen.config
unfolding finish_resolve
config-finish_resolve env bc merge seen s s' effects card stored h =
    config-closed_with _ _ _ s' effects (rw (stored, finish_resolve) at h)

-- A card that is created while a resolve waits for git, under a new id, is on the board and then lost:
-- the resolve of a stored card writes the configuration that it read before.
pub create-resolve_lost :
    (env env' : Env) (values : FormValues) (bc : BoardCard) (merge : Bool) (seen s' : AppState)
    (effects : List Effect) (card : Card)
    → get bc.card_id seen.config.cards ≡ some card
    → get env'.uuid seen.config.cards ≡ none
    → finish_resolve env bc merge seen (handle_create env' values seen).0 ≡ some (s', effects)
    → (get env'.uuid (handle_create env' values seen).0.config.cards
        ≡ some (build_card_from_values env' values seen))
      × (get env'.uuid s'.config.cards ≡ none)
unfolding handle_create build_card_from_values
create-resolve_lost env env' values bc merge seen s' effects card stored fresh h = (
  get-set env'.uuid env'.uuid (build_card_from_values env' values seen) seen.config.cards
      ∙ ap
          (λ b.
            if b
            then some (build_card_from_values env' values seen)
            else get env'.uuid seen.config.cards)
          (eq_refl env'.uuid),
  ap (λ (c : BoardConfig). get env'.uuid c.cards)
        (config-finish_resolve env bc merge seen (handle_create env' values seen).0 s' effects card
          stored h)
      ∙ ground (
        arith,
        get-set bc.card_id env'.uuid (resolved env card) seen.config.cards,
        eq_iff bc.card_id env'.uuid,
      ),
)
