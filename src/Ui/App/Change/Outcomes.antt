-- ===== src/Ui/App/Change/Outcomes.antt =====
-- The changes of the configuration, and the rules for the outcomes of handlers.
use tukan.Prelude.{
  ◌≡◌, ap, subst, or_else, ◌⊎◌, Bool, true, false, none, some, List, if◌then◌else◌, Has,
}
use tukan.Text.{Text}
use tukan.Dict.{get, without}
use tukan.Dict.Extension.{map_values}
use tukan.Dict.Laws.{All-get}
use tukan.Board.{Card, BoardConfig, ColumnDef, CommandDef}
use tukan.Board.CardOps.Laws.{IsWellFormed}
use tukan.State.{SessionState}
use tukan.Ui.App.{AppState, Effect, save, begin_start, Outcome, with_card}

-- A session with this configuration is among the effects.
pub record IsSaved (config : BoardConfig) (effects : List Effect) : Type 0 where
  pub session : SessionState
  pub board : session.board ≡ config
  pub among : Has (save session) effects

-- The card is the one whose start begins.
pub record IsStarting (card : Card) (effects : List Effect) : Type 0 where
  pub among : Has (begin_start card) effects

-- How the configuration after a handler comes from the one before: it is the same; or a card stands
-- under its id, and this is saved or the card is being started; or a card is gone, or the columns and
-- the commands are new, or each card has changed and kept its id, and this is saved.
pub data Change (before after : BoardConfig) (effects : List Effect) : Type 0 where
  same : after ≡ before → Change before after effects
  wrote :
      (id : Text) (card : Card)
      → card.id ≡ id
      → after ≡ with_card id card before
      → IsSaved after effects ⊎ IsStarting card effects
      → Change before after effects
  removed :
      (id : Text)
      → after ≡ record before { cards = without id before.cards }
      → IsSaved after effects
      → Change before after effects
  arranged :
      (columns : List ColumnDef) (commands : List CommandDef)
      → after ≡ record before { columns = columns; commands = commands }
      → IsSaved after effects
      → Change before after effects
  mapped :
      (f : Card → Card)
      → ((card : Card) → (f card).id ≡ card.id)
      → after ≡ record before { cards = map_values f before.cards }
      → IsSaved after effects
      → Change before after effects

-- What holds of the state and the effects of a handler, if it does not throw.
pub record Gives (Q : AppState → List Effect → Type 0) (o : Outcome) : Type 0 where
  pub holds : (s : AppState) (effects : List Effect) → o ≡ some (s, effects) → Q s effects

module _ (Q : AppState → List Effect → Type 0) where
  pub Gives-some :
      (s : AppState) (effects : List Effect) → Q s effects → Gives Q (some (s, effects))
  Gives-some s effects q = record {
    holds = λ t e h.
        subst (λ (p : AppState × List Effect). Q p.0 p.1) (ap (λ o. or_else o (s, effects)) h) q;
  }

  pub Gives-none : Gives Q none
  Gives-none = record { holds = λ t e h. absurd (cc h) }

  pub Gives-if : (b : Bool) {x y : Outcome} → Gives Q x → Gives Q y → Gives Q (if b then x else y)
  Gives-if true gx gy = gx
  Gives-if false gx gy = gy

pub own_id :
    (config : BoardConfig) (id : Text) (card : Card)
    → IsWellFormed config
    → get id config.cards ≡ some card
    → card.id ≡ id
own_id config id card ok stored =
    All-get (λ (e : Text × Card). e.1.id ≡ e.0) id card config.cards ok.own_ids stored
