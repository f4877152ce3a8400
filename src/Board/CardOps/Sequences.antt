-- ===== src/Board/CardOps/Sequences.antt =====
-- Sequences of operations on cards.
use tukan.Prelude.{
  ℕ, ◌≡◌, refl, sym, ap, ◌∙◌, ◌≢◌, inl, inr, Option, none, some, arith, Option-cases, or_else,
}
use tukan.Text.{Text}
use tukan.Text.Equality.{eq_iff, eq_refl}
use tukan.Dict.{get}
use tukan.Board.{Card, BoardConfig}
use tukan.Board.CardOps.{EditCardFields, apply_fields, edit_card_in_config}
use tukan.Board.CardOps.Laws.{
  Update, start, stop, finish, edit, update, changed, write, update_missing, update_stored,
  get-write, get-update_ne, write-write_self, write-write_comm,
}

update-skips :
    (now later : ℕ) (id j : Text) (u v : Update) (config : BoardConfig)
    → id ≢ j
    → get id config.cards ≡ none
    → update later j v (update now id u config) ≡ update now id u (update later j v config)
update-skips now later id j u v config ne missing =
    let still = get-update_ne later j id v config (λ e. ne (sym e)) ∙ missing in
    ap (update later j v) (update_missing now id u config missing)
    ∙ sym (update_missing now id u (update later j v config) still)

update-both :
    (now later : ℕ) (id j : Text) (u v : Update) (config : BoardConfig) (card other : Card)
    → id ≢ j
    → get id config.cards ≡ some card
    → get j config.cards ≡ some other
    → update later j v (update now id u config)
      ≡ write j (changed later v other) (write id (changed now u card) config)
update-both now later id j u v config card other ne here there =
    ap (update later j v) (update_stored now id u config card here)
    ∙ update_stored later j v (write id (changed now u card) config) other
        (ground (arith, get-write id j (changed now u card) config, eq_iff id j))

-- Operations on two different cards commute, whatever they are and at whatever times they run.
pub update_comm :
    (now later : ℕ) (id j : Text) (u v : Update) (config : BoardConfig)
    → id ≢ j
    → update later j v (update now id u config) ≡ update now id u (update later j v config)
update_comm now later id j u v config ne = elim (Option-cases (get id config.cards)) [
  | inl missing ↦ update-skips now later id j u v config ne missing
  | inr (card, here) ↦ elim (Option-cases (get j config.cards)) [
    | inl missing ↦ sym (update-skips later now j id v u config (λ e. ne (sym e)) missing)
    | inr (other, there) ↦
        let cu = changed now u card in
        let cv = changed later v other in
        update-both now later id j u v config card other ne here there
        ∙ write-write_comm j id cv cu other card config (λ e. ne (sym e)) there here
        ∙ sym (update-both later now j id v u config other card (λ e. ne (sym e)) there here)
  ]
]

-- An operation after another on the same card is one write, of what the two make of the card.
update-update :
    (now later : ℕ) (id : Text) (u v w : Update) (config : BoardConfig)
    → ((card : Card) → changed later v (changed now u card) ≡ changed later w card)
    → update later id v (update now id u config) ≡ update later id w config
update-update now later id u v w config h = elim (Option-cases (get id config.cards)) [
  | inl missing ↦
      ap (update later id v) (update_missing now id u config missing)
      ∙ update_missing later id v config missing
      ∙ sym (update_missing later id w config missing)
  | inr (card, stored) ↦
      let cu = changed now u card in
      ap (update later id v) (update_stored now id u config card stored)
      ∙ update_stored later id v (write id cu config) cu
          (get-write id id cu config ∙ rw (eq_refl id))
      ∙ write-write_self id (changed later v cu) cu config
      ∙ ap (λ c. write id c config) (h card)
      ∙ sym (update_stored later id w config card stored)
]

-- Starting a card gives one result whether or not the card was started, stopped or resolved before.
pub start_absorbs :
    (now later : ℕ) (id window_id : Text) (u : Update) (config : BoardConfig)
    → ((fields : EditCardFields) → u ≢ edit fields)
    → update later id (start window_id) (update now id u config)
      ≡ update later id (start window_id) config
unfolding changed
start_absorbs now later id window_id u config life =
    update-update now later id u (start window_id) (start window_id) config (forgets u life)
  where
    forgets :
        (u : Update)
        → ((fields : EditCardFields) → u ≢ edit fields)
        → (card : Card)
        → changed later (start window_id) (changed now u card)
          ≡ changed later (start window_id) card
    forgets (start w) life card = refl
    forgets stop life card = refl
    forgets finish life card = refl
    forgets (edit fields) life card = absurd (life fields refl)

or_else_idem {ℓ} : {A : Type ℓ} (o : Option A) (a : A) → or_else o (or_else o a) ≡ or_else o a
or_else_idem none a = refl
or_else_idem (some b) a = refl

apply_fields_idem :
    (fields : EditCardFields) (card : Card)
    → apply_fields fields (apply_fields fields card) ≡ apply_fields fields card
unfolding apply_fields
apply_fields_idem fields card = ground arith

-- Editing a card twice with the same fields is editing it once.
pub edit_idempotent :
    (id : Text) (fields : EditCardFields) (config : BoardConfig)
    → edit_card_in_config (edit_card_in_config config id fields) id fields
      ≡ edit_card_in_config config id fields
unfolding update changed
edit_idempotent id fields config =
    update-update 0 0 id (edit fields) (edit fields) (edit fields) config (apply_fields_idem fields)
