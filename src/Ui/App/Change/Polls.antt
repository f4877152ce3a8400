-- ===== src/Ui/App/Change/Polls.antt =====
-- What a poll does to the configuration.
use tukan.Prelude.{
  ℕ, refl, inl, inr, ◌||◌, some, List, [], ◌∷◌, ◌++◌, map, if◌then◌else◌, Bool-cases, Has-behind,
  Has-map,
}
use tukan.Text.{Text}
use tukan.Dict.{Dict}
use tukan.Board.{BoardConfig}
use tukan.Board.Activity.{
  get_idle_promotions, get_review_demotions, idle_promote_ms, ActivityMap, PaneHashMap,
}
use tukan.Board.CardOps.Laws.{IsWellFormed}
use tukan.Cli.Refresh.{move_cards, is_nonempty}
use tukan.State.{SessionState}
use tukan.Ui.Poll.{scan_server, state_to_save, poll_panes, poll}
use tukan.Ui.Poll.Laws.{expected_move, move_cards-expected, id-expected_move}
use tukan.Ui.App.{AppState, Env, save}
use tukan.Ui.App.Step.{poll_step}
use tukan.Ui.App.Change.Outcomes.{Change, same, mapped, Gives, Gives-some}

-- The moves of a poll, saved if there are any.
moves-Change :
    (now : ℕ) (times : Dict ℕ) (windows : List Text) (config : BoardConfig) (working_dir : Text)
    (activity : ActivityMap) (hashes : PaneHashMap) (front : List SessionState)
    → IsWellFormed config
    → let promotions = get_idle_promotions config.cards times now idle_promote_ms in
      let demotions = get_review_demotions config.cards windows in
      let after = move_cards promotions demotions config in
      Change config after (
        map save (
          front
          ++ (if is_nonempty promotions || is_nonempty demotions
              then state_to_save working_dir activity hashes after ∷ []
              else [])))
unfolding state_to_save
moves-Change now times windows config working_dir activity hashes front ok =
    let promotions = get_idle_promotions config.cards times now idle_promote_ms in
    let demotions = get_review_demotions config.cards windows in
    let after = move_cards promotions demotions config in
    elim (Bool-cases (is_nonempty promotions || is_nonempty demotions)) [
      | inl some_moves ↦ rw some_moves (
          mapped (expected_move now times windows) (id-expected_move now times windows)
            (move_cards-expected now times windows config ok.distinct)
            (record {
              session = state_to_save working_dir activity hashes after;
              board = refl;
              among =
                  Has-map save (front ++ state_to_save working_dir activity hashes after ∷ []) _
                    (Has-behind front _ _ (inl refl));
            }))
      | inr no_moves ↦ same (unfold move_cards in rw no_moves refl)
    ]

module _ (hash : Text → Text) (capture : List Text → Dict Text) where
  pub poll_step-Ok :
      (env : Env) (s : AppState)
      → IsWellFormed s.config
      → Gives
          (λ s' effects. Change s.config s'.config effects)
          (some (poll_step hash capture env s))
  unfolding poll_step poll poll_panes
  poll_step-Ok env s ok =
      let scan = scan_server env.self_pane_id s.tmux in
      elim (Bool-cases (is_nonempty scan.pane_ids)) [
        | inl found ↦
            rw (found, poll_step)
              (Gives-some _ _ _
                (moves-Change env.now _ _ s.config env.working_dir s.activity _ _ ok))
        | inr none_found ↦ rw (none_found, poll_step) (Gives-some _ _ _ (same refl))
      ]
