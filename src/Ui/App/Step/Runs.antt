-- ===== src/Ui/App/Step/Runs.antt =====
-- Runs of events, and how a modal is left.
use tukan.Prelude.{
  ◌≡◌, refl, ap, sym, subst, ◌∙◌, inl, inr, none, some, List, [], ◌∷◌, arith, Option-cases,
  Bool-cases, All,
}
use tukan.Text.{Text, ◌==◌}
use tukan.Dict.{Dict, get, without, IsDistinct}
use tukan.Dict.Extension.{map_values, map_values-IsDistinct}
use tukan.Board.{Card, BoardConfig}
use tukan.Board.CardOps.Laws.{IsWellFormed, write, write-IsWellFormed}
use tukan.Ui.Keys.{Key, escape_key}
use tukan.Ui.App.{
  Modal, create, quick_shell, settings, help, confirm_resolve, confirm_remove, confirm_start,
  start_form, edit, AppState, Env, Effect,
}
use tukan.Ui.App.Press.{press_board}
use tukan.Ui.App.Confirm.{
  press_confirm_resolve, press_confirm_remove, press_confirm_start, press_help,
}
use tukan.Ui.App.Step.{
  Event, resolve_ended, key_pressed, form_cancelled, press, press_modal, cancel, when_open, step,
  run,
}
use tukan.Ui.App.Change.{Change, same, wrote, removed, arranged, mapped}
use tukan.Ui.App.Step.Changes.{basis, step-Change}

get-without_ne : (k j : Text) (d : Dict Card) → get j d ≡ none → get j (without k d) ≡ none
unfolding get without
get-without_ne k j [] h = refl
get-without_ne k j ((i, v) ∷ d) h = ground (arith, get-without_ne k j d)

without-IsWellFormed :
    (k : Text) (d : Dict Card)
    → IsDistinct d
    → All (λ e. e.1.id ≡ e.0) d
    → IsDistinct (without k d) × All (λ e. e.1.id ≡ e.0) (without k d)
unfolding get without
without-IsWellFormed k [] h o = (tt, tt)
without-IsWellFormed k ((i, v) ∷ d) (fresh, h) (own, o) = elim (Bool-cases (i == k)) [
  | inl gone ↦ rw gone (without-IsWellFormed k d h o)
  | inr stays ↦
      let (rest, owns) = without-IsWellFormed k d h o in
      rw stays ((get-without_ne k i d fresh, rest), (own, owns))
]

All-map_values :
    (f : Card → Card) (d : Dict Card)
    → ((card : Card) → (f card).id ≡ card.id)
    → All (λ e. e.1.id ≡ e.0) d
    → All (λ e. e.1.id ≡ e.0) (map_values f d)
unfolding map_values
All-map_values f [] h o = tt
All-map_values f ((i, v) ∷ d) h (own, o) = (h v ∙ own, All-map_values f d h o)

Change-IsWellFormed :
    (before after : BoardConfig) (effects : List Effect)
    → IsWellFormed before
    → Change before after effects
    → IsWellFormed after
Change-IsWellFormed before after effects ok (same e) = subst IsWellFormed (sym e) ok
Change-IsWellFormed before after effects ok (wrote id card own e k) =
    subst IsWellFormed (sym e) (unfold write in write-IsWellFormed id card before own ok)
Change-IsWellFormed before after effects ok (removed id e k) =
    let (distinct, owns) = without-IsWellFormed id before.cards ok.distinct ok.own_ids in
    subst IsWellFormed (sym e) (record { distinct = distinct; own_ids = owns })
Change-IsWellFormed before after effects ok (arranged columns commands e k) =
    subst IsWellFormed (sym e) (record { distinct = ok.distinct; own_ids = ok.own_ids })
Change-IsWellFormed before after effects ok (mapped f own e k) =
    subst IsWellFormed (sym e) (record {
      distinct = map_values-IsDistinct f before.cards ok.distinct;
      own_ids = All-map_values f before.cards own ok.own_ids;
    })

-- A resolve that ends began on a well-formed board.
abbrev pub BeganWellFormed : Event → Type 0
BeganWellFormed (resolve_ended bc seen) = IsWellFormed seen.config
BeganWellFormed _ = Unit

basis-IsWellFormed :
    (e : Event) (s : AppState)
    → BeganWellFormed e
    → IsWellFormed s.config
    → IsWellFormed (basis e s)
basis-IsWellFormed (resolve_ended bc seen) s began ok = began
basis-IsWellFormed _ s began ok = ok

module _ (hash : Text → Text) (capture : List Text → Dict Text) where
  step-IsWellFormed :
      (env : Env) (e : Event) (s t : AppState) (effects : List Effect)
      → BeganWellFormed e
      → IsWellFormed s.config
      → step hash capture env e s ≡ some (t, effects)
      → IsWellFormed t.config
  step-IsWellFormed env e s t effects began ok done =
      let start = basis-IsWellFormed e s began ok in
      elim (step-Change hash capture env e s t effects start done) [
        | inl stays ↦ subst IsWellFormed (sym stays) ok
        | inr change ↦ Change-IsWellFormed (basis e s) t.config effects start change
      ]

  -- From a well-formed board, every run of events leads to a well-formed board, whatever ids are drawn
  -- and whatever the world answers; also where a resolve that waited for git ends, which began on some
  -- well-formed board.
  pub run-IsWellFormed :
      (events : List (Env × Event)) (s s' : AppState)
      → All (λ (e : Env × Event). BeganWellFormed e.1) events
      → IsWellFormed s.config
      → run hash capture events s ≡ some s'
      → IsWellFormed s'.config
  unfolding run
  run-IsWellFormed [] s s' began ok h = subst (λ (t : AppState). IsWellFormed t.config) (last h) ok
    where
      last : some s ≡ some s' → s ≡ s'
      last e = cc
  run-IsWellFormed ((env, e) ∷ events) s s' (began, later) ok h =
      elim (Option-cases (step hash capture env e s)) [
        | inl threw ↦ absurd (cc (rw (threw, run) at h))
        | inr ((t, effects), done) ↦
            run-IsWellFormed events t s' later (step-IsWellFormed env e s t effects began ok done)
              (rw (done, run) at h)
      ]

-- The event that leaves a modal: the escape key, which the forms pass on as `onCancel`.
pub leaving : Modal → Event
leaving (confirm_resolve bc merge dirty) = key_pressed escape_key
leaving (confirm_remove bc) = key_pressed escape_key
leaving (confirm_start bc) = key_pressed escape_key
leaving help = key_pressed escape_key
leaving _ = form_cancelled

press_open :
    (env : Env) (key : Key) (s : AppState) (modal : Modal)
    → s.modal ≡ some modal
    → press env key s ≡ press_modal env key modal s
unfolding press
press_open env key s modal h =
    ap (λ o. elim o [ none ↦ press_board env key s | some m ↦ press_modal env key m s ]) h

-- Every modal can be left at once: its leaving event closes it, changes nothing else, and has no
-- effect.
pub step-leaving :
    (hash : Text → Text) (capture : List Text → Dict Text) (env : Env) (s : AppState)
    (modal : Modal)
    → s.modal ≡ some modal
    → step hash capture env (leaving modal) s ≡ some (record s { modal = none }, [])
unfolding step leaving press_modal press_confirm_resolve press_confirm_remove press_confirm_start
    press_help cancel ◌==◌
step-leaving hash capture env s (confirm_resolve bc merge dirty) h = press_open env escape_key s _ h
step-leaving hash capture env s (confirm_remove bc) h = press_open env escape_key s _ h
step-leaving hash capture env s (confirm_start bc) h = press_open env escape_key s _ h
step-leaving hash capture env s help h = press_open env escape_key s _ h
step-leaving hash capture env s create h = ap (λ o. when_open o cancel s) h
step-leaving hash capture env s quick_shell h = ap (λ o. when_open o cancel s) h
step-leaving hash capture env s settings h = ap (λ o. when_open o cancel s) h
step-leaving hash capture env s (start_form bc) h = ap (λ o. when_open o cancel s) h
step-leaving hash capture env s (edit bc) h = ap (λ o. when_open o cancel s) h
