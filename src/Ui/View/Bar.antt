-- ===== src/Ui/View/Bar.antt =====
-- src/ui/StatusBar.tsx: which key bindings the status bar shows.
use tukan.Prelude.{
  ℕ, ◌+◌, ◌-◌, ◌≤◌, ◌≡◌, refl, sym, ap, ◌∙◌, inl, inr, List, [], ◌∷◌, ◌++◌, arith, leb,
  if◌then◌else◌, Bool-cases, length, append_assoc, append-nil,
}
use tukan.Text.{Text, units}

pub record Binding : Type 0 where
  pub key : Text
  pub label : Text

-- the return sign and the arrows are outside ASCII
abbrev pub bindings : List Binding
bindings =
    record { key = units "n"; label = units "new" }
    ∷ record { key = units "s"; label = units "start" }
    ∷ record { key = 0x21b5 ∷ []; label = units "switch" }
    ∷ record { key = units "e"; label = units "edit" }
    ∷ record { key = units "r"; label = units "resolve" }
    ∷ record { key = units "h/l"; label = units "move" }
    ∷ record { key = units "q"; label = units "quit" }
    ∷ record { key = 0x2190 ∷ 0x2192 ∷ []; label = units "cols" }
    ∷ record { key = 0x2191 ∷ 0x2193 ∷ []; label = units "cards" }
    ∷ record { key = units "C"; label = units "shell" }
    ∷ record { key = units ","; label = units "settings" }
    ∷ []

abbrev pub binding_width : Binding → ℕ
binding_width b = length b.key + 1 + length b.label + 2

-- `visible` and `used`
pub record Fitted : Type 0 where
  pub visible : List Binding
  pub used : ℕ

abbrev pub add_if_fits : (available : ℕ) → Fitted → Binding → Fitted
add_if_fits available fitted b =
    if leb (fitted.used + binding_width b) available
    then record { visible = fitted.visible ++ b ∷ []; used = fitted.used + binding_width b }
    else fitted

unfoldable pub fit : (available : ℕ) → Fitted → List Binding → Fitted
fit available fitted [] = fitted
fit available fitted (b ∷ rest) = fit available (add_if_fits available fitted b) rest

-- The version of the program is read from package.json.
unfoldable pub brand_width : (version : Text) → ℕ
brand_width version = 2 + length (units " Tukan") + length (units " v" ++ version)

abbrev pub help_width : ℕ
help_width = length (units "? help  ")

-- A negative `available` shows nothing, as 0 does.
unfoldable pub visible_bindings : (version : Text) (width : ℕ) → List Binding
unfolding fit brand_width
visible_bindings version width =
    let start : Fitted = record { visible = []; used = 0 } in
    let fitted = fit (width - brand_width version - help_width) start bindings in fitted.visible

abbrev pub widths : List Binding → ℕ
widths [] = 0
widths (b ∷ bs) = binding_width b + widths bs

widths-snoc :
    (bs : List Binding) (b : Binding) → widths (bs ++ b ∷ []) ≡ widths bs + binding_width b
widths-snoc [] b = omega arith
widths-snoc (c ∷ bs) b = omega (arith, widths-snoc bs b)

-- `used` is what the bindings take, and they fit.
record IsFitted (available : ℕ) (fitted : Fitted) : Type 0 where
  counted : widths fitted.visible ≡ fitted.used
  within : fitted.used ≤ available

add_if_fits-IsFitted :
    (available : ℕ) (fitted : Fitted) (b : Binding)
    → IsFitted available fitted
    → IsFitted available (add_if_fits available fitted b)
add_if_fits-IsFitted available fitted b h =
    elim (Bool-cases (leb (fitted.used + binding_width b) available)) [
      | inl room ↦ rw room (record {
        counted = omega (arith, widths-snoc fitted.visible b, h.counted);
        within = ground arith;
      })
      | inr full ↦ rw full h
    ]

fit-IsFitted :
    (available : ℕ) (fitted : Fitted) (bs : List Binding)
    → IsFitted available fitted
    → IsFitted available (fit available fitted bs)
unfolding fit
fit-IsFitted available fitted [] h = h
fit-IsFitted available fitted (b ∷ rest) h =
    fit-IsFitted available (add_if_fits available fitted b) rest
      (add_if_fits-IsFitted available fitted b h)

add_if_fits-room :
    (available : ℕ) (fitted : Fitted) (b : Binding)
    → fitted.used + binding_width b ≤ available
    → ((add_if_fits available fitted b).visible ≡ fitted.visible ++ b ∷ [])
      × ((add_if_fits available fitted b).used ≡ fitted.used + binding_width b)
add_if_fits-room available fitted b h = (ground arith, ground arith)

-- where all of them fit, all are shown
fit-all :
    (available : ℕ) (fitted : Fitted) (bs : List Binding)
    → fitted.used + widths bs ≤ available
    → (fit available fitted bs).visible ≡ fitted.visible ++ bs
unfolding fit
fit-all available fitted [] h = sym (append-nil fitted.visible)
fit-all available fitted (b ∷ rest) h =
    let (shown, used) = add_if_fits-room available fitted b (omega arith) in
    fit-all available (add_if_fits available fitted b) rest (omega (arith, used))
    ∙ ap (λ v. v ++ rest) shown
    ∙ append_assoc fitted.visible (b ∷ []) rest

module _ (version : Text) (width : ℕ) where
  -- What the status bar shows fits into its width, if the brand and the help do.
  pub visible_bindings_fit :
      brand_width version + help_width ≤ width
      → brand_width version + help_width + widths (visible_bindings version width) ≤ width
  unfolding visible_bindings
  visible_bindings_fit h =
      let fitted =
        fit-IsFitted (width - brand_width version - help_width) (record { visible = []; used = 0 })
          bindings (record { counted = refl; within = omega arith }) in
      omega (arith, fitted.counted, fitted.within)

  -- Where the width has room for all bindings, all are shown.
  pub visible_bindings_all :
      brand_width version + help_width + widths bindings ≤ width
      → visible_bindings version width ≡ bindings
  unfolding visible_bindings
  visible_bindings_all room =
      fit-all (width - brand_width version - help_width) (record { visible = []; used = 0 })
        bindings (omega arith)
