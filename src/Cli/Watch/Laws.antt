-- ===== src/Cli/Watch/Laws.antt =====
-- The stream of events of a watched pane.
use tukan.Prelude.{
  ℕ, ◌+◌, ◌-◌, ◌≤◌, ◌≡◌, ◌≢◌, subst, ◌++◌, All, List-cases, refl, sym, ap, ◌∙◌, inl, inr, true,
  false, List, [], ◌∷◌, map, arith, leb, if◌then◌else◌, Bool-cases,
}
use tukan.Text.{Text, ◌==◌, trim, split, join, is_truthy}
use tukan.Text.Equality.{eq_iff}
use tukan.Cli.Watch.{
  drop_blank_end, strip_trailing_blanks, ExitReason, window_closed, interrupted, start, snapshot,
  idle, closed, Output, json, Poll, aborted, gone, content, WatchState, observe, watch_loop,
  watch_card_pane,
}

-- The events after the start, told from the time of the last change: a snapshot sets that time, an
-- idle event says how long ago it was and is not sent before the timeout, and an event that closes
-- the stream is its last; no start and no plain line comes again.
pub data Paced (idle_timeout_ms : ℕ) : ℕ → List Output → Type 0 where
  running : {last : ℕ} → Paced idle_timeout_ms last []
  ended :
      {last : ℕ} (reason : ExitReason) (timestamp : ℕ)
      → Paced idle_timeout_ms last (json (closed reason timestamp) ∷ [])
  changed :
      {last : ℕ} {out : List Output} (shown : Text) (now : ℕ)
      → Paced idle_timeout_ms now out
      → Paced idle_timeout_ms last (json (snapshot shown now) ∷ out)
  waited :
      {last : ℕ} {out : List Output} (idle_ms now : ℕ)
      → last + idle_ms ≡ now
      → idle_timeout_ms ≤ idle_ms
      → Paced idle_timeout_ms last out
      → Paced idle_timeout_ms last (json (idle idle_ms now) ∷ out)

module _ (hash : Text → Text) (idle_timeout_ms : ℕ) where
  observe-idle :
      (s : WatchState) (raw : Text) (now : ℕ)
      → (hash raw == s.prev_hash) ≡ true
      → leb (s.last_change_at + idle_timeout_ms) now ≡ true
      → observe hash true idle_timeout_ms s raw now
        ≡ (s, json (idle (now - s.last_change_at) now) ∷ [])
  unfolding observe
  observe-idle s raw now same late = rw same (rw late refl)

  observe-quiet :
      (s : WatchState) (raw : Text) (now : ℕ)
      → (hash raw == s.prev_hash) ≡ true
      → leb (s.last_change_at + idle_timeout_ms) now ≡ false
      → observe hash true idle_timeout_ms s raw now ≡ (s, [])
  unfolding observe
  observe-quiet s raw now same early = rw same (rw early refl)

  observe-changed :
      (s : WatchState) (raw : Text) (now : ℕ)
      → (hash raw == s.prev_hash) ≡ false
      → observe hash true idle_timeout_ms s raw now ≡ (
        record {
          prev_hash = hash raw;
          emitted_snapshot = s.emitted_snapshot;
          last_change_at = now;
        },
        json (snapshot (strip_trailing_blanks raw) now) ∷ [],
      )
  unfolding observe
  observe-changed s raw now other = rw other refl

  watch_loop-Paced :
      (s : WatchState) (polls : List Poll)
      → Paced idle_timeout_ms s.last_change_at (watch_loop hash true idle_timeout_ms s polls)
  unfolding watch_loop
  watch_loop-Paced s [] = running
  watch_loop-Paced s (aborted t ∷ polls) = ended interrupted t
  watch_loop-Paced s (gone t ∷ polls) = ended window_closed t
  watch_loop-Paced s (content raw now ∷ polls) = elim (Bool-cases (hash raw == s.prev_hash)) [
    | inl same ↦ elim (Bool-cases (leb (s.last_change_at + idle_timeout_ms) now)) [
      | inl late ↦ rw (observe-idle s raw now same late) (
          waited (now - s.last_change_at) now (ground arith) (ground arith)
            (watch_loop-Paced s polls))
      | inr early ↦ rw (observe-quiet s raw now same early) (watch_loop-Paced s polls)
    ]
    | inr other ↦
        let next : WatchState = record {
          prev_hash = hash raw;
          emitted_snapshot = s.emitted_snapshot;
          last_change_at = now;
        } in
        rw (observe-changed s raw now other)
          (changed (strip_trailing_blanks raw) now (watch_loop-Paced next polls))
  ]

  -- With JSON output, whatever the pane does and however the watch ends, the stream starts with one
  -- start event and goes on well paced: each idle event is sent at least the timeout after the last
  -- snapshot (or the start) and says how long that is, and nothing follows a closing event.
  pub watch_card_pane-Paced :
      (now : ℕ) (polls : List Poll)
      → (out : List Output) × (watch_card_pane hash true idle_timeout_ms now polls
          ≡ json (start now) ∷ out)
        × Paced idle_timeout_ms now out
  unfolding watch_card_pane
  watch_card_pane-Paced now polls =
      let s : WatchState = record {
        prev_hash = [];
        emitted_snapshot = false;
        last_change_at = now;
      } in
      (watch_loop hash true idle_timeout_ms s polls, refl, watch_loop-Paced s polls)

-- The contents that the loop reads before it ends.
abbrev pub contents : List Poll → List Text
contents [] = []
contents (content raw now ∷ polls) = raw ∷ contents polls
contents (_ ∷ polls) = []

-- The contents at which the digest differs from that of the one before, the first among them if its
-- digest is not the starting one.
abbrev pub changes : (Text → Text) → Text → List Text → List Text
changes hash prev [] = []
changes hash prev (raw ∷ raws) =
    let rest = changes hash (hash raw) raws in if hash raw == prev then rest else raw ∷ rest

abbrev pub snapshots : List Output → List Text
snapshots [] = []
snapshots (json (snapshot shown now) ∷ out) = shown ∷ snapshots out
snapshots (_ ∷ out) = snapshots out

-- A line of nothing but spaces.
abbrev pub IsBlank : Text → Type 0
IsBlank line = trim line ≡ []

abbrev pub EndsInText : List Text → Type 0
EndsInText [] = Unit
EndsInText (line ∷ []) = trim line ≢ []
EndsInText (line ∷ next ∷ lines) = EndsInText (next ∷ lines)

-- `shown` has the lines of `raw` up to the last one that is not blank.
pub record IsStripped (raw shown : Text) : Type 0 where
  pub kept : List Text
  pub rest : List Text
  pub lines : split 10 raw ≡ kept ++ rest
  pub blank : All IsBlank rest
  pub last : EndsInText kept
  pub joined : shown ≡ join (10 ∷ []) kept

split_end :
    (lines : List Text)
    → (rest : List Text) × (lines ≡ drop_blank_end lines ++ rest)
      × All IsBlank rest
      × EndsInText (drop_blank_end lines)
unfolding drop_blank_end
split_end [] = ([], refl, tt, tt)
split_end (line ∷ lines) =
    let (rest, whole, blank, last) = split_end lines in
    put (drop_blank_end lines) rest whole blank last
  where
    put :
        (kept rest : List Text)
        → lines ≡ kept ++ rest
        → All IsBlank rest
        → EndsInText kept
        → let all : List Text = elim kept [
          | [] ↦ if is_truthy (trim line) then line ∷ [] else []
          | l ∷ ls ↦ line ∷ l ∷ ls
        ] in
          (r : List Text) × (line ∷ lines ≡ all ++ r) × All IsBlank r × EndsInText all
    put (l ∷ ls) rest whole blank last = (rest, ap (λ x. line ∷ x) whole, blank, last)
    put [] rest whole blank last = elim (List-cases (trim line)) [
      | inl empty ↦ rw empty (line ∷ rest, ap (λ x. line ∷ x) whole, (empty, blank), tt)
      | inr (c, s, e) ↦ rw e (rest, ap (λ x. line ∷ x) whole, blank, λ n. absurd (cc (sym e ∙ n)))
    ]

strip_trailing_blanks-IsStripped : (raw : Text) → IsStripped raw (strip_trailing_blanks raw)
unfolding strip_trailing_blanks
strip_trailing_blanks-IsStripped raw =
    let (rest, whole, blank, last) = split_end (split 10 raw) in
    record {
      kept = drop_blank_end (split 10 raw);
      rest = rest;
      lines = whole;
      blank = blank;
      last = last;
      joined = refl;
    }

-- Each text of the second list is the stripped one of the first.
abbrev pub AreStripped : (raws shown : List Text) → Type 0
AreStripped [] [] = Unit
AreStripped [] (s ∷ shown) = ⊥
AreStripped (raw ∷ raws) [] = ⊥
AreStripped (raw ∷ raws) (s ∷ shown) = IsStripped raw s × AreStripped raws shown

map-AreStripped : (raws : List Text) → AreStripped raws (map strip_trailing_blanks raws)
map-AreStripped [] = tt
map-AreStripped (raw ∷ raws) = (strip_trailing_blanks-IsStripped raw, map-AreStripped raws)

module _ (hash : Text → Text) (idle_timeout_ms : ℕ) where
  snapshots-watch_loop :
      (s : WatchState) (polls : List Poll)
      → snapshots (watch_loop hash true idle_timeout_ms s polls)
        ≡ map strip_trailing_blanks (changes hash s.prev_hash (contents polls))
  unfolding watch_loop
  snapshots-watch_loop s [] = refl
  snapshots-watch_loop s (aborted t ∷ polls) = refl
  snapshots-watch_loop s (gone t ∷ polls) = refl
  snapshots-watch_loop s (content raw now ∷ polls) = elim (Bool-cases (hash raw == s.prev_hash)) [
    | inl same ↦
        let e = (eq_iff (hash raw) s.prev_hash).0 same in
        let ih =
          snapshots-watch_loop s polls
          ∙ ap (λ h. map strip_trailing_blanks (changes hash h (contents polls))) (sym e) in
        elim (Bool-cases (leb (s.last_change_at + idle_timeout_ms) now)) [
          | inl late ↦ rw (observe-idle hash idle_timeout_ms s raw now same late) (rw same ih)
          | inr early ↦ rw (observe-quiet hash idle_timeout_ms s raw now same early) (rw same ih)
        ]
    | inr other ↦
        let next : WatchState = record {
          prev_hash = hash raw;
          emitted_snapshot = s.emitted_snapshot;
          last_change_at = now;
        } in
        rw (observe-changed hash idle_timeout_ms s raw now other)
          (rw other (ap (λ r. strip_trailing_blanks raw ∷ r) (snapshots-watch_loop next polls)))
  ]

  -- With JSON output the snapshots are the contents of the pane at which its digest changes, each once
  -- and in order, without their trailing blank lines: the lines up to the last that is not blank.
  pub snapshots-watch_card_pane :
      (now : ℕ) (polls : List Poll)
      → AreStripped
          (changes hash [] (contents polls))
          (snapshots (watch_card_pane hash true idle_timeout_ms now polls))
  unfolding watch_card_pane
  snapshots-watch_card_pane now polls =
      subst (AreStripped (changes hash [] (contents polls)))
        (sym (
          snapshots-watch_loop
            (record { prev_hash = []; emitted_snapshot = false; last_change_at = now }) polls))
        (map-AreStripped (changes hash [] (contents polls)))
