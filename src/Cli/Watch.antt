-- ===== src/Cli/Watch.antt =====
-- src/cli.ts, `watchCardPane`: the events of a watched pane, poll by poll.
pub mod Laws
use tukan.Prelude.{
  ℕ, ◌+◌, ◌-◌, Bool, true, false, not, Option, none, some, List, [], ◌∷◌, ◌++◌, leb, if◌then◌else◌,
}
use tukan.Text.{Text, units, ◌==◌, trim, split, join, is_truthy}

-- `checkIdle`: `now - lastChangeAt` may be negative in the program, and is then below the timeout.
unfoldable pub check_idle : (last_change_at now idle_timeout_ms : ℕ) → Option ℕ
check_idle last_change_at now idle_timeout_ms =
    if leb (last_change_at + idle_timeout_ms) now then some (now - last_change_at) else none

-- the lines without the blank ones at the end
unfoldable pub drop_blank_end : List Text → List Text
drop_blank_end [] = []
drop_blank_end (line ∷ lines) = elim (drop_blank_end lines) [
  | [] ↦ if is_truthy (trim line) then line ∷ [] else []
  | l ∷ ls ↦ line ∷ l ∷ ls
]

unfoldable pub strip_trailing_blanks : Text → Text
unfolding drop_blank_end
strip_trailing_blanks raw = join (10 ∷ []) (drop_blank_end (split 10 raw))

pub data ExitReason : Type 0 where
  window_closed interrupted : ExitReason

-- The card and window ids and the name, which every event repeats, are left out.
pub data Event : Type 0 where
  start : ℕ → Event
  snapshot : (content : Text) (timestamp : ℕ) → Event
  idle : (idle_ms timestamp : ℕ) → Event
  closed : ExitReason → ℕ → Event

pub data Output : Type 0 where
  json : Event → Output
  line : Text → Output

-- What the loop meets: a signal at its head, a failed capture, or the content of the pane; each with
-- the time that is read then.
pub data Poll : Type 0 where
  aborted : ℕ → Poll
  gone : ℕ → Poll
  content : Text → ℕ → Poll

pub record WatchState : Type 0 where
  pub prev_hash : Text
  pub emitted_snapshot : Bool
  pub last_change_at : ℕ

abbrev pub close : Bool → ExitReason → ℕ → List Output
close true reason timestamp = json (closed reason timestamp) ∷ []
close false window_closed timestamp = line (units "--- closed ---") ∷ []
close false interrupted timestamp = []

abbrev emit_idle : Option ℕ → ℕ → List Output
emit_idle none timestamp = []
emit_idle (some idle_ms) timestamp = json (idle idle_ms timestamp) ∷ []

-- `hash` is the digest of `hashContent`.
module _ (hash : Text → Text) (as_json : Bool) (idle_timeout_ms : ℕ) where
  -- one round with the content of the pane
  unfoldable pub observe : WatchState → Text → ℕ → WatchState × List Output
  unfolding check_idle
  observe s raw now =
      if not (hash raw == s.prev_hash)
      then (
        record {
          prev_hash = hash raw;
          emitted_snapshot = if as_json then s.emitted_snapshot else true;
          last_change_at = now;
        },
        if as_json
            then json (snapshot (strip_trailing_blanks raw) now) ∷ []
            else (if s.emitted_snapshot then line (units "---") ∷ [] else [])
              ++ line (strip_trailing_blanks raw) ∷ [],
      )
      else (
        s,
        if as_json then emit_idle (check_idle s.last_change_at now idle_timeout_ms) now else [],
      )

  -- the `while` loop over the polls that it makes
  unfoldable pub watch_loop : WatchState → List Poll → List Output
  unfolding observe
  watch_loop s [] = []
  watch_loop s (aborted timestamp ∷ polls) = close as_json interrupted timestamp
  watch_loop s (gone timestamp ∷ polls) = close as_json window_closed timestamp
  watch_loop s (content raw now ∷ polls) =
      let (s', out) = observe s raw now in out ++ watch_loop s' polls

  unfoldable pub watch_card_pane : ℕ → List Poll → List Output
  unfolding watch_loop
  watch_card_pane now polls =
      (if as_json then json (start now) ∷ [] else [])
      ++ watch_loop (record { prev_hash = []; emitted_snapshot = false; last_change_at = now })
          polls
