-- ===== src/LoopGuard/Defs.antt =====
-- src/webhook/loop_guard.py: the senders and `BotInteractionLimiter`. A time is a number of
-- microseconds; `t <= now - 3600` is written `t + 3600 s ≤ now`. The dictionary is the list of its
-- entries in the order of insertion.
use scamanager.Prelude.{
  ℕ, ◌+◌, String, Option, none, some, Bool, true, false, not, ◌&&◌, ◌||◌, List, [], ◌∷◌, ◌++◌,
  filter, find?, any, length, update_where, leb, str_eq, if◌then◌else◌,
}

-- `sender`; an absent login is "".
pub record Sender : Type 0 where
  pub kind : Option String
  pub login : String

abbrev pub is_whitelisted : String → Bool
is_whitelisted login = str_eq login "github-actions[bot]" || str_eq login "dependabot[bot]"

abbrev pub is_bot : Option String → Bool
is_bot none = false
is_bot (some kind) = str_eq kind "Bot"

unfoldable pub is_bot_sender : Option Sender → Bool
is_bot_sender none = false
is_bot_sender (some s) = if is_bot s.kind then not (is_whitelisted s.login) else false

unfoldable pub is_whitelisted_bot : Option Sender → Bool
is_whitelisted_bot none = false
is_whitelisted_bot (some s) = if is_bot s.kind then is_whitelisted s.login else false

abbrev pub window_size : ℕ
window_size = 3600000000

abbrev pub max_tracked_repos : ℕ
max_tracked_repos = 4096

abbrev pub max_bot_events_per_hour : ℕ
max_bot_events_per_hour = 6

-- An entry of `_events`.
pub record Tracked : Type 0 where
  pub repo : String
  pub window : List ℕ

abbrev pub is_of : String → Tracked → Bool
is_of repo k = str_eq k.repo repo

-- At or before the cutoff.
abbrev pub is_old : ℕ → ℕ → Bool
is_old now t = leb (t + window_size) now

-- `while window and window[0] <= cutoff: window.popleft()`.
unfoldable pub drop_old : ℕ → List ℕ → List ℕ
drop_old now [] = []
drop_old now (t ∷ ts) = let rest = drop_old now ts in if is_old now t then rest else t ∷ ts

-- `not w or w[-1] <= cutoff`.
abbrev pub is_stale_window : ℕ → List ℕ → Bool
is_stale_window now [] = true
is_stale_window now (t ∷ []) = is_old now t
is_stale_window now (t ∷ u ∷ ts) = is_stale_window now (u ∷ ts)

-- The oldest keys go until there are fewer than the cap.
unfoldable pub drop_oldest : List Tracked → List Tracked
drop_oldest [] = []
drop_oldest (k ∷ events) =
    let rest = drop_oldest events in
    if leb max_tracked_repos (length (k ∷ events)) then rest else k ∷ events

unfoldable pub evict_stale_keys : ℕ → List Tracked → List Tracked
unfolding drop_oldest
evict_stale_keys now events = drop_oldest (filter (λ k. not (is_stale_window now k.window)) events)

-- The window of a repository; an absent one is empty.
unfoldable pub window_of : String → List Tracked → List ℕ
window_of repo events = elim (find? (is_of repo) events) [ none ↦ [] | some k ↦ k.window ]

unfoldable pub make_room : ℕ → String → List Tracked → List Tracked
unfolding evict_stale_keys
make_room now repo events =
    if leb max_tracked_repos (length events) && not (any (is_of repo) events)
    then evict_stale_keys now events
    else events

unfoldable pub track : String → List Tracked → List Tracked
track repo events =
    if any (is_of repo) events then events else events ++ (record { repo = repo; window = [] } ∷ [])

abbrev pub set_window : String → List ℕ → List Tracked → List Tracked
set_window repo window events = update_where (is_of repo) (λ k. record k { window = window }) events

-- The answer and the dictionary that the call leaves.
unfoldable pub allow : ℕ → String → List Tracked → Bool × List Tracked
unfolding make_room track window_of drop_old
allow now repo events =
    let tracked = track repo (make_room now repo events) in
    let window = drop_old now (window_of repo tracked) in
    if leb max_bot_events_per_hour (length window)
    then (false, set_window repo window tracked)
    else (true, set_window repo (window ++ (now ∷ [])) tracked)
