-- ===== src/LoopGuard/Bounds.antt =====
-- How much the limiter keeps: the length of its windows and the number of its keys.
use scamanager.Prelude.{
  ℕ, suc, ◌≤◌, ◌<◌, inl, inr, String, not, ◌&&◌, List, [], ◌∷◌, All, All-append, All-filter,
  All-imp, All-update_where, filter, any, length, leb, leb→lt, arith, Bool-cases,
}
use scamanager.Prelude.Lengths.{length-update_where, length-snoc}
use scamanager.LoopGuard.Defs.{
  Tracked, is_of, is_old, drop_old, drop_oldest, evict_stale_keys, is_stale_window, window_of,
  make_room, track, set_window, allow, max_tracked_repos, max_bot_events_per_hour,
}

-- What the limiter may hold: at most 4096 repositories with at most six events each.
pub record IsSmall (events : List Tracked) : Type 0 where
  pub few_repos : length events ≤ max_tracked_repos
  pub few_events : All (λ k. length k.window ≤ max_bot_events_per_hour) events

abbrev IsShort : Tracked → Type 0
IsShort k = length k.window ≤ max_bot_events_per_hour

length-drop_oldest : (events : List Tracked) → length (drop_oldest events) < max_tracked_repos
unfolding drop_oldest
length-drop_oldest [] = omega arith
length-drop_oldest (k ∷ events) = elim (Bool-cases (leb max_tracked_repos (length (k ∷ events)))) [
  | inl e ↦ rw e (length-drop_oldest events)
  | inr e ↦ rw e (leb→lt _ _ e)
]

All-drop_oldest : (events : List Tracked) → All IsShort events → All IsShort (drop_oldest events)
unfolding drop_oldest
All-drop_oldest [] h = tt
All-drop_oldest (k ∷ events) h = elim (Bool-cases (leb max_tracked_repos (length (k ∷ events)))) [
  | inl e ↦ rw e (All-drop_oldest events h.1)
  | inr e ↦ rw e h
]

length-drop_old : (now : ℕ) (window : List ℕ) → length (drop_old now window) ≤ length window
unfolding drop_old
length-drop_old now [] = omega arith
length-drop_old now (t ∷ ts) = elim (Bool-cases (is_old now t)) [
  | inl e ↦ rw e (omega (arith, length-drop_old now ts))
  | inr e ↦ rw e (omega arith)
]

length-track :
    (repo : String) (events : List Tracked) → length (track repo events) ≤ suc (length events)
unfolding track
length-track repo events = elim (Bool-cases (any (is_of repo) events)) [
  | inl e ↦ rw (e, track) (omega arith)
  | inr e ↦ rw (e, track) (omega (arith, length-snoc events _))
]

-- There is room for the key.
room :
    (now : ℕ) (repo : String) (events : List Tracked)
    → length events ≤ max_tracked_repos
    → length (track repo (make_room now repo events)) ≤ max_tracked_repos
unfolding make_room evict_stale_keys track
room now repo events h = elim (Bool-cases (any (is_of repo) events)) [
  | inl e ↦ ground (arith, e, h)
  | inr e ↦ elim (Bool-cases (leb max_tracked_repos (length events))) [
    | inl f ↦
        rw (e, f, make_room)
          (omega (
            arith,
            length-track repo (evict_stale_keys now events),
            length-drop_oldest (filter (λ k. not (is_stale_window now k.window)) events),
          ))
    | inr f ↦ rw (e, f, make_room) (omega (arith, length-track repo events, leb→lt _ _ f))
  ]
]

All-make_room :
    (now : ℕ) (repo : String) (events : List Tracked)
    → All IsShort events
    → All IsShort (make_room now repo events)
unfolding make_room evict_stale_keys
All-make_room now repo events h =
    elim (Bool-cases (leb max_tracked_repos (length events) && not (any (is_of repo) events))) [
      | inl e ↦ rw (e, make_room) (All-drop_oldest _ (All-filter IsShort _ events h))
      | inr e ↦ rw (e, make_room) h
    ]

All-track :
    (repo : String) (events : List Tracked) → All IsShort events → All IsShort (track repo events)
unfolding track
All-track repo events h = elim (Bool-cases (any (is_of repo) events)) [
  | inl e ↦ rw (e, track) h
  | inr e ↦ rw (e, track) (All-append IsShort events _ h (omega arith, tt))
]

window_of-short :
    (repo : String) (events : List Tracked)
    → All IsShort events
    → length (window_of repo events) ≤ max_bot_events_per_hour
unfolding window_of
window_of-short repo [] h = omega arith
window_of-short repo (k ∷ events) h = elim (Bool-cases (is_of repo k)) [
  | inl e ↦ rw (e, window_of) h.0
  | inr e ↦ rw (e, window_of) (window_of-short repo events h.1)
]

set_window-IsSmall :
    (repo : String) (window : List ℕ) (events : List Tracked)
    → length window ≤ max_bot_events_per_hour
    → IsSmall events
    → IsSmall (set_window repo window events)
set_window-IsSmall repo window events short h = record {
  few_repos =
      rw (length-update_where (is_of repo) (λ k. record k { window = window }) events) h.few_repos;
  few_events =
      All-update_where IsShort (is_of repo) (λ k. record k { window = window }) events
        (All-imp IsShort _ (λ k _ _. short) events h.few_events) h.few_events;
}

-- A call keeps the limiter small: at most 4096 repositories, each with at most six events.
pub allow-IsSmall :
    (now : ℕ) (repo : String) (events : List Tracked)
    → IsSmall events
    → IsSmall (allow now repo events).1
unfolding allow
allow-IsSmall now repo events h =
    let tracked = track repo (make_room now repo events) in
    let small : IsSmall tracked = record {
      few_repos = room now repo events h.few_repos;
      few_events = All-track repo _ (All-make_room now repo events h.few_events);
    } in
    let left = drop_old now (window_of repo tracked) in
    elim (Bool-cases (leb max_bot_events_per_hour (length left))) [
      | inl e ↦
          rw (e, allow)
            (set_window-IsSmall repo left tracked
              (omega (
                arith,
                length-drop_old now (window_of repo tracked),
                window_of-short repo tracked small.few_events,
              ))
              small)
      | inr e ↦
          rw (e, allow)
            (set_window-IsSmall repo _ tracked (omega (arith, length-snoc left now, leb→lt _ _ e))
              small)
    ]
