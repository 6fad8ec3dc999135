-- ===== src/LoopGuard/Limit.antt =====
-- What the limiter lets through, and how much it keeps.
use scamanager.Prelude.{
  ℕ, ◌<◌, ◌≡◌, refl, ◌∙◌, ap, inl, inr, String, true, false, List, [], ◌∷◌, ◌++◌, any, length, ltb,
  leb, str_eq, arith, Bool-cases, if◌then◌else◌,
}
use scamanager.LoopGuard.Defs.{
  Tracked, is_of, drop_old, window_of, make_room, track, allow, max_tracked_repos,
  max_bot_events_per_hour,
}
use scamanager.LoopGuard.Window.{
  IsOrdered, recent, drop_old-recent, any-track, track-window_of, window_of-set_window,
  window_of-set_window_other,
}

-- An event is let through exactly if fewer than six of the recorded events of its repository are of
-- the last hour; then it is recorded after them, and otherwise nothing is. The older events of the
-- repository are forgotten. Its window has to be in the order of time.
pub allow_lem :
    (now : ℕ) (repo : String) (events : List Tracked)
    → IsOrdered (window_of repo events)
    → let (answer, events') = allow now repo events in
      let kept = recent now (window_of repo events) in
      (answer ≡ ltb (length kept) 6)
      × (window_of repo events' ≡ (if ltb (length kept) 6 then kept ++ (now ∷ []) else kept))
unfolding allow
allow_lem now repo events h =
    let tracked = track repo (make_room now repo events) in
    let there = any-track repo (make_room now repo events) in
    let same : drop_old now (window_of repo tracked) ≡ recent now (window_of repo events) =
      ap (drop_old now) (track-window_of repo now events)
      ∙ drop_old-recent now (window_of repo events) h in
    elim (Bool-cases (leb max_bot_events_per_hour (length (recent now (window_of repo events))))) [
      | inl e ↦
          let few : ltb (length (recent now (window_of repo events))) 6 ≡ false =
            ground (arith, e) in
          rw (same, allow, e, few) (refl, window_of-set_window repo _ tracked there)
      | inr e ↦
          let few : ltb (length (recent now (window_of repo events))) 6 ≡ true =
            ground (arith, e) in
          rw (same, allow, e, few) (refl, window_of-set_window repo _ tracked there)
    ]

module _ (repo other : String) (apart : str_eq repo other ≡ false) where
  track_other :
      (events : List Tracked) → window_of other (track repo events) ≡ window_of other events
  unfolding track window_of
  track_other events = elim (Bool-cases (any (is_of repo) events)) [
    | inl e ↦ rw (e, track) refl
    | inr e ↦ rw (e, track) (added events)
  ]
    where
      added :
          (ks : List Tracked)
          → window_of other (ks ++ (record { repo = repo; window = [] } ∷ [])) ≡ window_of other ks
      added [] = rw (window_of, apart) refl
      added (k ∷ ks) = elim (Bool-cases (is_of other k)) [
        | inl e ↦ rw (window_of, e) refl
        | inr e ↦ rw (window_of, e) (added ks)
      ]

  make_room_idle :
      (now : ℕ) (events : List Tracked)
      → length events < max_tracked_repos
      → make_room now repo events ≡ events
  unfolding make_room
  make_room_idle now events h = ground (arith, h)

  -- While fewer than 4096 repositories are tracked, a call for one repository leaves the window of every
  -- other one as it was.
  pub allow_other :
      (now : ℕ) (events : List Tracked)
      → length events < max_tracked_repos
      → window_of other (allow now repo events).1 ≡ window_of other events
  unfolding allow
  allow_other now events h =
      let tracked = track repo (make_room now repo events) in
      let same : window_of other tracked ≡ window_of other events =
        ap (λ ks. window_of other (track repo ks)) (make_room_idle now events h)
        ∙ track_other events in
      elim (Bool-cases
        (leb max_bot_events_per_hour (length (drop_old now (window_of repo tracked))))) [
          | inl e ↦ rw (allow, e) (window_of-set_window_other repo other _ tracked apart ∙ same)
          | inr e ↦ rw (allow, e) (window_of-set_window_other repo other _ tracked apart ∙ same)
        ]
