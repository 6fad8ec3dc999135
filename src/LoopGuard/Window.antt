-- ===== src/LoopGuard/Window.antt =====
-- The window of one repository through a call.
use scamanager.Prelude.{
  ℕ, ◌≤◌, ◌≡◌, refl, sym, ◌∙◌, ap, inl, inr, String, none, Bool, true, false, not, List, [], ◌∷◌,
  ◌++◌, All, filter, find?, any, length, leb, str_eq, eq_iff, eq_refl, arith, Bool-cases,
}
use scamanager.LoopGuard.Defs.{
  Tracked, is_of, is_old, drop_old, drop_oldest, evict_stale_keys, window_of, make_room, track,
  set_window, max_tracked_repos,
}

-- From old to new.
abbrev pub IsOrdered : List ℕ → Type 0
IsOrdered [] = Unit
IsOrdered (t ∷ ts) = All (λ u. t ≤ u) ts × IsOrdered ts

-- The events that still count.
abbrev pub recent : ℕ → List ℕ → List ℕ
recent now window = filter (λ t. not (is_old now t)) window

filter-kept :
    (now t : ℕ) (ts : List ℕ) → is_old now t ≡ false → All (λ u. t ≤ u) ts → recent now ts ≡ ts
filter-kept now t [] f h = refl
filter-kept now t (u ∷ ts) f h = ground (arith, h.0, f, filter-kept now t ts f h.1)

-- In an ordered window popping from the left removes exactly the old events.
pub drop_old-recent :
    (now : ℕ) (window : List ℕ) → IsOrdered window → drop_old now window ≡ recent now window
unfolding drop_old
drop_old-recent now [] h = refl
drop_old-recent now (t ∷ ts) h = elim (Bool-cases (is_old now t)) [
  | inl e ↦ rw e (drop_old-recent now ts h.1)
  | inr e ↦ rw e (ap (λ us. t ∷ us) (sym (filter-kept now t ts e h.0)))
]

module _ (repo : String) where
  any-find? :
      (events : List Tracked) → any (is_of repo) events ≡ false → find? (is_of repo) events ≡ none
  any-find? [] h = refl
  any-find? (k ∷ events) h = ground (arith, any-find? events)

  untracked_window :
      (events : List Tracked) → any (is_of repo) events ≡ false → window_of repo events ≡ []
  unfolding window_of
  untracked_window events h = rw (any-find? events h, window_of) refl

  any-filter :
      (p : Tracked → Bool) (events : List Tracked)
      → any (is_of repo) events ≡ false
      → any (is_of repo) (filter p events) ≡ false
  any-filter p [] h = refl
  any-filter p (k ∷ events) h = ground (arith, any-filter p events)

  any-drop_oldest :
      (events : List Tracked)
      → any (is_of repo) events ≡ false
      → any (is_of repo) (drop_oldest events) ≡ false
  unfolding drop_oldest
  any-drop_oldest [] h = refl
  any-drop_oldest (k ∷ events) h = ground (arith, any-drop_oldest events)

  make_room_tracked :
      (now : ℕ) (events : List Tracked)
      → any (is_of repo) events ≡ true
      → make_room now repo events ≡ events
  unfolding make_room
  make_room_tracked now events h = ground (arith, h)

  any-make_room :
      (now : ℕ) (events : List Tracked)
      → any (is_of repo) events ≡ false
      → any (is_of repo) (make_room now repo events) ≡ false
  unfolding make_room evict_stale_keys
  any-make_room now events h = elim (Bool-cases (leb max_tracked_repos (length events))) [
    | inl e ↦ rw (e, h) (any-drop_oldest _ (any-filter _ events h))
    | inr e ↦ rw e h
  ]

  window_of-snoc :
      (events : List Tracked)
      → any (is_of repo) events ≡ false
      → window_of repo (events ++ (record { repo = repo; window = [] } ∷ [])) ≡ []
  unfolding window_of
  window_of-snoc [] h = rw (window_of, eq_refl repo) refl
  window_of-snoc (k ∷ events) h = ground (arith, h, window_of-snoc events)

  any-snoc :
      (events : List Tracked)
      → any (is_of repo) (events ++ (record { repo = repo; window = [] } ∷ [])) ≡ true
  any-snoc [] = rw (eq_refl repo) refl
  any-snoc (k ∷ events) = ground (arith, any-snoc events)

  -- Once the key is added it is there.
  pub any-track : (events : List Tracked) → any (is_of repo) (track repo events) ≡ true
  unfolding track
  any-track events = elim (Bool-cases (any (is_of repo) events)) [
    | inl e ↦ rw (e, track) e
    | inr e ↦ rw (e, track) (any-snoc events)
  ]

  -- Making room and adding the key do not change the repository's window.
  pub track-window_of :
      (now : ℕ) (events : List Tracked)
      → window_of repo (track repo (make_room now repo events)) ≡ window_of repo events
  unfolding track
  track-window_of now events = elim (Bool-cases (any (is_of repo) events)) [
    | inl e ↦ rw (make_room_tracked now events e, e, track) refl
    | inr e ↦
        rw (any-make_room now events e, track)
          (window_of-snoc (make_room now repo events) (any-make_room now events e)
            ∙ sym (untracked_window events e))
  ]

  -- What is set is what is read.
  pub window_of-set_window :
      (window : List ℕ) (events : List Tracked)
      → any (is_of repo) events ≡ true
      → window_of repo (set_window repo window events) ≡ window
  unfolding window_of
  window_of-set_window window [] h = cc
  window_of-set_window window (k ∷ events) h = ground (arith, h, window_of-set_window window events)

  pub window_of-set_window_other :
      (other : String) (window : List ℕ) (events : List Tracked)
      → str_eq repo other ≡ false
      → window_of other (set_window repo window events) ≡ window_of other events
  unfolding window_of
  window_of-set_window_other other window [] f = refl
  window_of-set_window_other other window (k ∷ events) f = elim (Bool-cases (str_eq k.repo repo)) [
    | inl e ↦
        let g : str_eq k.repo other ≡ false = rw ((eq_iff k.repo repo).0 e) f in
        rw (e, window_of, g) (window_of-set_window_other other window events f)
    | inr e ↦ elim (Bool-cases (str_eq k.repo other)) [
      | inl g ↦ rw (e, window_of, g) refl
      | inr g ↦ rw (e, window_of, g) (window_of-set_window_other other window events f)
    ]
  ]
