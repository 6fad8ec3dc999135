-- ===== src/LoopGuard/Tests.antt =====
-- The limiter with one repository that has had its six events.
use scamanager.Prelude.{
  ◌≡◌, refl, true, false, some, List, [], ◌∷◌, ◌++◌, length, ltb, arith, if◌then◌else◌,
}
use scamanager.LoopGuard.Defs.{is_bot_sender, Tracked, drop_old, window_of, make_room, track, allow}
use scamanager.LoopGuard.Window.{IsOrdered, recent}
use scamanager.LoopGuard.Limit.{allow_lem}

abbrev full : List Tracked
full = record { repo = "o/r"; window = 10 ∷ 20 ∷ 30 ∷ 40 ∷ 50 ∷ 60 ∷ [] } ∷ []

is_bot_sender_test :
    is_bot_sender (some (record { kind = some "Bot"; login = "dependabot[bot]" })) ≡ false
unfolding is_bot_sender
is_bot_sender_test = refl

-- The seventh event within the hour is refused, and let through once the first is an hour old.
allow_test : (allow 100 "o/r" full).0 ≡ false
unfolding allow window_of track make_room drop_old
allow_test = refl

allow_later_test : (allow 3600000010 "o/r" full).0 ≡ true
unfolding allow window_of track make_room drop_old
allow_later_test = refl

-- The window is in the order of time.
ordered : IsOrdered (window_of "o/r" full)
unfolding window_of
ordered = (
  (omega arith, (omega arith, (omega arith, (omega arith, (omega arith, tt))))),
  (
    (omega arith, (omega arith, (omega arith, (omega arith, tt)))),
    (
      (omega arith, (omega arith, (omega arith, tt))),
      ((omega arith, (omega arith, tt)), ((omega arith, tt), (tt, tt))),
    ),
  ),
)

allow_example :
    let (answer, events') = allow 3600000010 "o/r" full in
    let kept = recent 3600000010 (window_of "o/r" full) in
    (answer ≡ ltb (length kept) 6)
    × (window_of "o/r" events' ≡ (if ltb (length kept) 6 then kept ++ (3600000010 ∷ []) else kept))
allow_example = allow_lem 3600000010 "o/r" full ordered
