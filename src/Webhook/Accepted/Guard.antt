-- ===== src/Webhook/Accepted/Guard.antt =====
-- What the guard against loops makes of an event that asks for an analysis.
use scamanager.Prelude.{
  ◌≡◌, refl, sym, ap, ◌∙◌, ◌⊎◌, inl, inr, String, Option, none, some, Bool, true, false, List, [],
  ◌∷◌, ◌++◌,
}
use scamanager.Prelude.Lengths.{if_holds}
use scamanager.LoopGuard.Defs.{Tracked, is_bot_sender, is_whitelisted_bot, allow}
use scamanager.Webhook.World.{
  EventData, run_analysis_pipeline, Response, replied, WebhookEnv, WebhookWorld,
}
use scamanager.Webhook.PullRequest.{Answered, accepted}
use scamanager.Webhook.Github.{
  has_skip_marker, message_of, skipped, rate_limited, run_unless, loop_guard_check,
  guarded_pipeline,
}

-- The guard against loops has nothing against the event: the switch is off, the sender is no bot that is not
-- listed, there is no skip marker, and a listed bot is within its limit.
abbrev pub LetsThrough : WebhookEnv → EventData → WebhookWorld → Type 0
LetsThrough env d w =
    (env.settings.scamanager_self_analysis_disabled ≡ false)
    × (is_bot_sender d.sender ≡ false)
    × (has_skip_marker env.lower (message_of d) ≡ false)
    × ((is_whitelisted_bot d.sender ≡ false)
        ⊎ ((allow env.limit_time d.full_name w.limiter).0 ≡ true))

-- The analysis of the event is started and the event let through, or the event is skipped and was not.
abbrev pub IsDecided : WebhookEnv → String → EventData → WebhookWorld → Answered → Type 0
IsDecided env event d w answer =
    (LetsThrough env d w
      × (answer.0 ≡ accepted)
      × (answer.1.tasks ≡ w.tasks ++ (run_analysis_pipeline event d ∷ [])))
    ⊎ ((¬ LetsThrough env d w)
        × ((reason : String) × (answer.0 ≡ replied "skipped" (some reason)))
        × (answer.1.tasks ≡ w.tasks))

not_both : {A : Type 0} {b : Bool} → b ≡ true → b ≡ false → A
not_both t f = absurd (clash t f)
  where
    clash : {b : Bool} → b ≡ true → b ≡ false → ⊥
    clash t f = cc

module _ (env : WebhookEnv) (event : String) (d : EventData) (w : WebhookWorld) where
  Decided : Option Response × WebhookWorld → Type 0
  Decided guarded = IsDecided env event d w (run_unless event d guarded)

  held_back_by :
      (reason : String) (v : WebhookWorld)
      → ¬ LetsThrough env d w
      → v.tasks ≡ w.tasks
      → Decided (skipped reason, v)
  unfolding Decided
  held_back_by reason v refused same = inr (refused, (reason, refl), same)

  started : (v : WebhookWorld) → LetsThrough env d w → v.tasks ≡ w.tasks → Decided (none, v)
  unfolding Decided
  started v l same = inl (l, refl, ap (λ tasks. tasks ++ (run_analysis_pipeline event d ∷ [])) same)

  rate_limited-Decided :
      (counted : Bool × List Tracked)
      → (counted.0 ≡ false → ¬ LetsThrough env d w)
      → (counted.0 ≡ true → LetsThrough env d w)
      → Decided (rate_limited counted w)
  rate_limited-Decided (true, limiter) out passed =
      started (record w { limiter = limiter }) (passed refl) refl
  rate_limited-Decided (false, limiter) out passed =
      held_back_by "bot_rate_limit" (record w { limiter = limiter }) (out refl) refl

  pub guarded_pipeline-IsDecided : IsDecided env event d w (guarded_pipeline env event d w)
  unfolding guarded_pipeline loop_guard_check Decided
  guarded_pipeline-IsDecided =
      if_holds {A = Option Response × WebhookWorld} Decided
        env.settings.scamanager_self_analysis_disabled (skipped "self_analysis_disabled", w) _
        (λ a. held_back_by "self_analysis_disabled" w (λ l. not_both a l.0) refl)
        (λ a.
          if_holds {A = Option Response × WebhookWorld} Decided (is_bot_sender d.sender)
            (skipped "bot_sender", w) _
            (λ b. held_back_by "bot_sender" w (λ l. not_both b l.1) refl)
            (λ b.
              if_holds {A = Option Response × WebhookWorld} Decided
                (has_skip_marker env.lower (message_of d)) (skipped "skip_marker", w) _
                (λ c. held_back_by "skip_marker" w (λ l. not_both c l.2) refl)
                (λ c.
                  if_holds {A = Option Response × WebhookWorld} Decided
                    (is_whitelisted_bot d.sender)
                    (rate_limited (allow env.limit_time d.full_name w.limiter) w) (none, w)
                    (λ e.
                      rate_limited-Decided (allow env.limit_time d.full_name w.limiter)
                        (λ over l. within e over l.3) (λ room. (a, b, c, inr room)))
                    (λ e. started w (a, b, c, inl e) refl))))
    where
      within : {x y : Bool} → x ≡ true → y ≡ false → (x ≡ false) ⊎ (y ≡ true) → ⊥
      within e over (inl f) = not_both e f
      within e over (inr t) = not_both t over

lets_on :
    (env : WebhookEnv) (d : EventData) (v w : WebhookWorld)
    → v.limiter ≡ w.limiter
    → LetsThrough env d v
    → LetsThrough env d w
lets_on env d v w limiters (a, b, c, e) = (a, b, c, rw⁻¹ limiters e)

-- The decision looks at the limiter and the tasks only.
pub IsDecided-same :
    (env : WebhookEnv) (event : String) (d : EventData) (v w : WebhookWorld) (answer : Answered)
    → v.limiter ≡ w.limiter
    → v.tasks ≡ w.tasks
    → IsDecided env event d v answer
    → IsDecided env event d w answer
IsDecided-same env event d v w answer limiters tasks (inl (l, e, t)) =
    inl (lets_on env d v w limiters l, e, rw⁻¹ tasks t)
IsDecided-same env event d v w answer limiters tasks (inr (refused, e, t)) =
    inr (λ l. refused (lets_on env d w v (sym limiters) l), e, t ∙ tasks)
