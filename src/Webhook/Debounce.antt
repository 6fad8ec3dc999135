-- ===== src/Webhook/Debounce.antt =====
-- A storm of finished check suites.
use scamanager.Prelude.{
  ℕ, suc, ◌+◌, ◌*◌, ◌≤◌, ◌<◌, ◌≡◌, refl, ap, ◌∙◌, ◌⊎◌, inl, inr, String, none, some, Bool, true,
  false, not, ◌&&◌, ◌||◌, List, [], ◌∷◌, ◌++◌, find?, any, count, update_where, touch, find?-some,
  subst, find?-update_where, All, str_eq, eq_iff, Bool-cases, eq_refl, and_left, and_right, arith,
}
use mathlib.Core.Option
use scamanager.Prelude.Text.{is_empty}
use scamanager.Prelude.Lengths.{if_holds}
use scamanager.Prelude.Lookups.{
  find?-filter, find?-append, any-find?, find?-new, count-snoc_not, count-snoc,
}
use scamanager.Webhook.World.{
  EventData, Task, run_analysis_pipeline, close_referenced_issues, notify_n8n_issue,
  trigger_retry_for_sha, replied, WebhookEnv, Processed, WebhookWorld,
}
use scamanager.Webhook.PullRequest.{Answered, ignored, add_task}
use scamanager.Webhook.CheckSuite.{
  check_suite_debounce_ttl, is_recent, is_processed, sweep, last_processed, time_or_zero,
  processed_at, put_processed, debounced_trigger, swept, handle_check_suite_completed,
}

abbrev pub is_trigger : String → String → Task → Bool
is_trigger repo sha (run_analysis_pipeline event d) = false
is_trigger repo sha (close_referenced_issues r numbers) = false
is_trigger repo sha (notify_n8n_issue url r action token) = false
is_trigger repo sha (trigger_retry_for_sha r s) = str_eq repo r && str_eq sha s

-- The check suites that are delivered one after the other, each at its own times.
unfoldable pub deliver : List (WebhookEnv × EventData) → WebhookWorld → WebhookWorld
deliver [] w = w
deliver ((env, d) ∷ es) w = deliver es (handle_check_suite_completed env d w).1

-- A delivery may start a retry: where none has yet, one more trigger, and then none any more.
module _ (repo sha : String) (from : ℕ) where
  abbrev triggers : WebhookWorld → ℕ
  triggers w = count (is_trigger repo sha) w.tasks

  -- The key was processed, and not before `from`.
  abbrev IsHeld : List Processed → Type 0
  IsHeld entries =
      (p : Processed) × (find? (is_processed repo sha) entries ≡ some p) × (from ≤ p.at)

  abbrev IsInTime : ℕ → Type 0
  IsInTime t = t < from + check_suite_debounce_ttl * 1000000

  recent : (now : ℕ) (p : Processed) → IsInTime now → from ≤ p.at → is_recent now p.at ≡ true
  recent now p h k = ground arith

  sweep-IsHeld :
      (now : ℕ) (entries : List Processed)
      → IsInTime now
      → IsHeld entries
      → IsHeld (sweep now entries)
  unfolding sweep
  sweep-IsHeld now entries h (p, found, k) = (
    p,
    find?-filter (is_processed repo sha) (λ x. is_recent now x.at) entries found (recent now p h k),
    k,
  )

  -- The entry of another key.
  put-IsHeld :
      (r s : String) (now : ℕ) (entries : List Processed)
      → (str_eq repo r && str_eq sha s) ≡ false
      → IsHeld entries
      → IsHeld (put_processed r s now entries)
  unfolding put_processed
  put-IsHeld r s now entries other (p, found, k) =
      if_holds IsHeld (any (is_processed r s) entries)
        (update_where (is_processed r s) (processed_at now) entries)
        (entries ++ (record { repo = r; sha = s; at = now } ∷ []))
        (λ _. (
          p,
          find?-update_where (is_processed repo sha) (is_processed r s) (processed_at now)
                (λ x. refl) entries
              ∙ (ap (Option.map (touch (is_processed r s) (processed_at now))) found
                  ∙ ap some untouched),
          k,
        ))
        (λ _. (p, find?-append (is_processed repo sha) entries _ found, k))
    where
      key : is_processed repo sha p ≡ true
      key = (find?-some (is_processed repo sha) entries found).1

      untouched : touch (is_processed r s) (processed_at now) p ≡ p
      untouched =
          let a : p.repo ≡ repo =
            (eq_iff p.repo repo).0 (and_left (str_eq p.repo repo) (str_eq p.sha sha) key) in
          let b : p.sha ≡ sha =
            (eq_iff p.sha sha).0 (and_right (str_eq p.repo repo) (str_eq p.sha sha) key) in
          let not_it : is_processed r s p ≡ false =
            ap (λ x. str_eq x r && str_eq p.sha s) a
            ∙ (ap (λ x. str_eq repo r && str_eq x s) b ∙ other) in
          rw not_it refl

  -- The key itself, put at a time.
  found_put :
      (now : ℕ) (entries : List Processed)
      → from ≤ now
      → IsHeld (put_processed repo sha now entries)
  unfolding put_processed
  found_put now entries h = elim (Bool-cases (any (is_processed repo sha) entries)) [
    | inl e ↦
        let (q, found, passes) = any-find? (is_processed repo sha) entries e in
        rw e (
          processed_at now q,
          find?-update_where (is_processed repo sha) (is_processed repo sha) (processed_at now)
                (λ x. refl) entries
              ∙ (ap (Option.map (touch (is_processed repo sha) (processed_at now))) found
                  ∙ ap some (rw passes refl)),
          h,
        )
    | inr e ↦ rw e (
      record { repo = repo; sha = sha; at = now },
      find?-new (is_processed repo sha) entries _ e (rw (eq_refl repo, eq_refl sha) refl),
      h,
    )
  ]

  -- After a delivery, in its order: no trigger and what was held is held, or a trigger and the key is held.
  abbrev IsNext : WebhookWorld → WebhookWorld → Type 0
  IsNext w v =
      ((triggers v ≡ triggers w) × (IsHeld w.debounce → IsHeld v.debounce))
      ⊎ ((triggers v ≤ suc (triggers w)) × (IsHeld w.debounce → ⊥) × IsHeld v.debounce)

  module _ (env : WebhookEnv) (early : IsInTime env.sweep_time) (now : IsInTime env.debounce_time)
      (late : from ≤ env.debounce_time) where
    swept_kept : (w : WebhookWorld) → IsHeld w.debounce → IsHeld (sweep env.sweep_time w.debounce)
    swept_kept w h = sweep-IsHeld env.sweep_time w.debounce early h

    abbrev left : WebhookWorld → List Processed
    left w = sweep env.sweep_time w.debounce

    -- A trigger of a key that was not processed lately.
    abbrev Fires : WebhookWorld → String → String → Type 0
    Fires w r s =
        is_recent env.debounce_time (last_processed r s (left w)) ≡ false
        → IsNext w (
            add_task (trigger_retry_for_sha r s)
              (record w { debounce = put_processed r s env.debounce_time (left w) }))

    not_held :
        (w : WebhookWorld)
        → is_recent env.debounce_time (last_processed repo sha (left w)) ≡ false
        → IsHeld w.debounce
        → ⊥
    unfolding last_processed
    not_held w old h =
        let (p, found, k) = swept_kept w h in
        let late : is_recent env.debounce_time p.at ≡ true = recent env.debounce_time p now k in
        let lately : is_recent env.debounce_time
              (time_or_zero (find? (is_processed repo sha) (left w)))
            ≡ true =
          rw found late in
        cc

    own-Fires : (w : WebhookWorld) → Fires w repo sha
    own-Fires w old = inr (
      count-snoc (is_trigger repo sha) w.tasks _,
      not_held w old,
      found_put env.debounce_time (left w) late,
    )

    any-Fires : (w : WebhookWorld) (r s : String) → Fires w r s
    any-Fires w r s = elim (Bool-cases (str_eq repo r && str_eq sha s)) [
      | inl e ↦
          subst (λ y. Fires w r y) ((eq_iff sha s).0 (and_right (str_eq repo r) (str_eq sha s) e))
            (subst (λ x. Fires w x sha)
              ((eq_iff repo r).0 (and_left (str_eq repo r) (str_eq sha s) e)) (own-Fires w))
      | inr e ↦ λ old. inl (
        count-snoc_not (is_trigger repo sha) w.tasks (trigger_retry_for_sha r s) e,
        λ h. put-IsHeld r s env.debounce_time (left w) e (swept_kept w h),
      )
    ]

    debounced-IsNext :
        (r s : String) (w : WebhookWorld) → IsNext w (debounced_trigger env r s (swept env w)).1
    unfolding debounced_trigger
    debounced-IsNext r s w =
        if_holds {A = Answered} (λ v. IsNext w v.1)
          (is_recent env.debounce_time (last_processed r s (left w)))
          (replied "debounced" none, swept env w) _ (λ _. inl (refl, swept_kept w))
          (any-Fires w r s)

    handled-IsNext :
        (d : EventData) (w : WebhookWorld) → IsNext w (handle_check_suite_completed env d w).1
    unfolding handle_check_suite_completed
    handled-IsNext d w =
        if_holds {A = Answered} (λ v. IsNext w v.1)
          (not env.settings.merge_retry_check_suite_webhook_enabled) (replied "disabled" none, w) _
          (λ _. inl (refl, λ h. h))
          (λ _.
            if_holds {A = Answered} (λ v. IsNext w v.1) (not (str_eq d.action "completed"))
              (ignored, swept env w) _ (λ _. inl (refl, swept_kept w))
              (λ _.
                if_holds {A = Answered} (λ v. IsNext w v.1)
                  (is_empty d.check_suite_sha || is_empty d.full_name) (ignored, swept env w) _
                  (λ _. inl (refl, swept_kept w))
                  (λ _. debounced-IsNext d.full_name d.check_suite_sha w)))

  -- A delivery of the storm: its times are from `from` on, and within thirty seconds.
  abbrev pub IsTimely : WebhookEnv × EventData → Type 0
  IsTimely e = IsInTime e.0.sweep_time × IsInTime e.0.debounce_time × (from ≤ e.0.debounce_time)

  held_on :
      (es : List (WebhookEnv × EventData)) (w : WebhookWorld)
      → All IsTimely es
      → IsHeld w.debounce
      → triggers (deliver es w) ≡ triggers w
  unfolding deliver
  held_on [] w t h = refl
  held_on ((env, d) ∷ es) w ((early, now, late), t) h =
      elim (handled-IsNext env early now late d w) [
        | inl (same, kept) ↦ held_on es (handle_check_suite_completed env d w).1 t (kept h) ∙ same
        | inr (more, free, held) ↦ absurd (free h)
      ]

  -- However many check suites are delivered within thirty seconds, for whatever commits and in whatever order, and
  -- whatever was processed before: they trigger the retries of one commit of a repository once at most.
  pub deliver_once :
      (es : List (WebhookEnv × EventData)) (w : WebhookWorld)
      → All IsTimely es
      → count (is_trigger repo sha) (deliver es w).tasks ≤ suc (count (is_trigger repo sha) w.tasks)
  unfolding deliver
  deliver_once [] w t = omega arith
  deliver_once ((env, d) ∷ es) w ((early, now, late), t) =
      elim (handled-IsNext env early now late d w) [
        | inl (same, kept) ↦
            let rest = deliver_once es (handle_check_suite_completed env d w).1 t in
            omega (arith, rest, same)
        | inr (more, free, held) ↦
            let rest = held_on es (handle_check_suite_completed env d w).1 t held in
            omega (arith, rest, more)
      ]
