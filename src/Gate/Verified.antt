-- ===== src/Gate/Verified.antt =====
-- What the verifier was told and said when it let a merge pass, and that it always answers.
use scamanager.Prelude.{
  ℕ, ◌≡◌, refl, sym, ap, ◌∙◌, ◌⊎◌, inl, inr, String, List, true, false, length, Bool-cases,
  if◌then◌else◌,
}
use scamanager.Prelude.Int.{ℤ}
use scamanager.Prelude.Effects.{Answer, returned, send_error, unexpected, continue, ◌>>=◌, pure}
use scamanager.Gate.World.{ChangedFile, VerifierText, GateEnv, GateWorld, call}
use scamanager.Gate.Guards.{
  on_any_error, VerifierVerdict, interpret_verdict, should_verify, diff_exceeds_cap, call_failed,
  ask, Prepared, unprepared, over_cap, prompted, prompt_of, prepare, judge, verify_merge_safety,
  is_cleared, verifier_blocks_merge,
}
use scamanager.Gate.Clearance.{
  IsDecided, IsDecided-if, bind_returned, IsDecided-after, withhold_answers,
}

module _ (env : GateEnv) (repo : String) (pr : ℕ) where
  -- What a prompt came from.
  IsPrepared : Prepared → Type 0
  IsPrepared unprepared = Unit {0}
  IsPrepared over_cap = Unit {0}
  IsPrepared (prompted prompt) =
      (s : ℕ) × (patches : List ChangedFile) × (env.files s repo pr ≡ returned patches)
      × (diff_exceeds_cap patches ≡ false)
      × (env.verifier_prompt patches ≡ returned prompt)

  prompt_of-IsPrepared :
      (s : ℕ) (patches : List ChangedFile)
      → env.files s repo pr ≡ returned patches
      → IsPrepared
          (if diff_exceeds_cap patches then over_cap else prompt_of (env.verifier_prompt patches))
  unfolding IsPrepared
  prompt_of-IsPrepared s patches e = elim (Bool-cases (diff_exceeds_cap patches)) [
    | inl c ↦ rw c tt
    | inr c ↦ rw c (by_answer c (env.verifier_prompt patches) refl)
  ]
    where
      by_answer :
          diff_exceeds_cap patches ≡ false
          → (a : Answer String) → env.verifier_prompt patches ≡ a
          → IsPrepared (prompt_of a)
      by_answer c (returned prompt) p = (s, patches, e, c, p)
      by_answer c send_error p = tt
      by_answer c unexpected p = tt

  prepare-IsPrepared :
      (w : GateWorld) → (p : Prepared) × ((prepare env repo pr w).0 ≡ returned p) × IsPrepared p
  unfolding prepare on_any_error call ◌>>=◌ pure IsPrepared
  prepare-IsPrepared w = by_answer (env.files (length w.calls) repo pr) refl _
    where
      by_answer :
          (a : Answer (List ChangedFile))
          → env.files (length w.calls) repo pr ≡ a
          → (w1 : GateWorld)
          → (p : Prepared) × ((on_any_error unprepared
                (λ _.
                  continue a
                    (λ patches. pure (
                      if diff_exceeds_cap patches
                      then over_cap
                      else prompt_of (env.verifier_prompt patches)))
                    w1)
                w1).0
              ≡ returned p)
            × IsPrepared p
      by_answer (returned patches) e w1 = (_, refl, prompt_of-IsPrepared (length w.calls) patches e)
      by_answer send_error e w1 = (unprepared, refl, tt)
      by_answer unexpected e w1 = (unprepared, refl, tt)

  -- A verdict that does not clear the merge, or the one that the verifier gave.
  IsJudged : String → VerifierVerdict → Type 0
  IsJudged prompt v =
      (is_cleared v ≡ false)
      ⊎ ((t : ℕ) × (text : VerifierText) × (env.verifier_reply t prompt ≡ returned text)
          × (v ≡ interpret_verdict text))

  ask-IsJudged :
      (prompt : String) (w : GateWorld)
      → (v : VerifierVerdict) × ((ask env prompt w).0 ≡ returned v) × IsJudged prompt v
  unfolding ask on_any_error call ◌>>=◌ pure IsJudged
  ask-IsJudged prompt w = by_answer (env.verifier_reply (length w.calls) prompt) refl _
    where
      by_answer :
          (a : Answer VerifierText)
          → env.verifier_reply (length w.calls) prompt ≡ a
          → (w1 : GateWorld)
          → (v : VerifierVerdict) × ((on_any_error call_failed
                (λ _. continue a (λ text. pure (interpret_verdict text)) w1)
                w1).0
              ≡ returned v)
            × IsJudged prompt v
      by_answer (returned text) e w1 =
          (interpret_verdict text, refl, inr (length w.calls, text, e, refl))
      by_answer send_error e w1 = (call_failed, refl, inl refl)
      by_answer unexpected e w1 = (call_failed, refl, inl refl)

  -- The verifier cleared the merge, asked about a diff within the cap.
  abbrev pub Cleared : Type 0
  Cleared =
      (s t : ℕ) × (patches : List ChangedFile) × (prompt : String) × (text : VerifierText)
      × (env.files s repo pr ≡ returned patches)
      × (diff_exceeds_cap patches ≡ false)
      × (env.verifier_prompt patches ≡ returned prompt)
      × (env.verifier_reply t prompt ≡ returned text)
      × (is_cleared (interpret_verdict text) ≡ true)

  -- A verdict that clears the merge was the verifier's.
  IsBacked : VerifierVerdict → Type 0
  IsBacked v = (is_cleared v ≡ false) ⊎ Cleared

  asked-IsBacked :
      (prompt : String) (v : VerifierVerdict)
      → IsPrepared (prompted prompt)
      → IsJudged prompt v
      → IsBacked v
  unfolding IsPrepared IsJudged IsBacked
  asked-IsBacked prompt v (s, patches, e, c, p) (inl f) = inl f
  asked-IsBacked prompt v (s, patches, e, c, p) (inr (t, text, r, same)) =
      elim (Bool-cases (is_cleared v)) [
        | inl k ↦ inr (s, t, patches, prompt, text, e, c, p, r, ap is_cleared (sym same) ∙ k)
        | inr f ↦ inl f
      ]

  judge-IsBacked :
      (p : Prepared) (w : GateWorld)
      → IsPrepared p
      → (v : VerifierVerdict) × ((judge env p w).0 ≡ returned v) × IsBacked v
  unfolding judge pure IsBacked
  judge-IsBacked unprepared w h = (_, refl, inl refl)
  judge-IsBacked over_cap w h = (_, refl, inl refl)
  judge-IsBacked (prompted prompt) w h =
      let (v, answered, judged) = ask-IsJudged prompt w in
      (v, answered, asked-IsBacked prompt v h judged)

  verify_merge_safety-IsBacked :
      (w : GateWorld)
      → (v : VerifierVerdict) × ((verify_merge_safety env repo pr w).0 ≡ returned v) × IsBacked v
  unfolding verify_merge_safety
  verify_merge_safety-IsBacked w =
      let (p, prepared, h) = prepare-IsPrepared w in
      let (v, judged, backed) = judge-IsBacked p (prepare env repo pr w).1 h in
      (
        v,
        ap (λ r. r.0) (bind_returned (prepare env repo pr) (judge env) w p prepared) ∙ judged,
        backed,
      )

  -- The verifier is not to be asked, or it cleared the merge.
  abbrev pub VerifierPassed : ℤ → ℤ → Type 0
  VerifierPassed score merge_threshold = (should_verify env score merge_threshold ≡ false) ⊎ Cleared

  cleared_of : (v : VerifierVerdict) → IsBacked v → is_cleared v ≡ true → Cleared
  unfolding IsBacked
  cleared_of v (inl f) k = absurd (cc (f, k))
  cleared_of v (inr c) k = c

  -- The verifier's guard always answers, whatever GitHub and OpenAI do, and it lets a merge pass only if it is
  -- not to be asked, or if it was asked about a diff of at most 60000 characters and said that the merge
  -- is safe and not manipulated.
  pub verifier_blocks_merge-IsDecided :
      (score merge_threshold : ℤ) (w : GateWorld)
      → IsDecided
          (VerifierPassed score merge_threshold)
          (verifier_blocks_merge env repo pr score merge_threshold w).0
  unfolding verifier_blocks_merge pure
  verifier_blocks_merge-IsDecided score merge_threshold w =
      let (v, answered, backed) = verify_merge_safety-IsBacked w in
      IsDecided-if _ (should_verify env score merge_threshold) _ _ w
        (λ _. IsDecided-after _ (verify_merge_safety env repo pr) _ w v answered (
          IsDecided-if _ (is_cleared v) _ _ _ (λ k. inr (refl, inr (cleared_of v backed k)))
            (λ _. inl (withhold_answers env repo pr _ _))))
        (λ e. inr (refl, inl e))
