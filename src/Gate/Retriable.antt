-- ===== src/Gate/Retriable.antt =====
-- Which failures of a merge may be retried: the reasons that `merge_pr` gives, read by the policy.
use Prim.Native.Char.{code}
use Prim.Native.String.{◌++◌}
use Prim.Native.String.append
use scamanager.Prelude.{
  ℕ, max, ◌≤◌, ◌++◌ as ◌+++◌, ◌≡◌, refl, sym, ap, ◌∙◌, inl, inr, String, Option, none, some, Bool,
  true, false, ◌==◌, arith, Bool-cases, if◌then◌else◌, str_eq, eq_iff,
}
use scamanager.Prelude.Text.{all_plain, all_plain-append, show_int-plain, show_int}
use scamanager.Prelude.Effects.{Answer, returned}
use scamanager.MergeReasons.{is_retriable_tag, http_status_to_reason, network_error}
use scamanager.RetryPolicy.Defs.{parse_reason_tag}
use scamanager.RetryPolicy.Tags.{IsTag, parse_reason_tag-detail}
use scamanager.Gate.World.{MergeReply, merged, http_error, not_sent, raised, GateEnv, GateWorld}
use scamanager.Gate.GithubReview.{
  MergeResult, merge_pr, or_else, merge_answer, interpret_merge_error, network_reason,
}
use scamanager.Gate.Polling.{gets, IsMerge, given_up, asked, merge_pr-IsMerge}

-- The first character's number, or 0.
abbrev first_code : String → ℕ
first_code String.[] = 0
first_code (String.◌∷◌ c s) = code c

apart : (s t : String) → (first_code s == first_code t) ≡ false → str_eq s t ≡ false
apart s t h = elim (Bool-cases (str_eq s t)) [
  | inl e ↦ let same : s ≡ t = (eq_iff s t).0 e in absurd (differ (ap first_code same))
  | inr e ↦ e
]
  where
    differ : first_code s ≡ first_code t → ⊥
    differ e = ground (arith, e, h)

http_first : (s : String) → first_code ("http_" ++ s) ≡ b'h'
http_first s = rw append.cons refl

-- A tag that may not be retried.
IsFinal : String → Type 0
IsFinal tag = IsTag tag × (is_retriable_tag tag ≡ false)

IsFinal-if : (b : Bool) (s t : String) → IsFinal s → IsFinal t → IsFinal (if b then s else t)
IsFinal-if true s t h k = h
IsFinal-if false s t h k = k

unlisted : (s : String) → all_plain s ≡ true → IsFinal ("http_" ++ s)
unfolding IsFinal is_retriable_tag
unlisted s h = (
  (rw append.cons refl, all_plain-append "http_" s refl h),
  rw (
    other "unstable_ci" refl,
    other "unknown_state_timeout" refl,
    other "branch_protection_blocked" refl,
  ),
)
  where
    other : (t : String) → (b'h' == first_code t) ≡ false → str_eq ("http_" ++ s) t ≡ false
    other t k = apart ("http_" ++ s) t (rw (http_first s) k)

http_tag : (code : ℕ) → IsFinal (http_status_to_reason code)
unfolding http_status_to_reason IsFinal is_retriable_tag
http_tag code =
    IsFinal-if (code == 403) _ _ ((refl, refl), refl)
      (IsFinal-if (code == 405) _ _ ((refl, refl), refl)
        (IsFinal-if (code == 409) _ _ ((refl, refl), refl)
          (IsFinal-if (code == 422) _ _ ((refl, refl), refl)
            (unlisted (show_int code) (show_int-plain code)))))

-- A reason that is built on such a tag may not be retried.
final_detail :
    (tag detail : String)
    → IsFinal tag
    → is_retriable_tag (parse_reason_tag (some (tag ++ (":" ++ detail)))) ≡ false
unfolding IsFinal
final_detail tag detail h = ap is_retriable_tag (parse_reason_tag-detail tag detail h.0) ∙ h.1

reason_of : (x r : MergeResult) → returned x ≡ returned r → x.reason ≡ r.reason
reason_of x r e = let same : x ≡ r = cc in ap (λ y. y.reason) same

merge_answer-final :
    (head : String) (reply : MergeReply) (r : MergeResult)
    → merge_answer head reply ≡ returned r
    → is_retriable_tag (parse_reason_tag r.reason) ≡ false
unfolding interpret_merge_error parse_reason_tag is_retriable_tag IsFinal
merge_answer-final head merged r e =
    let same : none ≡ r.reason = reason_of _ r e in rw (sym same) refl
merge_answer-final head (http_error code message text) r e =
    let same : some (interpret_merge_error code message text) ≡ r.reason = reason_of _ r e in
    rw (sym same)
      (final_detail (http_status_to_reason code) (" " ++ or_else message text) (http_tag code))
merge_answer-final head (not_sent text) r e =
    let same : some (network_reason text) ≡ r.reason = reason_of _ r e in
    rw (sym same) (final_detail network_error (" " ++ text) ((refl, refl), refl))
merge_answer-final head raised r e = absurd (cc e)

-- A failure that may be retried comes from what GitHub showed before the merge: it was never asked for.
pub merge_pr_retriable :
    (env : GateEnv) (repo : String) (pr : ℕ) (sha : Option String) (w : GateWorld) (r : MergeResult)
    → (merge_pr env repo pr sha w).0 ≡ returned r
    → is_retriable_tag (parse_reason_tag r.reason) ≡ true
    → (i : ℕ) × (i ≤ max 1 env.settings.merge_unknown_retry_limit)
      × ((merge_pr env repo pr sha w).1.calls ≡ w.calls +++ gets env repo pr i)
merge_pr_retriable env repo pr sha w r e t = by_cases _ (merge_pr-IsMerge env repo pr sha w) e
  where
    by_cases :
        (o : Answer MergeResult × GateWorld)
        → IsMerge env repo pr sha w o
        → o.0 ≡ returned r
        → (i : ℕ) × (i ≤ max 1 env.settings.merge_unknown_retry_limit)
          × (o.1.calls ≡ w.calls +++ gets env repo pr i)
    by_cases o (given_up i few calls fails) e' = (i, few, calls)
    by_cases o (asked i t' s few calls shown known free answer) e' =
        absurd (
          cc
            (t, merge_answer-final s.head_sha (env.merge_reply t' repo pr sha) r (sym answer ∙ e')))
