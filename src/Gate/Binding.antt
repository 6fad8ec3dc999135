-- ===== src/Gate/Binding.antt =====
-- Which calls the merge and GitHub's automatic merge are asked for with.
use scamanager.Prelude.{
  ℕ, zero, suc, ◌≡◌, refl, ◌⊎◌, inl, inr, String, Option, none, some, true, false, not, [], ◌∷◌,
  All, All-append, arith, if◌then◌else◌, str_eq,
}
use scamanager.Prelude.Text.{is_empty}
use scamanager.Prelude.Effects.{Answer, ◌>>=◌, pure}
use scamanager.Prelude.Preserves.{Preserves, Preserves-pure, Preserves-if, Preserves-bind}
use scamanager.MergeMetrics.{or_none}
use scamanager.Gate.World.{
  Call, get_pull, put_merge, enable_auto_merge, GateEnv, GateWorld, Gate, call,
}
use scamanager.Gate.GithubReview.{
  Seen, or_default, get_pr_mergeable_state, on_send_error, look, poll, is_unknown, unseen, put,
  merge_seen, merge_pr, is_blocking,
}
use scamanager.Gate.NativeAutomerge.{
  no_head, fall_back, after_enable, with_node, with_head, get_pr_node_id,
  enable_or_fallback_with_path,
}

-- What holds of each call that was made.
module _ (Fine : Call → Type 0) where
  abbrev pub AllCalls : GateWorld → Type 0
  AllCalls w = All Fine w.calls

  pub call-AllCalls :
      {A : Type 0} (env : GateEnv) (c : Call) (reply : ℕ → Answer A)
      → Fine c
      → Preserves AllCalls (call env c reply)
  unfolding call
  call-AllCalls env c reply fine = record {
    left = λ w h. All-append Fine w.calls (c ∷ []) h (fine, tt);
  }

-- What a step keeps, its handler keeps.
pub on_send_error-Kept :
    {P : GateWorld → Type 0} {A : Type 0} (other : A) (m : Gate A)
    → Preserves P m
    → Preserves P (on_send_error other m)
unfolding on_send_error
on_send_error-Kept other m kept = record { left = λ w h. kept.left w h }

-- What the calls of a kind keep.
pub record Calls (env : GateEnv) (K : GateWorld → Type 0) (Fine : Call → Type 0) : Type 1 where
  pub keep :
      {A : Type 0} (c : Call) (reply : ℕ → Answer A) → Fine c → Preserves K (call env c reply)

-- Calls that are allowed: looks, and merges that are bound to a SHA with `P`.
pub record Allows (P : String → Type 0) (repo : String) (pr : ℕ) (Fine : Call → Type 0)
    : Type 0 where
  pub looks : Fine (get_pull repo pr)
  pub merges : (sha : String) → P sha → Fine (put_merge repo pr (some sha))
  pub enables : (node sha : String) → P sha → Fine (enable_auto_merge node (some sha))

module _ (env : GateEnv) (P : String → Type 0) (repo : String) (pr : ℕ) (Fine : Call → Type 0)
    (allows : Allows P repo pr Fine) (K : GateWorld → Type 0) (calls : Calls env K Fine) where
  abbrev Bound : GateWorld → Type 0
  Bound = K

  pub look-Bound : Preserves Bound (look env repo pr)
  unfolding look get_pr_mergeable_state
  look-Bound =
      on_send_error-Kept unseen _
        (Preserves-bind _ _ (calls.keep (get_pull repo pr) _ allows.looks) (λ d. Preserves-pure _))

  poll-Bound : (n : ℕ) (last : Seen) → Preserves Bound (poll env repo pr n last)
  unfolding poll
  poll-Bound zero last = Preserves-pure last
  poll-Bound (suc n) last =
      Preserves-bind (look env repo pr) _ look-Bound λ seen.
        Preserves-if (is_unknown seen) _ _ (λ _. poll-Bound n seen) (λ _. Preserves-pure seen)

  merge_pr-Bound : (sha : String) → P sha → Preserves Bound (merge_pr env repo pr (some sha))
  unfolding merge_pr merge_seen put
  merge_pr-Bound sha p = Preserves-bind _ _ (poll-Bound _ unseen) λ seen.
      Preserves-if (is_blocking seen.state) _ _ (λ _. Preserves-pure _)
        λ _.
          Preserves-if (is_unknown seen) _ _ (λ _. Preserves-pure _)
            λ _. calls.keep (put_merge repo pr (some sha)) _ (allows.merges sha p)

  -- `or_none` of a SHA that is there.
  or_none-some : (sha : String) → is_empty sha ≡ false → or_none sha ≡ some sha
  or_none-some sha h = rw h refl

  fall_back-Bound :
      (sha : String) → is_empty sha ≡ false → P sha → Preserves Bound (fall_back env repo pr sha)
  unfolding fall_back
  fall_back-Bound sha h p = rw (or_none-some sha h) (
      Preserves-bind (merge_pr env repo pr (some sha)) _ (merge_pr-Bound sha p)
        (λ r. Preserves-pure _))

  with_node-Bound :
      (sha : String)
      → is_empty sha ≡ false
      → P sha
      → (node : Option String) → Preserves Bound (with_node env repo pr sha node)
  unfolding with_node after_enable
  with_node-Bound sha h p none = fall_back-Bound sha h p
  with_node-Bound sha h p (some node) = rw (or_none-some sha h) (
      Preserves-bind _ _
        (calls.keep (enable_auto_merge node (some sha)) _ (allows.enables node sha p))
        λ r.
          Preserves-if (str_eq r.status "ok") _ _ (λ _. Preserves-pure _)
            λ _.
              Preserves-if (str_eq r.status "force_pushed") _ _ (λ _. Preserves-pure _)
                λ _. fall_back-Bound sha h p)

  with_head-Bound :
      (sha : String) → is_empty sha ≡ false → P sha → Preserves Bound (with_head env repo pr sha)
  unfolding with_head get_pr_node_id
  with_head-Bound sha h p =
      Preserves-bind _ _
        (on_send_error-Kept none _ (
          Preserves-bind _ _ (calls.keep (get_pull repo pr) _ allows.looks)
            (λ d. Preserves-pure _)))
        (with_node-Bound sha h p)

-- A SHA that a merge may be bound to: not empty, and the expected one if there is one.
abbrev pub IsExpected : Option String → String → Type 0
IsExpected expected sha =
    (is_empty sha ≡ false)
    × ((is_empty (or_default expected "") ≡ true) ⊎ (sha ≡ or_default expected ""))

module _ (env : GateEnv) (repo : String) (pr : ℕ) (expected : Option String) (Fine : Call → Type 0)
    (allows : Allows (IsExpected expected) repo pr Fine) (K : GateWorld → Type 0)
    (calls : Calls env K Fine) where
  -- Neither merge is ever asked for without a SHA.
  pub enable_or_fallback-Bound : Preserves (K) (enable_or_fallback_with_path env repo pr expected)
  unfolding enable_or_fallback_with_path
  enable_or_fallback-Bound = Preserves-if (not (is_empty (or_default expected ""))) _ _ given asked
    where
      given :
          not (is_empty (or_default expected "")) ≡ true
          → Preserves (K) (with_head env repo pr (or_default expected ""))
      given h =
          let there : is_empty (or_default expected "") ≡ false = ground arith in
          with_head-Bound env (IsExpected expected) repo pr Fine allows K calls _ there
            (there, inr refl)

      asked :
          not (is_empty (or_default expected "")) ≡ false
          → Preserves (K) (
              look env repo pr >>= λ seen.
              if is_empty seen.head_sha then pure no_head else with_head env repo pr seen.head_sha)
      asked h =
          let missing : is_empty (or_default expected "") ≡ true = ground arith in
          Preserves-bind _ _ (look-Bound env (IsExpected expected) repo pr Fine allows K calls)
            λ seen.
              Preserves-if (is_empty seen.head_sha) _ _ (λ _. Preserves-pure _)
                λ e.
                  with_head-Bound env (IsExpected expected) repo pr Fine allows K calls
                    seen.head_sha e (e, inl missing)
