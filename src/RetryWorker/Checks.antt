-- ===== src/RetryWorker/Checks.antt =====
-- What has held when the checks of a row have let it pass.
use scamanager.Prelude.{
  ℕ, ◌<◌, String, Option, none, some, Bool, true, false, not, ◌&&◌, ◌||◌, ◌≡◌, ◌⊎◌, str_eq, eq_iff,
  refl, sym, ◌∙◌, ap, subst, arith, leb, leb→lt, Bool-cases, Option-cases, inl, inr,
}
use scamanager.Prelude.Text.{is_empty}
use scamanager.RetryQueue.Row.{Row}
use scamanager.RetryWorker.World.{returned, World, Env, PrData, ◌>>=◌, pure, write_back, count_up}
use scamanager.RetryWorker.Parts.{Authorised}
use scamanager.RetryWorker.Defs.{
  Preflight, resolve_github_token, config_is_changed, check_config, preflight_of, preflight_retry,
  log_failure, log_merged, log_attempt, get_pr_data,
}
use scamanager.RetryWorker.Process.{is_drifted, call_of, settle_before_merge}

-- The row has passed the checks of attempts, token and settings.
pub record IsCleared (env : Env) (pre : Preflight) : Type 0 where
  pub attempts_left : pre.view.attempts_count < pre.view.max_attempts
  pub token_found : resolve_github_token env pre.view.repo_full_name ≡ some pre.token
  pub cfg_read : pre.cfg ≡ env.repo_config pre.view.repo_full_name
  pub change_seen : pre.config_changed ≡ config_is_changed pre.view pre.cfg

-- Past the pull request too.
pub record IsOpen (env : Env) (pre : Preflight) (d : PrData) : Type 0 where
  pub pulled :
      (env.get_pull pre.token pre.view.repo_full_name pre.view.pr_number).answer ≡ returned d
  pub unmerged : d.merged ≡ false
  pub undrifted : is_drifted pre.view d ≡ false

empty_text : (s : String) → is_empty s ≡ true → s ≡ ""
empty_text String.[] e = refl
empty_text (String.◌∷◌ c s) e = cc

-- The head that passes the check is absent or the queued commit.
head_of :
    (view : Row) (d : PrData)
    → is_drifted view d ≡ false
    → (d.head_sha ≡ "") ⊎ (d.head_sha ≡ view.commit_sha)
head_of view d e = elim (Bool-cases (is_empty d.head_sha)) [
  | inl f ↦ inl (empty_text d.head_sha f)
  | inr f ↦ elim (Bool-cases (str_eq d.head_sha view.commit_sha)) [
    | inl g ↦ inr ((eq_iff d.head_sha view.commit_sha).0 g)
    | inr g ↦ cc (e, ap not f, ap not g)
  ]
]

unchanged : (a b : Bool) → not (a && b) ≡ false → (a ≡ true) × (b ≡ true)
unchanged a b e = ground arith

pub call_of-Authorised :
    (env : Env) (pre : Preflight) (d : PrData)
    → IsCleared env pre
    → pre.config_changed ≡ false
    → IsOpen env pre d
    → Authorised env pre.view (call_of pre)
unfolding config_is_changed
call_of-Authorised env pre d cleared same opened =
    let settings = unchanged _ _ (sym cleared.change_seen ∙ same) in
    record {
      repo_bound = refl;
      pr_bound = refl;
      sha_bound = refl;
      attempts_left = cleared.attempts_left;
      allowed = rw (← cleared.cfg_read) settings.0;
      scored = rw (← cleared.cfg_read) settings.1;
      open_at_sha = (
        pre.token,
        d,
        cleared.token_found,
        opened.pulled,
        opened.unmerged,
        head_of pre.view d opened.undrifted,
      );
    }

pub get_pr_data-returned :
    (env : Env) (token : String) (view : Row) (w : World) (o : Option PrData)
    → (get_pr_data env token view w).0 ≡ returned o
    → (d : PrData) → o ≡ some d
    → (env.get_pull token view.repo_full_name view.pr_number).answer ≡ returned d
unfolding get_pr_data
get_pr_data-returned env token view w o e d f = ground arith

-- What the answer is, by the two tests.
settle_before_merge-some :
    (env : Env) (now : ℕ) (pre : Preflight) (d : PrData) (w : World)
    → (settle_before_merge env now pre (some d) w).0 ≡ returned (d.merged || is_drifted pre.view d)
unfolding settle_before_merge log_failure log_merged log_attempt write_back count_up pure ◌>>=◌
settle_before_merge-some env now pre d w = elim (Bool-cases d.merged) [
  | inl e ↦ rw e
  | inr e ↦ elim (Bool-cases (is_drifted pre.view d)) [ inl f ↦ rw (e, f) | inr f ↦ rw (e, f) ]
]

neither : (a b : Bool) → returned (a || b) ≡ returned false → (a ≡ false) × (b ≡ false)
neither a b h = ground arith

some_eq : {d d' : PrData} → some d ≡ some d' → d' ≡ d
some_eq e = cc

pub settle_before_merge-returned :
    (env : Env) (now : ℕ) (pre : Preflight) (o : Option PrData) (w : World) (settled : Bool)
    → (settle_before_merge env now pre o w).0 ≡ returned settled
    → (d : PrData) → o ≡ some d
    → settled ≡ false
    → (d.merged ≡ false) × (is_drifted pre.view d ≡ false)
settle_before_merge-returned env now pre none w settled e d f g = cc
settle_before_merge-returned env now pre (some x) w settled e d f g =
    rw (some_eq f)
      (neither _ _ (sym (settle_before_merge-some env now pre x w) ∙ e ∙ ap returned g))

-- What the first stage says of a row that goes on.
abbrev pub IsPassed : Env → Row → Option String → Option Preflight → Type 0
IsPassed env view tok o =
    (pre : Preflight)
    → o ≡ some pre
    → (pre.view ≡ view) × (pre.claim_token ≡ tok) × IsCleared env pre

same_preflight : {p p' : Preflight} → some p ≡ some p' → p ≡ p'
same_preflight e = cc

same_answer : {o o' : Option Preflight} → returned o ≡ returned o' → o ≡ o'
same_answer e = cc

module _ (env : Env) (now : ℕ) (view : Row) (tok : Option String) where
  preflight_of-IsPassed :
      (token : String)
      → view.attempts_count < view.max_attempts
      → resolve_github_token env view.repo_full_name ≡ some token
      → IsPassed env view tok (some (preflight_of env view tok token))
  preflight_of-IsPassed token left found pre f =
      subst (λ (p : Preflight). (p.view ≡ view) × (p.claim_token ≡ tok) × IsCleared env p)
        (same_preflight f)
        (
          refl,
          refl,
          record { attempts_left = left; token_found = found; cfg_read = refl; change_seen = refl },
        )

  check_config-some :
      (token : String) (w : World)
      → (check_config env view tok token w).0 ≡ returned (some (preflight_of env view tok token))
  unfolding check_config log_failure log_attempt write_back pure ◌>>=◌
  check_config-some token w =
      elim (Bool-cases (config_is_changed view (env.repo_config view.repo_full_name))) [
        | inl e ↦ rw e
        | inr e ↦ rw e
      ]

  pub preflight_retry-returned :
      (w : World) (o : Option Preflight)
      → (preflight_retry env now view tok w).0 ≡ returned o
      → IsPassed env view tok o
  unfolding preflight_retry log_failure log_attempt write_back count_up pure ◌>>=◌
  preflight_retry-returned w o e = elim (Bool-cases (leb view.max_attempts view.attempts_count)) [
    | inl c ↦ λ pre f. cc (rw (c, preflight_retry) at e)
    | inr c ↦ elim (Option-cases (resolve_github_token env view.repo_full_name)) [
      | inl t ↦ λ pre f. cc (rw (c, t, preflight_retry) at e)
      | inr (token, t) ↦
          let p = check_config-some token w in
          subst (IsPassed env view tok) (same_answer (sym p ∙ rw (c, t, preflight_retry) at e))
            (preflight_of-IsPassed token (omega (arith, leb→lt _ _ c)) t)
    ]
  ]
