-- ===== src/Gate/Guards.antt =====
-- src/gate/sensitive_paths.py and src/gate/merge_verifier.py: the two guards in front of an automatic
-- merge. Whether a path matches one of the patterns is a parameter, and so is the prompt's text.
use Prim.Native.Nat.{Ordering}
use Prim.Native.String.{◌++◌, compare}
use scamanager.Prelude.{
  ℕ, suc, String, Option, none, some, Bool, true, false, not, ◌&&◌, List, [], ◌∷◌, take, str_eq,
  ltb, if◌then◌else◌,
}
use scamanager.Prelude.Int.{ℤ, leb_int}
use scamanager.Prelude.Text.{is_empty}
use scamanager.Prelude.Effects.{Answer, returned, send_error, unexpected, ◌>>=◌, ◌>>◌, pure}
use scamanager.Gate.World.{
  ChangedFile, VerifierText, not_json, not_object, object, list_filenames, list_files, post_comment,
  ask_verifier, GateEnv, Gate, call,
}

-- `except Exception` with another value in its place.
unfoldable pub on_any_error : {A : Type 0} → A → Gate A → Gate A
on_any_error other m w =
    let (answer, w') = m w in
    (
      elim answer [
        | returned a ↦ returned a
        | send_error ↦ returned other
        | unexpected ↦ returned other
      ],
      w',
    )

-- An element of a set in the order of the texts.
unfoldable pub insert_sorted : String → List String → List String
insert_sorted s [] = s ∷ []
insert_sorted s (x ∷ xs) =
    let rest = insert_sorted s xs in
    elim (compare s x) [ Ordering.lt ↦ s ∷ x ∷ xs | Ordering.eq ↦ x ∷ xs | Ordering.gt ↦ x ∷ rest ]

unfoldable pub sensitive_paths_in : (String → Bool) → List String → List String
unfolding insert_sorted
sensitive_paths_in is_sensitive [] = []
sensitive_paths_in is_sensitive (name ∷ names) =
    let rest = sensitive_paths_in is_sensitive names in
    if not (is_empty name) && is_sensitive name then insert_sorted name rest else rest

-- The comment may fail; the merge is withheld all the same.
unfoldable pub withhold : GateEnv → String → ℕ → String → Gate Bool
withhold env repo pr why = do
  on_any_error tt (call env (post_comment repo pr why) env.done)
  pure true

abbrev pub holds_back : GateEnv → String → ℕ → Option (List String) → Gate Bool
holds_back env repo pr none = pure true
holds_back env repo pr (some names) = elim (sensitive_paths_in env.is_sensitive names) [
  | [] ↦ pure false
  | _ ∷ _ ↦ withhold env repo pr "sensitive_path_hold"
]

unfoldable pub listed_names : GateEnv → String → ℕ → Gate (Option (List String))
listed_names env repo pr =
    on_any_error none (do
      names ← call env (list_filenames repo pr) (λ n. env.filenames n repo pr)
      pure (some names))

unfoldable pub sensitive_paths_block_merge : GateEnv → String → ℕ → Gate Bool
sensitive_paths_block_merge env repo pr =
    if env.settings.sensitive_path_guard_disabled
    then pure false
    else (do names ← listed_names env repo pr; holds_back env repo pr names)

abbrev pub verifier_ok : String
verifier_ok = "ok"

abbrev pub verifier_api_error : String
verifier_api_error = "api_error"

abbrev pub verifier_parse_error : String
verifier_parse_error = "parse_error"

pub record VerifierVerdict : Type 0 where
  pub safe : Bool
  pub manipulation_detected : Bool
  pub reasons : List String
  pub status : String

abbrev pub verdict_of : String → String → VerifierVerdict
verdict_of reason status = record {
  safe = false;
  manipulation_detected = false;
  reasons = reason ∷ [];
  status = status;
}

unfoldable pub should_verify : GateEnv → ℤ → ℤ → Bool
should_verify env score merge_threshold =
    if env.settings.merge_verifier_disabled
    then false
    else if is_empty env.settings.openai_api_key
    then false
    else leb_int merge_threshold score

abbrev pub file_text : ChangedFile → String
file_text f = "--- " ++ (f.filename ++ ("\n" ++ f.patch))

unfoldable pub assemble_diff_text : List ChangedFile → String
assemble_diff_text [] = ""
assemble_diff_text (f ∷ []) = file_text f
assemble_diff_text (f ∷ g ∷ fs) = file_text f ++ ("\n" ++ assemble_diff_text (g ∷ fs))

abbrev pub text_length : String → ℕ
text_length String.[] = 0
text_length (String.◌∷◌ c s) = suc (text_length s)

abbrev pub verifier_diff_char_cap : ℕ
verifier_diff_char_cap = 60000

unfoldable pub diff_exceeds_cap : List ChangedFile → Bool
unfolding assemble_diff_text
diff_exceeds_cap patches = ltb verifier_diff_char_cap (text_length (assemble_diff_text patches))

-- `value is True` and `value is not False`.
abbrev pub is_true : Option Bool → Bool
is_true none = false
is_true (some b) = b

abbrev pub is_not_false : Option Bool → Bool
is_not_false none = true
is_not_false (some b) = b

abbrev pub first_three : Option (List String) → List String
first_three none = []
first_three (some reasons) = take 3 reasons

abbrev pub missing_keys : VerifierVerdict
missing_keys = verdict_of "verifier response missing keys" verifier_parse_error

unfoldable pub interpret_keys :
    Option (Option Bool) → Option (Option Bool) → List String → VerifierVerdict
interpret_keys none m reasons = missing_keys
interpret_keys (some s) none reasons = missing_keys
interpret_keys (some s) (some m) reasons = record {
  safe = is_true s;
  manipulation_detected = is_not_false m;
  reasons = reasons;
  status = verifier_ok;
}

-- `json.loads` and `interpret_verdict`.
unfoldable pub interpret_verdict : VerifierText → VerifierVerdict
unfolding interpret_keys
interpret_verdict not_json = verdict_of "verifier returned non-JSON" verifier_parse_error
interpret_verdict not_object = verdict_of "verifier returned non-object" verifier_parse_error
interpret_verdict (object raw) =
    interpret_keys raw.safe raw.manipulation_detected (first_three raw.reasons)

abbrev pub too_large : VerifierVerdict
too_large = verdict_of "diff too large to verify safely; manual review required" verifier_ok

abbrev pub call_failed : VerifierVerdict
call_failed = verdict_of "verifier call failed" verifier_api_error

abbrev pub fetch_failed : VerifierVerdict
fetch_failed = verdict_of "diff fetch failed" verifier_api_error

unfoldable pub ask : GateEnv → String → Gate VerifierVerdict
ask env prompt = on_any_error call_failed (do
  text ← call env (ask_verifier prompt) (λ n. env.verifier_reply n prompt)
  pure (interpret_verdict text))

-- The files and the prompt that they give; none where the one or the other fails.
pub data Prepared : Type 0 where
  unprepared over_cap : Prepared
  prompted : String → Prepared

abbrev pub prompt_of : Answer String → Prepared
prompt_of (returned prompt) = prompted prompt
prompt_of send_error = unprepared
prompt_of unexpected = unprepared

unfoldable pub prepare : GateEnv → String → ℕ → Gate Prepared
prepare env repo pr = on_any_error unprepared (do
  patches ← call env (list_files repo pr) (λ n. env.files n repo pr)
  pure (if diff_exceeds_cap patches then over_cap else prompt_of (env.verifier_prompt patches)))

unfoldable pub judge : GateEnv → Prepared → Gate VerifierVerdict
judge env unprepared = pure fetch_failed
judge env over_cap = pure too_large
judge env (prompted prompt) = ask env prompt

unfoldable pub verify_merge_safety : GateEnv → String → ℕ → Gate VerifierVerdict
verify_merge_safety env repo pr = do prepared ← prepare env repo pr; judge env prepared

abbrev pub is_cleared : VerifierVerdict → Bool
is_cleared v = str_eq v.status verifier_ok && (v.safe && not v.manipulation_detected)

unfoldable pub verifier_blocks_merge : GateEnv → String → ℕ → ℤ → ℤ → Gate Bool
verifier_blocks_merge env repo pr score merge_threshold =
    if should_verify env score merge_threshold
    then (do
      verdict ← verify_merge_safety env repo pr
      if is_cleared verdict
          then pure false
          else withhold env repo pr
              (if str_eq verdict.status verifier_ok then "verifier_blocked" else "verifier_error"))
    else pure false
