-- ===== src/Pipeline/Analysed/Results.antt =====
-- What a stored result says: the languages that are listed, and when the score is not reliable.
use Prim.Native.Nat.{Ordering}
use Prim.Native.String.{compare}
use text.Mathlib.Text.{is_eq}
use scamanager.Prelude.{
  ◌≡◌, refl, subst, sym, ap, ◌∙◌, ◌⊎◌, inl, inr, ◌↔◌, String, Option, none, some, Bool, true, false,
  ◌||◌, List, [], ◌∷◌, Memᴰ, any, eq_iff, str_eq, or_cases, arith, some_eq,
}
use scamanager.Scorer.Defs.{StaticAnalysisResult}
use scamanager.Gate.Guards.{insert_sorted}
use scamanager.Pipeline.Tables.{ResultDict, score_is_unreliable}
use scamanager.Pipeline.Save.{add_language, uncovered_languages, aggregate_no_dedicated_observers}

Memᴰ-insert_sorted : (s l : String) (ls : List String) → Memᴰ l ls → Memᴰ l (insert_sorted s ls)
unfolding insert_sorted
Memᴰ-insert_sorted s l [] m = elim m [ ]
Memᴰ-insert_sorted s l (x ∷ ls) m = placed (compare s x) m (λ n. Memᴰ-insert_sorted s l ls n)
  where
    placed :
        (o : Ordering)
        → Memᴰ l (x ∷ ls)
        → (Memᴰ l ls → Memᴰ l (insert_sorted s ls))
        → Memᴰ l (elim o [
          | Ordering.lt ↦ s ∷ x ∷ ls
          | Ordering.eq ↦ x ∷ ls
          | Ordering.gt ↦ x ∷ insert_sorted s ls
        ])
    placed Ordering.lt m on = Memᴰ.tail m
    placed Ordering.eq m on = m
    placed Ordering.gt (Memᴰ.head e) on = Memᴰ.head e
    placed Ordering.gt (Memᴰ.tail m) on = Memᴰ.tail (on m)

insert_sorted-own : (s : String) (ls : List String) → Memᴰ s (insert_sorted s ls)
unfolding insert_sorted
insert_sorted-own s [] = Memᴰ.head refl
insert_sorted-own s (x ∷ ls) = placed (compare s x) refl (insert_sorted-own s ls)
  where
    placed :
        (o : Ordering)
        → compare s x ≡ o
        → Memᴰ s (insert_sorted s ls)
        → Memᴰ s (elim o [
          | Ordering.lt ↦ s ∷ x ∷ ls
          | Ordering.eq ↦ x ∷ ls
          | Ordering.gt ↦ x ∷ insert_sorted s ls
        ])
    placed Ordering.lt e own = Memᴰ.head refl
    placed Ordering.eq e own = Memᴰ.head ((eq_iff s x).0 (ap is_eq e))
    placed Ordering.gt e own = Memᴰ.tail own

insert_sorted-origin :
    (s l : String) (ls : List String) → Memᴰ l (insert_sorted s ls) → (l ≡ s) ⊎ Memᴰ l ls
unfolding insert_sorted
insert_sorted-origin s l [] (Memᴰ.head e) = inl e
insert_sorted-origin s l [] (Memᴰ.tail m) = elim m [ ]
insert_sorted-origin s l (x ∷ ls) m = origin (compare s x) m (λ n. insert_sorted-origin s l ls n)
  where
    origin :
        (o : Ordering)
        → Memᴰ l (elim o [
          | Ordering.lt ↦ s ∷ x ∷ ls
          | Ordering.eq ↦ x ∷ ls
          | Ordering.gt ↦ x ∷ insert_sorted s ls
        ])
        → (Memᴰ l (insert_sorted s ls) → (l ≡ s) ⊎ Memᴰ l ls)
        → (l ≡ s) ⊎ Memᴰ l (x ∷ ls)
    origin Ordering.lt (Memᴰ.head e) on = inl e
    origin Ordering.lt (Memᴰ.tail m) on = inr m
    origin Ordering.eq m on = inr m
    origin Ordering.gt (Memᴰ.head e) on = inr (Memᴰ.head e)
    origin Ordering.gt (Memᴰ.tail m) on = elim (on m) [ inl e ↦ inl e | inr n ↦ inr (Memᴰ.tail n) ]

-- The listed languages are those that one of the results names.
abbrev pub Lists :
    (StaticAnalysisResult → Option String) → List StaticAnalysisResult → List String → Type 0
Lists named results listed =
    (l : String)
    → Memᴰ l listed ↔ ((r : StaticAnalysisResult) × Memᴰ r results × (named r ≡ some l))

add_language-Lists :
    (named : StaticAnalysisResult → Option String) (r : StaticAnalysisResult)
    (results : List StaticAnalysisResult) (listed : List String)
    → Lists named results listed
    → Lists named (r ∷ results) (add_language (named r) listed)
add_language-Lists named r results listed h l = from (named r) refl
  where
    from :
        (o : Option String)
        → named r ≡ o
        → Memᴰ l (add_language o listed)
          ↔ ((s : StaticAnalysisResult) × Memᴰ s (r ∷ results) × (named s ≡ some l))
    from none e = (
      λ m. let (s, n, f) = (h l).0 m in (s, Memᴰ.tail n, f),
      λ (s, n, f). elim n [
        | Memᴰ.head same ↦ absurd (not_named (sym e ∙ ap named (sym same) ∙ f))
        | Memᴰ.tail n ↦ (h l).1 (s, n, f)
      ],
    )
      where
        not_named : none ≡ some l → ⊥
        not_named e = cc e
    from (some k) e = (
      λ m. elim (insert_sorted-origin k l listed m) [
        | inl same ↦ (r, Memᴰ.head refl, e ∙ ap some (sym same))
        | inr n ↦ let (s, o, f) = (h l).0 n in (s, Memᴰ.tail o, f)
      ],
      λ (s, n, f). elim n [
        | Memᴰ.head same ↦
            subst (λ x. Memᴰ x (insert_sorted k listed)) (some_eq (sym e ∙ ap named (sym same) ∙ f))
              (insert_sorted-own k listed)
        | Memᴰ.tail n ↦ Memᴰ-insert_sorted k l listed ((h l).1 (s, n, f))
      ],
    )

none_named : (named : StaticAnalysisResult → Option String) → Lists named [] []
none_named named l = (λ m. elim m [ ], λ (s, n, f). elim n [ ])

pub uncovered_languages-Lists :
    (results : List StaticAnalysisResult)
    → Lists (λ r. r.uncovered_language) results (uncovered_languages results)
unfolding uncovered_languages
uncovered_languages-Lists [] = none_named (λ r. r.uncovered_language)
uncovered_languages-Lists (r ∷ results) =
    add_language-Lists (λ r. r.uncovered_language) r results (uncovered_languages results)
      (uncovered_languages-Lists results)

pub aggregate_no_dedicated_observers-Lists :
    (results : List StaticAnalysisResult)
    → Lists (λ r. r.no_dedicated_observer) results (aggregate_no_dedicated_observers results)
unfolding aggregate_no_dedicated_observers
aggregate_no_dedicated_observers-Lists [] = none_named (λ r. r.no_dedicated_observer)
aggregate_no_dedicated_observers-Lists (r ∷ results) =
    add_language-Lists (λ r. r.no_dedicated_observer) r results
      (aggregate_no_dedicated_observers results) (aggregate_no_dedicated_observers-Lists results)

-- A list of languages that is not empty.
abbrev pub AnyOf : List String → Type 0
AnyOf ls = (l : String) × Memᴰ l ls

-- The review failed.
abbrev pub IsFailedReview : String → Type 0
IsFailedReview status = (status ≡ "api_error") ⊎ (status ≡ "parse_error")

-- The score says less than it seems to: the review failed, was switched off, had no key or nothing to review, or its
-- parts of the score are the defaults; the static analysis is incomplete; it is the CLI hook's; or a
-- language has no analyser of its own.
abbrev pub IsDoubtful : ResultDict → Type 0
IsDoubtful d =
    IsFailedReview d.ai_review_status
    ⊎ (d.static_analysis_incomplete ≡ true)
    ⊎ (d.source ≡ "cli")
    ⊎ (d.ai_review_status ≡ "disabled")
    ⊎ (d.ai_review_status ≡ "no_api_key")
    ⊎ (d.ai_review_status ≡ "empty_diff")
    ⊎ (d.ai_defaults_applied ≡ true)
    ⊎ AnyOf d.static_uncovered_languages
    ⊎ AnyOf d.static_no_dedicated_observers

any-AnyOf : (ls : List String) → (any (λ l. true) ls ≡ true) ↔ AnyOf ls
any-AnyOf [] = (λ e. cc, λ (l, m). elim m [ ])
any-AnyOf (x ∷ ls) = (λ e. (x, Memᴰ.head refl), λ m. refl)

or_left : (a b : Bool) → a ≡ true → (a || b) ≡ true
or_left a b e = rw e refl

or_right : (a b : Bool) → b ≡ true → (a || b) ≡ true
or_right a b e = ground arith

or_iff :
    (a b : Bool) {A B : Type 0} → ((a ≡ true) ↔ A) → ((b ≡ true) ↔ B) → ((a || b) ≡ true) ↔ (A ⊎ B)
or_iff a b f g = (
  λ e. elim (or_cases a b e) [ inl t ↦ inl (f.0 t) | inr t ↦ inr (g.0 t) ],
  λ s. elim s [ inl x ↦ or_left a b (f.1 x) | inr y ↦ or_right a b (g.1 y) ],
)

flat :
    (a b c e f g h i k : Bool)
    → ((((((((a || b) || c) || e) || f) || g) || h) || i) || k)
      ≡ (a || (b || (c || (e || (f || (g || (h || (i || k))))))))
flat true b c e f g h i k = refl
flat false true c e f g h i k = refl
flat false false true e f g h i k = refl
flat false false false true f g h i k = refl
flat false false false false true g h i k = refl
flat false false false false false true h i k = refl
flat false false false false false false true i k = refl
flat false false false false false false false true k = refl
flat false false false false false false false false k = refl

pub failed-IsFailedReview :
    (status : String)
    → ((str_eq status "api_error" || str_eq status "parse_error") ≡ true) ↔ IsFailedReview status
failed-IsFailedReview status =
    or_iff (str_eq status "api_error") (str_eq status "parse_error") (eq_iff status "api_error")
      (eq_iff status "parse_error")

pub score_is_unreliable_iff : (d : ResultDict) → (score_is_unreliable d ≡ true) ↔ IsDoubtful d
unfolding score_is_unreliable
score_is_unreliable_iff d =
    subst (λ b. (b ≡ true) ↔ IsDoubtful d)
      (sym (
        flat (str_eq d.ai_review_status "api_error" || str_eq d.ai_review_status "parse_error")
          d.static_analysis_incomplete (str_eq d.source "cli")
          (str_eq d.ai_review_status "disabled") (str_eq d.ai_review_status "no_api_key")
          (str_eq d.ai_review_status "empty_diff") d.ai_defaults_applied
          (any (λ l. true) d.static_uncovered_languages)
          (any (λ l. true) d.static_no_dedicated_observers)))
      (or_iff _ _ (failed-IsFailedReview d.ai_review_status) (
        or_iff _ _ (λ e. e, λ e. e)
          (or_iff _ _ (eq_iff d.source "cli") (
            or_iff _ _ (eq_iff d.ai_review_status "disabled") (
              or_iff _ _ (eq_iff d.ai_review_status "no_api_key") (
                or_iff _ _ (eq_iff d.ai_review_status "empty_diff") (
                  or_iff _ _ (λ e. e, λ e. e)
                    (or_iff _ _ (any-AnyOf d.static_uncovered_languages)
                      (any-AnyOf d.static_no_dedicated_observers)))))))))
