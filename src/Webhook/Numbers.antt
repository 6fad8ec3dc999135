-- ===== src/Webhook/Numbers.antt =====
-- The numbers of the issues that a merge closes.
use scamanager.Prelude.{ℕ, ◌≡◌, false, ◌==◌, List, [], ◌∷◌, or_false, any, All, All-imp}
use scamanager.Prelude.Lengths.{if_holds}
use scamanager.Prelude.Distinct.{AllDistinct}
use scamanager.Webhook.PullRequest.{distinct_numbers}

unseen : (seen ns : List ℕ) → All (λ y. any (λ x. x == y) seen ≡ false) (distinct_numbers seen ns)
unfolding distinct_numbers
unseen seen [] = tt
unseen seen (n ∷ ns) =
    if_holds (All (λ y. any (λ x. x == y) seen ≡ false)) (any (λ x. x == n) seen)
      (distinct_numbers seen ns) (n ∷ distinct_numbers (n ∷ seen) ns) (λ t. unseen seen ns)
      (λ t. (
        t,
        All-imp _ _ (λ y h. (or_false (n == y) (any (λ x. x == y) seen) h).1)
            (distinct_numbers (n ∷ seen) ns) (unseen (n ∷ seen) ns),
      ))

pub distinct_numbers-AllDistinct : (seen ns : List ℕ) → AllDistinct ◌==◌ (distinct_numbers seen ns)
unfolding distinct_numbers
distinct_numbers-AllDistinct seen [] = tt
distinct_numbers-AllDistinct seen (n ∷ ns) =
    if_holds (AllDistinct ◌==◌) (any (λ x. x == n) seen) (distinct_numbers seen ns)
      (n ∷ distinct_numbers (n ∷ seen) ns) (λ t. distinct_numbers-AllDistinct seen ns)
      (λ t. (
        All-imp _ _ (λ y h. (or_false (n == y) (any (λ x. x == y) seen) h).0)
            (distinct_numbers (n ∷ seen) ns) (unseen (n ∷ seen) ns),
        distinct_numbers-AllDistinct (n ∷ seen) ns,
      ))
