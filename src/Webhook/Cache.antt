-- ===== src/Webhook/Cache.antt =====
-- How many secrets the cache keeps.
use scamanager.Prelude.{
  ℕ, suc, ◌≤◌, ◌<◌, ◌≡◌, refl, String, Option, none, some, true, List, [], ◌∷◌, ◌++◌, filter, find?,
  any, update_where, length, ltb, leb, leb→lt, arith, Bool-cases, eq_refl, inl, inr,
}
use scamanager.Prelude.Lengths.{
  length-update_where, length-snoc, length-filter, length-filter-not, if_holds,
}
use scamanager.Webhook.Secrets.{
  webhook_secret_cache_max, CachedSecret, is_secret_of, is_live, earlier, soonest_of, evict_soonest,
  evict_if_full, make_secret_room, renewed, put_secret, store_secret, SecretLookup, lookup_failed,
  looked_up, after_lookup, cached_or, get_webhook_secret,
}

any_later :
    (name : String) (best : CachedSecret) (e : CachedSecret) (es : List CachedSecret)
    → any (is_secret_of name) (earlier best e ∷ es) ≡ true
    → any (is_secret_of name) (best ∷ e ∷ es) ≡ true
any_later name best e es h = elim (Bool-cases (ltb e.expiry best.expiry)) [
  | inl t ↦ let k = rw t at h in ground arith
  | inr t ↦ let k = rw t at h in ground arith
]

any-soonest_of :
    (best : CachedSecret) (es : List CachedSecret)
    → any (is_secret_of (soonest_of best es).full_name) (best ∷ es) ≡ true
unfolding soonest_of
any-soonest_of best [] = rw (eq_refl best.full_name) refl
any-soonest_of best (e ∷ es) = any_later _ best e es (any-soonest_of (earlier best e) es)

length-evict_soonest :
    (e : CachedSecret) (es : List CachedSecret) → length (evict_soonest (e ∷ es)) < length (e ∷ es)
unfolding evict_soonest
length-evict_soonest e es =
    length-filter-not (is_secret_of (soonest_of e es).full_name) (e ∷ es) (any-soonest_of e es)

length-evict_if_full :
    (cache : List CachedSecret)
    → length cache ≤ webhook_secret_cache_max
    → length (evict_if_full cache) < webhook_secret_cache_max
length-evict_if_full [] h = omega arith
length-evict_if_full (e ∷ es) h =
    if_holds (λ c. length c < webhook_secret_cache_max)
      (leb webhook_secret_cache_max (length (e ∷ es))) (evict_soonest (e ∷ es)) (e ∷ es)
      (λ t. omega (arith, length-evict_soonest e es, h)) (λ t. leb→lt _ _ t)

length-make_secret_room :
    (now : ℕ) (cache : List CachedSecret)
    → length cache ≤ webhook_secret_cache_max
    → length (make_secret_room now cache) < webhook_secret_cache_max
unfolding make_secret_room
length-make_secret_room now cache h =
    if_holds (λ c. length c < webhook_secret_cache_max)
      (leb webhook_secret_cache_max (length cache)) (evict_if_full (filter (is_live now) cache))
      cache
      (λ t.
        length-evict_if_full (filter (is_live now) cache)
          (omega (arith, length-filter (is_live now) cache, h)))
      (λ t. leb→lt _ _ t)

length-put_secret :
    (new : CachedSecret) (cache : List CachedSecret)
    → length (put_secret new cache) ≤ suc (length cache)
unfolding put_secret
length-put_secret new cache =
    if_holds (λ c. length c ≤ suc (length cache)) (any (is_secret_of new.full_name) cache)
      (update_where (is_secret_of new.full_name) (renewed new) cache) (cache ++ (new ∷ []))
      (λ t. omega (arith, length-update_where (is_secret_of new.full_name) (renewed new) cache))
      (λ t. omega (arith, length-snoc cache new))

after_lookup_small :
    (global name : String) (now : ℕ) (lookup : SecretLookup) (cache : List CachedSecret)
    → length cache ≤ webhook_secret_cache_max
    → length (after_lookup global name now lookup cache).1 ≤ webhook_secret_cache_max
unfolding store_secret
after_lookup_small global name now lookup_failed cache h = h
after_lookup_small global name now (looked_up own) cache h =
    omega
      (arith, length-put_secret _ (make_secret_room now cache), length-make_secret_room now cache h)

-- The cache of the secrets never has more than its cap.
pub get_webhook_secret_small :
    (global name : String) (now : ℕ) (lookup : SecretLookup) (cache : List CachedSecret)
    → length cache ≤ webhook_secret_cache_max
    → length (get_webhook_secret global name now lookup cache).1 ≤ webhook_secret_cache_max
unfolding get_webhook_secret
get_webhook_secret_small global name now lookup cache h = of (find? (is_secret_of name) cache)
  where
    of :
        (found : Option CachedSecret)
        → length (cached_or global name now lookup cache found).1 ≤ webhook_secret_cache_max
    of none = after_lookup_small global name now lookup cache h
    of (some e) =
        if_holds (λ r. length r.1 ≤ webhook_secret_cache_max) (is_live now e) (e.secret, cache)
          (after_lookup global name now lookup cache) (λ t. h)
          (λ t. after_lookup_small global name now lookup cache h)
