-- ===== src/Webhook/Freshness.antt =====
-- How old a cached secret may be.
use scamanager.Prelude.{
  ℕ, ◌+◌, ◌*◌, ◌<◌, ◌≡◌, refl, ◌⊎◌, inl, inr, String, Option, none, some, not, List, [], ◌∷◌, ◌++◌,
  filter, find?, subst, any, length, update_where, leb, All, All-imp, All-append, All-filter,
  All-update_where, All-elim, Memᴰ, find?-some, arith, eq_iff,
}
use scamanager.Prelude.Lengths.{if_holds}
use scamanager.Webhook.Secrets.{
  webhook_secret_cache_ttl, webhook_secret_cache_max, CachedSecret, is_secret_of, is_live,
  soonest_of, evict_soonest, evict_if_full, make_secret_room, renewed, put_secret, store_secret,
  SecretLookup, lookup_failed, looked_up, own_or_global, after_lookup, cached_or,
  get_webhook_secret,
}

-- A call of `get_webhook_secret`: for whom, when, and what the database would say.
pub record Ask : Type 0 where
  pub full_name : String
  pub now : ℕ
  pub lookup : SecretLookup

-- The calls in their order, the last one first.
unfoldable pub cache_after : String → List Ask → List CachedSecret
cache_after global [] = []
cache_after global (a ∷ asks) =
    (get_webhook_secret global a.full_name a.now a.lookup (cache_after global asks)).1

-- The secret of a repository as the database gave it at a time, the global one standing in for none.
pub record IsFrom (global : String) (asks : List Ask) (name secret : String) (expiry : ℕ)
    : Type 0 where
  pub ask : Ask
  pub asked : Memᴰ ask asks
  pub own : Option String
  pub same_name : ask.full_name ≡ name
  pub answer : ask.lookup ≡ looked_up own
  pub same_secret : secret ≡ own_or_global global own
  pub until : expiry ≡ ask.now + webhook_secret_cache_ttl * 1000000

module _ (global : String) where
  abbrev IsKnown : List Ask → CachedSecret → Type 0
  IsKnown asks e = IsFrom global asks e.full_name e.secret e.expiry

  IsKnown-later :
      (a : Ask) (asks : List Ask) (e : CachedSecret) → IsKnown asks e → IsKnown (a ∷ asks) e
  IsKnown-later a asks e h = record {
    ask = h.ask;
    asked = Memᴰ.tail h.asked;
    own = h.own;
    same_name = h.same_name;
    answer = h.answer;
    same_secret = h.same_secret;
    until = h.until;
  }

  module _ (P : CachedSecret → Type 0) where
    All-evict_soonest : (cache : List CachedSecret) → All P cache → All P (evict_soonest cache)
    unfolding evict_soonest
    All-evict_soonest [] h = tt
    All-evict_soonest (e ∷ es) h =
        All-filter P (λ x. not (is_secret_of (soonest_of e es).full_name x)) (e ∷ es) h

    All-make_secret_room :
        (now : ℕ) (cache : List CachedSecret) → All P cache → All P (make_secret_room now cache)
    unfolding make_secret_room
    All-make_secret_room now cache h =
        if_holds (All P) (leb webhook_secret_cache_max (length cache))
          (evict_if_full (filter (is_live now) cache)) cache
          (λ _.
            if_holds (All P) (leb webhook_secret_cache_max (length (filter (is_live now) cache)))
              (evict_soonest (filter (is_live now) cache)) (filter (is_live now) cache)
              (λ _. All-evict_soonest _ (All-filter P (is_live now) cache h))
              (λ _. All-filter P (is_live now) cache h))
          (λ _. h)

    All-put_secret :
        (new : CachedSecret) (cache : List CachedSecret)
        → P new
        → All P cache
        → All P (put_secret new cache)
    unfolding put_secret
    All-put_secret new cache p h =
        if_holds (All P) (any (is_secret_of new.full_name) cache)
          (update_where (is_secret_of new.full_name) (renewed new) cache) (cache ++ (new ∷ []))
          (λ _.
            All-update_where P (is_secret_of new.full_name) (renewed new) cache
              (All-imp P _ (λ x _ _. p) cache h) h)
          (λ _. All-append P cache (new ∷ []) h (p, tt))

  -- A call leaves only what the database has said.
  lookup-IsKnown :
      (a : Ask) (lookup : SecretLookup) (asks : List Ask) (cache : List CachedSecret)
      → a.lookup ≡ lookup
      → All (IsKnown asks) cache
      → All (IsKnown (a ∷ asks)) (after_lookup global a.full_name a.now lookup cache).1
  unfolding store_secret
  lookup-IsKnown a lookup_failed asks cache e h = All-imp _ _ (IsKnown-later a asks) cache h
  lookup-IsKnown a (looked_up own) asks cache e h =
      All-put_secret (IsKnown (a ∷ asks)) _ (make_secret_room a.now cache)
        (record {
          ask = a;
          asked = Memᴰ.head refl;
          own = own;
          same_name = refl;
          answer = e;
          same_secret = refl;
          until = refl;
        })
        (All-make_secret_room _ a.now cache (All-imp _ _ (IsKnown-later a asks) cache h))

  call-IsKnown :
      (a : Ask) (asks : List Ask) (cache : List CachedSecret) (found : Option CachedSecret)
      → All (IsKnown asks) cache
      → All (IsKnown (a ∷ asks)) (cached_or global a.full_name a.now a.lookup cache found).1
  call-IsKnown a asks cache none h = lookup-IsKnown a a.lookup asks cache refl h
  call-IsKnown a asks cache (some e) h =
      if_holds {A = String × List CachedSecret} (λ r. All (IsKnown (a ∷ asks)) r.1)
        (is_live a.now e) (e.secret, cache) (after_lookup global a.full_name a.now a.lookup cache)
        (λ _. All-imp _ _ (IsKnown-later a asks) cache h)
        (λ _. lookup-IsKnown a a.lookup asks cache refl h)

  cache_after-IsKnown : (asks : List Ask) → All (IsKnown asks) (cache_after global asks)
  unfolding cache_after get_webhook_secret
  cache_after-IsKnown [] = tt
  cache_after-IsKnown (a ∷ asks) =
      call-IsKnown a asks (cache_after global asks) _ (cache_after-IsKnown asks)

  -- What a call answers with: the global secret after a failed look, the secret that the look gives, or one
  -- that an earlier look gave less than five minutes ago.
  abbrev pub IsCurrent : List Ask → Ask → String → Type 0
  IsCurrent asks a secret =
      ((a.lookup ≡ lookup_failed) × (secret ≡ global))
      ⊎ (((own : Option String) × (a.lookup ≡ looked_up own) × (secret ≡ own_or_global global own))
          ⊎ ((expiry : ℕ) × IsFrom global asks a.full_name secret expiry × (a.now < expiry)))

  looked-IsCurrent :
      (a : Ask) (lookup : SecretLookup) (asks : List Ask) (cache : List CachedSecret)
      → a.lookup ≡ lookup
      → IsCurrent asks a (after_lookup global a.full_name a.now lookup cache).0
  looked-IsCurrent a lookup_failed asks cache e = inl (e, refl)
  looked-IsCurrent a (looked_up own) asks cache e = inr (inl (own, e, refl))

  found-IsCurrent :
      (a : Ask) (asks : List Ask) (cache : List CachedSecret) (found : Option CachedSecret)
      → find? (is_secret_of a.full_name) cache ≡ found
      → All (IsKnown asks) cache
      → IsCurrent asks a (cached_or global a.full_name a.now a.lookup cache found).0
  found-IsCurrent a asks cache none f h = looked-IsCurrent a a.lookup asks cache refl
  found-IsCurrent a asks cache (some e) f h =
      if_holds {A = String × List CachedSecret} (λ r. IsCurrent asks a r.0) (is_live a.now e)
        (e.secret, cache) (after_lookup global a.full_name a.now a.lookup cache)
        (λ live. inr (inr (e.expiry, named, ground arith)))
        (λ _. looked-IsCurrent a a.lookup asks cache refl)
    where
      named : IsFrom global asks a.full_name e.secret e.expiry
      named =
          let (here, same) = find?-some (is_secret_of a.full_name) cache f in
          subst (λ n. IsFrom global asks n e.secret e.expiry)
            ((eq_iff e.full_name a.full_name).0 same) (All-elim _ cache h here)

  -- After any calls, for whatever repositories, a call answers with what the database says now, with the global
  -- secret where it has none or its reading fails, or with the answer of a call for the same repository whose
  -- reading did not fail and was less than 300 seconds ago.
  pub get_webhook_secret-IsCurrent :
      (asks : List Ask) (a : Ask)
      → IsCurrent asks a
          (get_webhook_secret global a.full_name a.now a.lookup (cache_after global asks)).0
  unfolding get_webhook_secret
  get_webhook_secret-IsCurrent asks a =
      found-IsCurrent a asks (cache_after global asks) _ refl (cache_after-IsKnown asks)
