-- ===== src/Webhook/Secrets.antt =====
-- src/webhook/_helpers.py and validator.py: the cache of the repositories' secrets, and the signature. A time
-- is a number of microseconds of the monotonic clock. The dictionary is the list of its entries in the
-- order of insertion.
use scamanager.Prelude.{
  ℕ, ◌+◌, ◌*◌, String, Option, none, some, Bool, false, not, ◌&&◌, List, [], ◌∷◌, ◌++◌, filter,
  find?, any, length, update_where, ltb, leb, str_eq, if◌then◌else◌,
}
use scamanager.Prelude.Text.{is_empty, starts_with, join}

abbrev pub webhook_secret_cache_ttl : ℕ
webhook_secret_cache_ttl = 300

abbrev pub webhook_secret_cache_max : ℕ
webhook_secret_cache_max = 2048

-- An entry of `_webhook_secret_cache`.
pub record CachedSecret : Type 0 where
  pub full_name : String
  pub secret : String
  pub expiry : ℕ

abbrev pub is_secret_of : String → CachedSecret → Bool
is_secret_of name e = str_eq e.full_name name

abbrev pub is_live : ℕ → CachedSecret → Bool
is_live now e = ltb now e.expiry

abbrev pub earlier : CachedSecret → CachedSecret → CachedSecret
earlier best e = if ltb e.expiry best.expiry then e else best

-- `min` by the expiry: the first of the earliest.
unfoldable pub soonest_of : CachedSecret → List CachedSecret → CachedSecret
soonest_of best [] = best
soonest_of best (e ∷ es) = soonest_of (earlier best e) es

unfoldable pub evict_soonest : List CachedSecret → List CachedSecret
unfolding soonest_of
evict_soonest [] = []
evict_soonest (e ∷ es) = filter (λ x. not (is_secret_of (soonest_of e es).full_name x)) (e ∷ es)

abbrev pub evict_if_full : List CachedSecret → List CachedSecret
evict_if_full cache =
    if leb webhook_secret_cache_max (length cache) then evict_soonest cache else cache

unfoldable pub make_secret_room : ℕ → List CachedSecret → List CachedSecret
unfolding evict_soonest
make_secret_room now cache =
    if leb webhook_secret_cache_max (length cache)
    then evict_if_full (filter (is_live now) cache)
    else cache

abbrev pub renewed : CachedSecret → CachedSecret → CachedSecret
renewed new e = new

-- `cache[full_name] = …`: an entry that is there keeps its place.
unfoldable pub put_secret : CachedSecret → List CachedSecret → List CachedSecret
put_secret new cache =
    if any (is_secret_of new.full_name) cache
    then update_where (is_secret_of new.full_name) (renewed new) cache
    else cache ++ (new ∷ [])

unfoldable pub store_secret : String → String → ℕ → List CachedSecret → List CachedSecret
unfolding make_secret_room put_secret
store_secret name secret now cache =
    put_secret
      (record {
        full_name = name;
        secret = secret;
        expiry = now + webhook_secret_cache_ttl * 1000000;
      })
      (make_secret_room now cache)

-- What the database says of a repository's own secret: the reading fails, or there is none, or an empty one,
-- or one.
pub data SecretLookup : Type 0 where
  lookup_failed : SecretLookup
  looked_up : Option String → SecretLookup

abbrev pub own_or_global : String → Option String → String
own_or_global global none = global
own_or_global global (some s) = if is_empty s then global else s

abbrev pub after_lookup :
    String → String → ℕ → SecretLookup → List CachedSecret → String × List CachedSecret
after_lookup global name now lookup_failed cache = (global, cache)
after_lookup global name now (looked_up own) cache =
    (own_or_global global own, store_secret name (own_or_global global own) now cache)

abbrev pub cached_or :
    String
    → String
    → ℕ
    → SecretLookup
    → List CachedSecret
    → Option CachedSecret
    → String × List CachedSecret
cached_or global name now lookup cache none = after_lookup global name now lookup cache
cached_or global name now lookup cache (some e) =
    if is_live now e then (e.secret, cache) else after_lookup global name now lookup cache

unfoldable pub get_webhook_secret :
    String → String → ℕ → SecretLookup → List CachedSecret → String × List CachedSecret
unfolding store_secret
get_webhook_secret global name now lookup cache =
    cached_or global name now lookup cache (find? (is_secret_of name) cache)

-- `hexdigest` is the HMAC of a payload under a secret, as hexadecimal digits.
unfoldable pub verify_github_signature :
    (String → String → String) → String → Option String → String → Bool
verify_github_signature hexdigest payload none secret = false
verify_github_signature hexdigest payload (some header) secret =
    if not (is_empty header) && starts_with "sha256=" header
    then str_eq (join "sha256=" (hexdigest secret payload)) header
    else false
