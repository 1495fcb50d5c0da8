-- ===== src/Auth/Views.antt =====
-- The token cache of src/app/salesforce/auth_client.py as what it promises: a map from keys to
-- tokens, whatever the order of the dictionary, that calls change in four ways.
use salesforce_master_servic.Base.{
  ◌+◌, ◌*◌, ◌≤◌, ◌≡◌, refl, sym, ap, ◌∙◌, subst, inl, inr, Option, none, some, [], arith,
  if◌then◌else◌, nat_eq, string_eq, ◌==◌, Bool-cases, Option-cases, or_default, lookup,
  lookup-erase, String, ◌<>◌, eq_iff, lower, rstrip_slash, given, ◌or_given◌,
}
use salesforce_master_servic.Json.{Json}
use salesforce_master_servic.Errors.{Result, ok, err}
use salesforce_master_servic.Auth.{
  Credentials, AuthSettings, Outside, Moment, CacheEntry, Cache, AccessToken, Identity, second,
  cache_min_lifetime_seconds, credential, build_cache_key, clear_cache, default_login_url,
  invalidate_cache, login_url_of, entry_of,
}
use salesforce_master_servic.Auth.Client.{
  key_for, get_access_token, fetch_identity, with_token, validate_credentials,
}
use salesforce_master_servic.Auth.Tokens.{IsSound, get_access_token-IsSound}
use salesforce_master_servic.Auth.Expiry.{compute_expires_at_bounds}

abbrev pub View : Type 0
View = String → Option CacheEntry

abbrev pub view : Cache → View
view cache k = lookup k cache

-- A token that is kept two to thirty minutes from its grant on.
pub record IsKeptBriefly (entry : CacheEntry) : Type 0 where
  pub at_least : entry.granted_at + cache_min_lifetime_seconds * second ≤ entry.expires_at
  pub at_most : entry.expires_at ≤ entry.granted_at + 1800 * second

-- Nothing changes.
abbrev pub Stays : View → View → Type 0
Stays v w = (k : String) → w k ≡ v k

-- Nothing changes, or the key gets a token that is kept briefly.
pub data Grants (key : String) (v w : View) : Type 0 where
  stays : Stays v w → Grants key v w
  grants :
      (entry : CacheEntry)
      → IsKeptBriefly entry
      → ((k : String) → w k ≡ (if key == k then some entry else v k))
      → Grants key v w

-- The key is forgotten, and no other.
abbrev pub Forgets : String → View → View → Type 0
Forgets key v w = (k : String) → w k ≡ (if key == k then none else v k)

-- The user is the subject of a JWT, if there is one.
abbrev user_of : Option String → Option String → String
user_of (some subject) username = subject
user_of none username = or_default username ""

-- What stands for a token in the map: the URL of the login, the type of the grant, the client and the
-- user, these two in lower case, and an empty text for what the credentials do not tell.
abbrev pub key_text : String → Credentials → String
key_text login_url credentials =
    login_url
    <> ("|"
        <> or_default (credential credentials "grant_type") ""
        <> "|"
        <> lower (or_default (credential credentials "client_id") "")
        <> "|"
        <> lower
            (user_of (credential credentials "jwt_subject") (credential credentials "username")))

user_of-eq : (a b : Option String) → or_default (a or_given b) "" ≡ user_of a b
user_of-eq (some subject) b = refl
user_of-eq none b = refl

build_cache_key-eq :
    (credentials : Credentials) (login_url : String)
    → build_cache_key credentials login_url ≡ key_text login_url credentials
unfolding build_cache_key
build_cache_key-eq credentials login_url =
    rw (user_of-eq (credential credentials "jwt_subject") (credential credentials "username")) refl

module _ (outside : Outside) (settings : AuthSettings) where
  -- A call of a public method that returned or raised, between two states of the cache.
  pub data Step (before after : Cache) : Type 0 where
    fetched :
        (moment : Moment) (credentials : Credentials) (r : Result AccessToken)
        → get_access_token outside settings moment credentials before ≡ some (r, after)
        → Step before after
    validated_by :
        (moment : Moment) (credentials : Credentials) (r : Result (Identity × Json × Json))
        → validate_credentials outside settings moment credentials before ≡ some (r, after)
        → Step before after
    cleared : after ≡ clear_cache before → Step before after
    invalidated :
        (credentials : Credentials) (login_url : Option String)
        → after ≡ invalidate_cache settings credentials login_url before
        → Step before after

  -- A login URL, or that of the settings, without the slashes at its end.
  abbrev pub url_or_default : Option String → String
  url_or_default url = rstrip_slash (or_default url (default_login_url settings))

  -- The key of the credentials where they log in.
  abbrev pub own_key : Credentials → String
  own_key credentials = key_text (url_or_default (credential credentials "login_url")) credentials

  abbrev pub Fetches : String → View → View → Result AccessToken → Type 0
  Fetches key v w (ok answer) = Grants key v w
  Fetches key v w (err exc) = Stays v w

  -- What each call may do to the map.
  unfoldable pub Refines : {before after : Cache} → Step before after → Type 0
  Refines {before} {after} (fetched moment credentials r h) =
      Fetches (own_key credentials) (view before) (view after) r
  Refines {before} {after} (validated_by moment credentials r h) =
      Grants (own_key credentials) (view before) (view after)
  Refines {before} {after} (cleared e) = (k : String) → view after k ≡ none
  Refines {before} {after} (invalidated credentials login_url e) =
      Forgets (key_text (url_or_default (given login_url)) credentials) (view before) (view after)

  key_for-own :
      (credentials : Credentials) → key_for outside settings credentials ≡ own_key credentials
  unfolding login_url_of
  key_for-own credentials = build_cache_key-eq credentials (login_url_of settings credentials)

  fetched-Fetches :
      (moment : Moment) (credentials : Credentials) (before after : Cache) (r : Result AccessToken)
      → IsSound outside settings moment credentials before (some (r, after))
      → Fetches (key_for outside settings credentials) (view before) (view after) r
  fetched-Fetches moment credentials before after (err exc) s = λ k. ap (lookup k) s
  fetched-Fetches moment credentials before after (ok answer) s = elim s.source [
    | inl (_, same) ↦ stays (λ k. ap (lookup k) same)
    | inr (_, (grant, _, e)) ↦
        let bounds = compute_expires_at_bounds moment.now grant in
        let brief : IsKeptBriefly (entry_of moment.now grant) = record {
          at_least = bounds.0;
          at_most = bounds.1;
        } in
        let key = key_for outside settings credentials in
        grants s.entry (subst (λ (x : CacheEntry). IsKeptBriefly x) (sym e) brief) (λ k.
          elim (Bool-cases (key == k)) [
            | inl q ↦
                let same : key ≡ k = (eq_iff key k).0 q in
                rw q (subst (λ (x : String). lookup x after ≡ some s.entry) same s.kept)
            | inr q ↦ rw q (s.others k q)
          ])
  ]

  -- What a validation leaves in the cache is what its token left there.
  with_token-keeps :
      (moment : Moment) (after : Cache) (r : Result (Identity × Json × Json))
      (got : Option (Result AccessToken × Cache))
      → with_token outside settings moment got ≡ some (r, after)
      → (q : Result AccessToken) × (got ≡ some (q, after))
  with_token-keeps moment after r none h = absurd (ground (arith, h))
  with_token-keeps moment after r (some (err exc, c)) h = (err exc, ground (arith, h))
  with_token-keeps moment after r (some (ok auth, c)) h =
      let found = fetch_identity outside settings moment auth.instance_url auth.access_token in
      elim (Option-cases found) [
        | inl e ↦ absurd (ground (arith, (rw e at h)))
        | inr (identity, e) ↦ (ok auth, ground (arith, (rw e at h)))
      ]

  step_fetched :
      (moment : Moment) (credentials : Credentials) (before after : Cache) (r : Result AccessToken)
      → get_access_token outside settings moment credentials before ≡ some (r, after)
      → Fetches (own_key credentials) (view before) (view after) r
  step_fetched moment credentials before after r h =
      subst (λ (key : String). Fetches key (view before) (view after) r) (key_for-own credentials)
        (fetched-Fetches moment credentials before after r (
          subst (λ x. IsSound outside settings moment credentials before x) h
            (get_access_token-IsSound outside settings moment credentials before)))

  Fetches-Grants :
      (key : String) (v w : View) (r : Result AccessToken) → Fetches key v w r → Grants key v w
  Fetches-Grants key v w (ok answer) g = g
  Fetches-Grants key v w (err exc) same = stays same

  -- Seen as a map from keys to tokens, a call of a public method does to the cache what its name
  -- promises. A call for a token, whether it returns or raises, changes at most the key of its
  -- credentials where they log in, which gets a token that is kept two to thirty minutes from its
  -- grant on; where it raises, and no validation asked for it, it changes nothing. Clearing forgets
  -- every key, and an invalidation exactly the key of its credentials at the URL that is given, or at
  -- that of the settings.
  pub step-Refines : (before after : Cache) (step : Step before after) → Refines step
  unfolding validate_credentials clear_cache invalidate_cache lookup Refines
  step-Refines before after (fetched moment credentials r h) =
      step_fetched moment credentials before after r h
  step-Refines before after (validated_by moment credentials r h) =
      let (q, e) =
        with_token-keeps moment after r
          (get_access_token outside settings moment credentials before) h in
      Fetches-Grants (own_key credentials) (view before) (view after) q
        (step_fetched moment credentials before after q e)
  step-Refines before after (cleared e) = λ k. ap (lookup k) e
  step-Refines before after (invalidated credentials login_url e) =
      let url = url_or_default (given login_url) in
      λ k.
        subst (λ (key : String). view after k ≡ (if key == k then none else view before k))
          (build_cache_key-eq credentials url)
          (ap (lookup k) e ∙ lookup-erase (build_cache_key credentials url) k before)

  -- The states of the cache that a sequence of calls reaches.
  pub data Steps (before : Cache) : Cache → Type 0 where
    start : Steps before before
    further : {middle after : Cache} → Steps before middle → Step middle after → Steps before after

  -- Where there is a token, it is kept briefly.
  abbrev pub Briefly : Option CacheEntry → Type 0
  Briefly none = Unit
  Briefly (some entry) = IsKeptBriefly entry

  Grants-Briefly :
      (key : String) (v w : View)
      → Grants key v w
      → ((k : String) → Briefly (v k))
      → (k : String) → Briefly (w k)
  Grants-Briefly key v w (stays same) brief k = subst Briefly (sym (same k)) (brief k)
  Grants-Briefly key v w (grants new kept same) brief k =
      subst Briefly (sym (same k))
        (elim (Bool-cases (key == k)) [ inl q ↦ rw q kept | inr q ↦ rw q (brief k) ])

  step-Briefly :
      (before after : Cache) (step : Step before after)
      → ((k : String) → Briefly (view before k))
      → (k : String) → Briefly (view after k)
  unfolding Refines
  step-Briefly before after (fetched moment credentials r h) brief k =
      Grants-Briefly (own_key credentials) (view before) (view after)
        (Fetches-Grants (own_key credentials) (view before) (view after) r
          (step-Refines before after (fetched moment credentials r h)))
        brief k
  step-Briefly before after (validated_by moment credentials r h) brief k =
      Grants-Briefly (own_key credentials) (view before) (view after)
        (step-Refines before after (validated_by moment credentials r h)) brief k
  step-Briefly before after (cleared e) brief k =
      subst Briefly (sym (step-Refines before after (cleared e) k)) tt
  step-Briefly before after (invalidated credentials login_url e) brief k =
      let key = key_text (url_or_default (given login_url)) credentials in
      subst Briefly (sym (step-Refines before after (invalidated credentials login_url e) k))
        (elim (Bool-cases (key == k)) [ inl q ↦ rw q tt | inr q ↦ rw q (brief k) ])

  -- After any sequence of calls on a new client, every token in the cache expires two to thirty
  -- minutes after it was granted.
  pub steps-Briefly : (after : Cache) → Steps [] after → (k : String) → Briefly (view after k)
  unfolding lookup
  steps-Briefly after start k = tt
  steps-Briefly after (further {middle} steps step) k =
      step-Briefly middle after step (steps-Briefly middle steps) k
