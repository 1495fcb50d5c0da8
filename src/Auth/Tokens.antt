-- ===== src/Auth/Tokens.antt =====
-- What an answer of `get_access_token` of src/app/salesforce/auth_client.py is worth, and when the
-- next call answers from the cache.
use salesforce_master_servic.Retry.{Run}
use mathlib.Core.Option
use salesforce_master_servic.Auth.Grants.{
  after_post, post_token, do_token_grant, grant_password, with_assertion, grant_jwt_bearer,
}
use salesforce_master_servic.Auth.Expiry.{compute_expires_at_bounds}
use salesforce_master_servic.Base.{
  ℕ, ◌+◌, ◌*◌, ◌<◌, ◌≡◌, refl, ap, ◌⊎◌, inl, inr, true, false, Option, none, some, [], ◌∷◌, arith,
  ltb, leb, nat_eq, string_eq, ◌==◌, Bool-cases, ◌∈?◌, or_default, Dict, lookup, insert,
  lookup-insert, String, eq_refl, lower,
}
use salesforce_master_servic.Errors.{Result, ok, err}
use salesforce_master_servic.Auth.{
  Credentials, AuthSettings, Response, Outside, Moment, CacheEntry, Cache, TokenGrant, AccessToken,
  second, cache_near_expiry_window, credential, is_expired_or_near, is_valid, login_url_of,
  cached_answer, granted_answer, entry_of, usable,
}
use salesforce_master_servic.Auth.Client.{
  jwt_grant_types, jwt_key_of, without_key, grant_with, request_grant, store_grant, answer_with,
  key_for, get_access_token,
}
use salesforce_master_servic.Retry.Laws.{retry_call-eq-sync}

abbrev pub window : ℕ
window = cache_near_expiry_window * second

pub usable_of :
    (now : ℕ) (o : Option CacheEntry) (entry : CacheEntry)
    → o ≡ some entry
    → now + window < entry.expires_at
    → usable now o ≡ some entry
unfolding is_expired_or_near is_valid
usable_of now o entry e h =
    let far : leb entry.expires_at (now + 60 * 1000000) ≡ false = ground arith in
    let valid : ltb now entry.expires_at ≡ true = ground arith in rw (e, far, valid)

pub usable-is :
    (now : ℕ) (o : Option CacheEntry) (entry : CacheEntry)
    → usable now o ≡ some entry
    → (o ≡ some entry) × (now + window < entry.expires_at)
unfolding is_expired_or_near is_valid
usable-is now none entry h = absurd (ground (arith, h))
usable-is now (some e) entry h = elim (Bool-cases (leb e.expires_at (now + 60 * 1000000))) [
  | inl near ↦ absurd (ground (arith, (rw near at h)))
  | inr far ↦
      let valid : ltb now e.expires_at ≡ true = ground arith in
      let h' : some e ≡ some entry = rw (far, valid) at h in (h', ground (arith, far))
]

module _ (outside : Outside) (settings : AuthSettings) (moment : Moment) where
  do_token_grant-total :
      (login_url : String) (form : Dict String) (label : String)
      → (r : Result TokenGrant) × (do_token_grant outside settings moment login_url form label
          ≡ some r)
  unfolding do_token_grant
  do_token_grant-total login_url form label = (
    _,
    ap
        (Option.map
          (λ (run : Run Response). after_post outside settings moment.elapsed_ms label run.outcome))
        (retry_call-eq-sync moment.options moment.random
          (post_token outside settings moment login_url form)),
  )

  with_assertion-total :
      (login_url subject : String) (assertion : Result String)
      → (r : Result TokenGrant) × (with_assertion outside settings moment login_url subject
            assertion
          ≡ some r)
  with_assertion-total login_url subject (err exc) = (err exc, refl)
  with_assertion-total login_url subject (ok assertion) = do_token_grant-total login_url _ subject

  grant_jwt_bearer-total :
      (login_url : String) (client_id subject : Option String) (key : String)
      → (r : Result TokenGrant) × (grant_jwt_bearer outside settings moment login_url client_id
            subject key
          ≡ some r)
  unfolding grant_jwt_bearer
  grant_jwt_bearer-total login_url (some client_id) (some subject) key =
      with_assertion-total login_url subject _
  grant_jwt_bearer-total login_url (some client_id) none key = (_, refl)
  grant_jwt_bearer-total login_url none subject key = (_, refl)

  grant_password-total :
      (login_url : String)
      (username password security_token client_id client_secret : Option String)
      → (r : Result TokenGrant) × (grant_password outside settings moment login_url username
            password security_token client_id client_secret
          ≡ some r)
  unfolding grant_password
  grant_password-total login_url (some username) (some password) token (some id) secret =
      do_token_grant-total login_url _ username
  grant_password-total login_url (some username) (some password) token none secret = (_, refl)
  grant_password-total login_url (some username) none token id secret = (_, refl)
  grant_password-total login_url none password token id secret = (_, refl)

  without_key-total :
      (credentials : Credentials) (login_url grant_type : String)
      → (r : Result TokenGrant) × (without_key outside settings moment credentials login_url
            grant_type
          ≡ some r)
  without_key-total credentials login_url grant_type =
      elim (Bool-cases (grant_type ∈? jwt_grant_types)) [
        | inl e ↦ rw e (_, refl)
        | inr e ↦ elim (Bool-cases (grant_type == "password")) [
          | inl p ↦ rw (e, p) (grant_password-total login_url _ _ _ _ _)
          | inr p ↦ rw (e, p) (_, refl)
        ]
      ]

  grant_with-total :
      (credentials : Credentials) (login_url : String) (key : Option String)
      → (r : Result TokenGrant) × (grant_with outside settings moment credentials login_url key
          ≡ some r)
  grant_with-total credentials login_url (some key) = grant_jwt_bearer-total login_url _ _ key
  grant_with-total credentials login_url none =
      without_key-total credentials login_url
        (lower (or_default (credential credentials "grant_type") "password"))

  request_grant-total :
      (credentials : Credentials)
      → (r : Result TokenGrant) × (request_grant outside settings moment credentials ≡ some r)
  unfolding request_grant
  request_grant-total credentials =
      grant_with-total credentials (login_url_of settings credentials)
        (jwt_key_of outside settings credentials)

module _ (outside : Outside) (settings : AuthSettings) where
  -- The entry behind an answer, where it comes from, and what it leaves alone.
  pub record IsAnswer (moment : Moment) (credentials : Credentials) (before after : Cache)
      (answer : AccessToken) : Type 0 where
    pub entry : CacheEntry
    pub kept : lookup (key_for outside settings credentials) after ≡ some entry
    pub same_token : answer.access_token ≡ entry.token
    pub same_instance : answer.instance_url ≡ entry.instance_url
    pub same_expiry : answer.expires_at ≡ entry.expires_at
    pub same_grant : answer.granted_at ≡ entry.granted_at
    pub time_left : moment.now + window < entry.expires_at
    pub others :
        (j : String)
        → (key_for outside settings credentials == j) ≡ false
        → lookup j after ≡ lookup j before
    pub source :
        ((answer.cached ≡ true) × (after ≡ before))
        ⊎ ((answer.cached ≡ false)
            × ((grant : TokenGrant) × (request_grant outside settings moment credentials
                  ≡ some (ok grant))
                × (entry ≡ entry_of moment.now grant)))

  module _ (moment : Moment) (credentials : Credentials) where
    hit-IsAnswer :
        (cache : Cache) (entry : CacheEntry)
        → usable moment.now (lookup (key_for outside settings credentials) cache) ≡ some entry
        → IsAnswer moment credentials cache cache (cached_answer entry)
    hit-IsAnswer cache entry h =
        let u =
          usable-is moment.now (lookup (key_for outside settings credentials) cache) entry h in
        record {
          entry = entry;
          kept = u.0;
          same_token = refl;
          same_instance = refl;
          same_expiry = refl;
          same_grant = refl;
          time_left = u.1;
          others = λ j _. refl;
          source = inl (refl, refl);
        }

    grant-IsAnswer :
        (cache : Cache) (grant : TokenGrant)
        → request_grant outside settings moment credentials ≡ some (ok grant)
        → IsAnswer moment credentials cache
            (insert (key_for outside settings credentials) (entry_of moment.now grant) cache)
            (granted_answer moment.now grant)
    grant-IsAnswer cache grant h =
        let key = key_for outside settings credentials in
        record {
          entry = entry_of moment.now grant;
          kept = rw (lookup-insert key key (entry_of moment.now grant) cache) (rw (eq_refl key));
          same_token = refl;
          same_instance = refl;
          same_expiry = refl;
          same_grant = refl;
          time_left = omega (arith, compute_expires_at_bounds moment.now grant);
          others = λ j e. rw (lookup-insert key j (entry_of moment.now grant) cache) (rw e);
          source = inr (refl, (grant, h, refl));
        }

  -- What a call comes to: it returns; a token is an answer, and an exception changes nothing.
  abbrev pub IsSound : Moment → Credentials → Cache → Option (Result AccessToken × Cache) → Type 0
  IsSound moment credentials before none = ⊥
  IsSound moment credentials before (some (ok answer, after)) =
      IsAnswer moment credentials before after answer
  IsSound moment credentials before (some (err exc, after)) = after ≡ before

  requested-IsSound :
      (moment : Moment) (credentials : Credentials) (cache : Cache) (r : Result TokenGrant)
      → request_grant outside settings moment credentials ≡ some r
      → IsSound moment credentials cache (
          some (
            store_grant outside settings moment.now (key_for outside settings credentials) cache r))
  requested-IsSound moment credentials cache (ok grant) h =
      grant-IsAnswer moment credentials cache grant h
  requested-IsSound moment credentials cache (err exc) h = refl

  answer_with-IsSound :
      (moment : Moment) (credentials : Credentials) (cache : Cache) (found : Option CacheEntry)
      → usable moment.now (lookup (key_for outside settings credentials) cache) ≡ found
      → IsSound moment credentials cache (
          answer_with outside settings moment credentials
            (key_for outside settings credentials)
            cache
            found)
  answer_with-IsSound moment credentials cache (some entry) h =
      hit-IsAnswer moment credentials cache entry h
  answer_with-IsSound moment credentials cache none h =
      let (r, e) = request_grant-total outside settings moment credentials in
      rw e (requested-IsSound moment credentials cache r e)

  -- `get_access_token` always returns. A token that it answers with stands in the cache under the
  -- credentials' key, with the same instance and expiry, and has more than 60 seconds left; it was
  -- there already, and then the cache is unchanged, or it is what the grant of this call gave, and
  -- then no other key changes. An exception leaves the cache as it was.
  pub get_access_token-IsSound :
      (moment : Moment) (credentials : Credentials) (cache : Cache)
      → IsSound moment credentials cache
          (get_access_token outside settings moment credentials cache)
  unfolding get_access_token
  get_access_token-IsSound moment [] cache = refl
  get_access_token-IsSound moment (c ∷ cs) cache = answer_with-IsSound moment (c ∷ cs) cache _ refl
