-- ===== src/Auth/Reuse.antt =====
-- When the cache of src/app/salesforce/auth_client.py answers again, and what `invalidate_cache`
-- forgets.
use text.Mathlib.TextLemmas.{append_cancel_right}
use salesforce_master_servic.Base.{
  ◌+◌, ◌<◌, ◌≡◌, refl, sym, ap, ◌∙◌, subst, ◌≢◌, inl, inr, true, false, none, some, [], ◌∷◌, arith,
  nat_eq, string_eq, ◌==◌, Bool-cases, lookup, lookup-erase, String, eq_iff, eq_refl, rstrip_slash,
  given,
}
use salesforce_master_servic.Errors.{ok}
use salesforce_master_servic.Auth.{
  Credentials, AuthSettings, Outside, Moment, CacheEntry, Cache, AccessToken, build_cache_key,
  default_login_url, invalidate_cache, login_url_of, cached_answer,
}
use salesforce_master_servic.Auth.Client.{key_for, get_access_token}
use salesforce_master_servic.Auth.Tokens.{
  window, usable_of, IsAnswer, IsSound, get_access_token-IsSound,
}

module _ (outside : Outside) (settings : AuthSettings) where
  -- The answer is the cached one of an entry, and the cache is unchanged.
  served :
      (moment : Moment) (c : String × String) (cs : Credentials) (cache : Cache)
      (entry : CacheEntry)
      → lookup (key_for outside settings (c ∷ cs)) cache ≡ some entry
      → moment.now + window < entry.expires_at
      → get_access_token outside settings moment (c ∷ cs) cache
        ≡ some (ok (cached_answer entry), cache)
  unfolding get_access_token
  served moment c cs cache entry e h =
      rw (usable_of moment.now (lookup (key_for outside settings (c ∷ cs)) cache) entry e h)

  -- The behaviour of a call that answered is sound.
  answered :
      (moment : Moment) (credentials : Credentials) (cache after : Cache) (answer : AccessToken)
      → get_access_token outside settings moment credentials cache ≡ some (ok answer, after)
      → IsAnswer outside settings moment credentials cache after answer
  answered moment credentials cache after answer h =
      subst (λ r. IsSound outside settings moment credentials cache r) h
        (get_access_token-IsSound outside settings moment credentials cache)

  -- The second answer repeats the first, from the cache.
  abbrev pub Repeats : Moment → Credentials → Cache → AccessToken → Type 0
  Repeats moment credentials cache answer =
      (again : AccessToken) × (get_access_token outside settings moment credentials cache
        ≡ some (ok again, cache))
      × (again.access_token ≡ answer.access_token)
      × (again.instance_url ≡ answer.instance_url)
      × (again.cached ≡ true)

  -- From any cache that has the entry of an answer, a later call repeats it.
  repeats :
      (first later : Moment) (credentials : Credentials) (cache after now_kept : Cache)
      (answer : AccessToken)
      → get_access_token outside settings first credentials cache ≡ some (ok answer, after)
      → lookup (key_for outside settings credentials) now_kept
        ≡ lookup (key_for outside settings credentials) after
      → later.now + window < answer.expires_at
      → Repeats later credentials now_kept answer
  unfolding get_access_token
  repeats first later [] cache after now_kept answer h e t = absurd (ground (arith, h))
  repeats first later (c ∷ cs) cache after now_kept answer h e t =
      let a = answered first (c ∷ cs) cache after answer h in
      let left : later.now + window < a.entry.expires_at = rw (a.same_expiry) at t in
      (
        cached_answer a.entry,
        served later c cs now_kept a.entry (e ∙ a.kept) left,
        sym a.same_token,
        sym a.same_instance,
        refl,
      )

  -- As long as a token has more than 60 seconds left, the next call with the same credentials
  -- repeats it from the cache and changes nothing, whatever the server would answer.
  pub get_access_token-Repeats :
      (first later : Moment) (credentials : Credentials) (cache after : Cache)
      (answer : AccessToken)
      → get_access_token outside settings first credentials cache ≡ some (ok answer, after)
      → later.now + window < answer.expires_at
      → Repeats later credentials after answer
  get_access_token-Repeats first later credentials cache after answer h t =
      repeats first later credentials cache after after answer h refl t

  -- The keys of two login URLs differ.
  keys_differ :
      (credentials : Credentials) (u v : String)
      → u ≢ v
      → (build_cache_key credentials u == build_cache_key credentials v) ≡ false
  unfolding build_cache_key
  keys_differ credentials u v d =
      elim (Bool-cases (build_cache_key credentials u == build_cache_key credentials v)) [
        | inl e ↦ absurd (
            d (
              append_cancel_right u v _
                ((eq_iff (build_cache_key credentials u) (build_cache_key credentials v)).0 e)))
        | inr e ↦ e
      ]

  -- `invalidate_cache` without a login URL does not look at the one in the credentials: where it
  -- differs from the settings' one, the token that was to be invalidated is still served, as long as
  -- it has more than 60 seconds left.
  pub get_access_token-invalidate :
      (first later : Moment) (credentials : Credentials) (cache after : Cache)
      (answer : AccessToken)
      → get_access_token outside settings first credentials cache ≡ some (ok answer, after)
      → rstrip_slash (default_login_url settings) ≢ login_url_of settings credentials
      → later.now + window < answer.expires_at
      → Repeats later credentials (invalidate_cache settings credentials none after) answer
  unfolding invalidate_cache
  get_access_token-invalidate first later credentials cache after answer h d t =
      let key = key_for outside settings credentials in
      let url = rstrip_slash (default_login_url settings) in
      repeats first later credentials cache after _ answer h
        (rw (lookup-erase (build_cache_key credentials url) key after)
          (rw (keys_differ credentials url (login_url_of settings credentials) d)))
        t

  -- With the login URL of the grant it forgets the token: the next answer is a new grant.
  pub invalidate_cache-forgets :
      (later : Moment) (credentials : Credentials) (url : String) (cache after : Cache)
      (answer : AccessToken)
      → given (some url) ≡ some url
      → rstrip_slash url ≡ login_url_of settings credentials
      → get_access_token outside settings later credentials
          (invalidate_cache settings credentials (some url) cache)
        ≡ some (ok answer, after)
      → (answer.cached ≡ false) × (answer.granted_at ≡ later.now)
  unfolding invalidate_cache
  invalidate_cache-forgets later credentials url cache after answer g e h =
      let key = key_for outside settings credentials in
      let before = invalidate_cache settings credentials (some url) cache in
      let a = answered later credentials before after answer h in
      let gone : lookup key before ≡ none =
        rw (g, e) (rw (lookup-erase key key cache) (rw (eq_refl key))) in
      elim a.source [
        | inl (_, same) ↦
            let held : lookup key before ≡ some a.entry = rw same at a.kept in
            absurd (ground (arith, gone, held))
        | inr (fresh, (grant, _, entry)) ↦ (fresh, a.same_grant ∙ ap (λ x. x.granted_at) entry)
      ]
