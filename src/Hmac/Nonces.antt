-- ===== src/Hmac/Nonces.antt =====
-- The nonce store of src/app/security/hmac.py: what keeps a registered nonce in it.
use salesforce_master_servic.Base.{
  ℕ, suc, ◌+◌, ◌*◌, ◌≤◌, ◌<◌, ◌≡◌, refl, ap, ◌∙◌, inl, inr, Bool, true, false, List, [], ◌∷◌, ◌++◌,
  arith, if◌then◌else◌, leb, nat_eq, string_eq, ◌==◌, Bool-cases, is_some, lookup, insert, erase,
  length, drop, keep, String, eq_iff, eq_refl,
}
use salesforce_master_servic.Hmac.{
  NonceStore, nonce_max_size, second, is_unexpired, evict_expired_nonces, pop_oldest,
  check_and_register_nonce,
}

-- The nonce is in the store, with its expiry, and at most so many entries are younger.
pub record Survives (nonce : String) (expiry : ℕ) (younger : ℕ) (store : NonceStore) : Type 0 where
  pub before : NonceStore
  pub behind : NonceStore
  pub split : store ≡ before ++ (nonce, expiry) ∷ behind
  pub few : length behind ≤ younger

module _ {ℓ} {A : Type ℓ} (p : A → Bool) where
  keep-append : (xs ys : List A) → keep p (xs ++ ys) ≡ keep p xs ++ keep p ys
  keep-append [] ys = refl
  keep-append (x ∷ xs) ys = elim (Bool-cases (p x)) [
    | inl e ↦ rw e (ap (λ (zs : List A). x ∷ zs) (keep-append xs ys))
    | inr e ↦ rw e (keep-append xs ys)
  ]

  length-keep : (xs : List A) → length (keep p xs) ≤ length xs
  length-keep [] = omega arith
  length-keep (x ∷ xs) = ground (arith, length-keep xs)

module _ (nonce : String) (expiry : ℕ) where
  lookup-Survives :
      (before behind : NonceStore)
      → is_some (lookup nonce (before ++ (nonce, expiry) ∷ behind)) ≡ true
  unfolding lookup
  lookup-Survives [] behind = rw eq_refl
  lookup-Survives ((k, e) ∷ before) behind = ground (arith, lookup-Survives before behind)

  pub Survives-found :
      {younger : ℕ} {store : NonceStore}
      → Survives nonce expiry younger store
      → is_some (lookup nonce store) ≡ true
  Survives-found s = rw s.split (lookup-Survives s.before s.behind)

  pub evict-Survives :
      (now younger : ℕ) (store : NonceStore)
      → now ≤ expiry
      → Survives nonce expiry younger store
      → Survives nonce expiry younger (evict_expired_nonces now store)
  unfolding evict_expired_nonces
  evict-Survives now younger store h s =
      let live : is_unexpired now (nonce, expiry) ≡ true = ground arith in
      record {
        before = keep (is_unexpired now) s.before;
        behind = keep (is_unexpired now) s.behind;
        split =
            ap (keep (is_unexpired now)) s.split
            ∙ keep-append (is_unexpired now) s.before ((nonce, expiry) ∷ s.behind)
            ∙ rw live;
        few = omega (arith, length-keep (is_unexpired now) s.behind, s.few);
      }

  pop-Survives :
      (younger : ℕ) (store : NonceStore)
      → younger + 1 < length store
      → Survives nonce expiry younger store
      → Survives nonce expiry younger (pop_oldest store)
  pop-Survives younger store h s = popped s.before s.split
    where
      popped :
          (before : NonceStore)
          → store ≡ before ++ (nonce, expiry) ∷ s.behind
          → Survives nonce expiry younger (pop_oldest store)
      popped [] e =
          let n : length store ≡ suc (length s.behind) = ap length e in
          absurd (omega (arith, s.few, h, n))
      popped (x ∷ before) e = record {
        before = before;
        behind = s.behind;
        split = ap (drop 1) e;
        few = s.few;
      }

  insert_behind :
      (m : String) (v : ℕ) (before behind : NonceStore)
      → (m == nonce) ≡ false
      → Survives nonce expiry (length behind + 1) (insert m v (before ++ (nonce, expiry) ∷ behind))
  unfolding insert
  insert_behind m v [] behind h =
      let other : (nonce == m) ≡ false = ground (arith, eq_iff nonce m, eq_iff m nonce) in
      record {
        before = [];
        behind = insert m v behind;
        split = rw other;
        few = length-insert behind;
      }
    where
      length-insert : (d : NonceStore) → length (insert m v d) ≤ length d + 1
      length-insert [] = omega arith
      length-insert ((j, w) ∷ d) = ground (arith, length-insert d)
  insert_behind m v ((j, w) ∷ before) behind h = elim (Bool-cases (j == m)) [
    | inl e ↦ record { before = (m, v) ∷ before; behind = behind; split = rw e; few = omega arith }
    | inr e ↦
        let s = insert_behind m v before behind h in
        record {
          before = (j, w) ∷ s.before;
          behind = s.behind;
          split = rw e (ap (λ (d : NonceStore). (j, w) ∷ d) s.split);
          few = s.few;
        }
  ]

  insert-Survives :
      (m : String) (v younger : ℕ) (store : NonceStore)
      → (m == nonce) ≡ false
      → Survives nonce expiry younger store
      → Survives nonce expiry (younger + 1) (insert m v store)
  insert-Survives m v younger store h s =
      let t = insert_behind m v s.before s.behind h in
      record {
        before = t.before;
        behind = t.behind;
        split = ap (insert m v) s.split ∙ t.split;
        few = omega (arith, t.few, s.few);
      }

  erase-append :
      (m : String) (before behind : NonceStore)
      → (m == nonce) ≡ false
      → erase m (before ++ (nonce, expiry) ∷ behind)
        ≡ erase m before ++ (nonce, expiry) ∷ erase m behind
  unfolding erase
  erase-append m [] behind h =
      let other : (nonce == m) ≡ false = ground (arith, eq_iff nonce m, eq_iff m nonce) in rw other
  erase-append m ((j, w) ∷ before) behind h = elim (Bool-cases (j == m)) [
    | inl e ↦ rw e (erase-append m before behind h)
    | inr e ↦ rw e (ap (λ (d : NonceStore). (j, w) ∷ d) (erase-append m before behind h))
  ]

  length-erase : (m : String) (d : NonceStore) → length (erase m d) ≤ length d
  unfolding erase
  length-erase m [] = omega arith
  length-erase m ((j, w) ∷ d) = ground (arith, length-erase m d)

  pub erase-Survives :
      (m : String) (younger : ℕ) (store : NonceStore)
      → (m == nonce) ≡ false
      → Survives nonce expiry younger store
      → Survives nonce expiry younger (erase m store)
  erase-Survives m younger store h s = record {
    before = erase m s.before;
    behind = erase m s.behind;
    split = ap (erase m) s.split ∙ erase-append m s.before s.behind h;
    few = omega (arith, s.few, length-erase m s.behind);
  }

  pub weaken :
      (younger : ℕ) (store : NonceStore)
      → Survives nonce expiry younger store
      → Survives nonce expiry (younger + 1) store
  weaken younger store s = record {
    before = s.before;
    behind = s.behind;
    split = s.split;
    few = omega (arith, s.few);
  }

  register-Survives :
      (m : String) (v younger : ℕ) (live : NonceStore)
      → (m == nonce) ≡ false
      → younger + 1 < nonce_max_size
      → Survives nonce expiry younger live
      → Survives nonce expiry
          (younger + 1)
          (insert m v (if leb nonce_max_size (length live) then pop_oldest live else live))
  register-Survives m v younger live h small s =
      elim (Bool-cases (leb nonce_max_size (length live))) [
        | inl e ↦
            let full : nonce_max_size ≤ length live = ground arith in
            rw e (
              insert-Survives m v younger (pop_oldest live) h
                (pop-Survives younger live (omega (arith, full, small)) s))
        | inr e ↦ rw e (insert-Survives m v younger live h s)
      ]

  pub known-refused :
      (max_age evict_time now younger : ℕ) (store : NonceStore)
      → evict_time ≤ expiry
      → Survives nonce expiry younger store
      → check_and_register_nonce nonce max_age evict_time now store
        ≡ (false, evict_expired_nonces evict_time store)
  unfolding check_and_register_nonce
  known-refused max_age evict_time now younger store h s =
      rw (Survives-found (evict-Survives evict_time younger store h s))

  pub check-Survives :
      (m : String) (max_age evict_time now younger : ℕ) (store : NonceStore)
      → evict_time ≤ expiry
      → younger + 1 < nonce_max_size
      → (m == nonce) ≡ false
      → Survives nonce expiry younger store
      → Survives nonce expiry
          (younger + 1)
          (check_and_register_nonce m max_age evict_time now store).1
  unfolding check_and_register_nonce
  check-Survives m max_age evict_time now younger store h small other s =
      let live = evict_expired_nonces evict_time store in
      let t = evict-Survives evict_time younger store h s in
      elim (Bool-cases (is_some (lookup m live))) [
        | inl e ↦ rw e (weaken younger live t)
        | inr e ↦
            rw e (register-Survives m (now + (max_age + 60) * second) younger live other small t)
      ]

  insert-absent :
      (d : NonceStore)
      → is_some (lookup nonce d) ≡ false
      → insert nonce expiry d ≡ d ++ (nonce, expiry) ∷ []
  unfolding insert lookup
  insert-absent [] h = refl
  insert-absent ((j, w) ∷ d) h = elim (Bool-cases (j == nonce)) [
    | inl e ↦ absurd (ground (arith, e, h))
    | inr e ↦ rw e (ap (λ (r : NonceStore). (j, w) ∷ r) (insert-absent d (rw e at h)))
  ]

  pop-absent :
      (d : NonceStore)
      → is_some (lookup nonce d) ≡ false
      → is_some (lookup nonce (pop_oldest d)) ≡ false
  unfolding lookup
  pop-absent [] h = h
  pop-absent ((j, w) ∷ d) h = elim (Bool-cases (j == nonce)) [
    | inl e ↦ absurd (ground (arith, e, h))
    | inr e ↦ rw e at h
  ]

  appended-Survives :
      (d : NonceStore)
      → is_some (lookup nonce d) ≡ false
      → Survives nonce expiry 0 (insert nonce expiry d)
  appended-Survives d h = record {
    before = d;
    behind = [];
    split = insert-absent d h;
    few = omega arith;
  }

  pub room-Survives :
      (live : NonceStore)
      → is_some (lookup nonce live) ≡ false
      → Survives nonce expiry 0
          (insert nonce expiry (if leb nonce_max_size (length live) then pop_oldest live else live))
  room-Survives live h = elim (Bool-cases (leb nonce_max_size (length live))) [
    | inl e ↦ rw e (appended-Survives (pop_oldest live) (pop-absent live h))
    | inr e ↦ rw e (appended-Survives live h)
  ]

-- What a first registration leaves.
pub registered-Survives :
    (nonce : String) (max_age evict_time now : ℕ) (store : NonceStore)
    → (check_and_register_nonce nonce max_age evict_time now store).0 ≡ true
    → (is_some (lookup nonce (evict_expired_nonces evict_time store)) ≡ false)
      × Survives nonce
          (now + (max_age + 60) * second)
          0
          (check_and_register_nonce nonce max_age evict_time now store).1
unfolding check_and_register_nonce
registered-Survives nonce max_age evict_time now store h =
    let live = evict_expired_nonces evict_time store in
    elim (Bool-cases (is_some (lookup nonce live))) [
      | inl e ↦ absurd (ground (arith, e, h))
      | inr e ↦ (e, rw e (room-Survives nonce (now + (max_age + 60) * second) live e))
    ]
