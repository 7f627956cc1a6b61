-- ===== src/Cache/History.antt =====
-- The cache of app/cache.py against a dictionary that forgets only what it is told to forget.
use kvarteret_personal.Prelude.{
  ℕ, ◌+◌, ◌<◌, ◌≡◌, refl, ap, subst, ◌∙◌, sym, max, ◌⊎◌, inl, inr, false, Option, none, some, List,
  [], ◌∷◌, map, All, All-append, arith, if◌then◌else◌, Key, Bool-cases,
}
use kvarteret_personal.Cache.{
  CacheEntry, TtlCache, CacheCall, get_call, pop_call, force_expire_call, set_call, clear_call,
  init_cache, delete_entry, assign_entry, move_to_end, get, set, pop, clear, force_expire,
  cache_step, run_cache,
}
use kvarteret_personal.Cache.Entries.{
  same_key, other_key, find-key, find-All, All-delete, All-move_to_end, All-evict,
  move_to_end-assign, get_cases, get-value, step-settings,
}

-- Of each key the value last stored, with the time at which it expires.
abbrev pub Memory : Type 0 → Type 0 → Type 0
Memory K V = K → Option (V × ℕ)

module _ {K V : Type 0} ⦃dict : Key K⦄ where
  abbrev pub note : ℕ → ℕ → CacheCall K V → Memory K V → Memory K V
  note ttl now (get_call k) m = m
  note ttl now (set_call k v) m = λ q. if dict.eq k q then some (v, now + ttl) else m q
  note ttl now (pop_call k) m = λ q. if dict.eq k q then none else m q
  note ttl now (force_expire_call k) m = λ q. if dict.eq k q then none else m q
  note ttl now clear_call m = λ q. none

  unfoldable pub remember : ℕ → List (ℕ × CacheCall K V) → Memory K V → Memory K V
  remember ttl [] m = m
  remember ttl ((now, call) ∷ calls) m = remember ttl calls (note ttl now call m)

  -- The entry has expired for good, or it is what the memory holds.
  abbrev pub Remembered : Memory K V → CacheEntry K V → Type 0
  Remembered m e = (e.expires_at ≡ 0) ⊎ (m e.key ≡ some (e.value, e.expires_at))

  Remembered-ap :
      (m m' : Memory K V) (e : CacheEntry K V)
      → m' e.key ≡ m e.key
      → Remembered m e
      → Remembered m' e
  Remembered-ap m m' e p (inl gone) = inl gone
  Remembered-ap m m' e p (inr held) = inr (p ∙ held)

  Remembered-All :
      (m m' : Memory K V) (l : List (CacheEntry K V))
      → ((q : K) → m' q ≡ m q)
      → All (Remembered m) l
      → All (Remembered m') l
  Remembered-All m m' [] p a = tt
  Remembered-All m m' (e ∷ l) p a =
      (Remembered-ap m m' e (p e.key) a.0, Remembered-All m m' l p a.1)

  delete-Remembered :
      (m m' : Memory K V) (k : K) (l : List (CacheEntry K V))
      → ((q : K) → dict.eq k q ≡ false → m' q ≡ m q)
      → All (Remembered m) l
      → All (Remembered m') (delete_entry k l)
  unfolding delete_entry
  delete-Remembered m m' k [] same a = tt
  delete-Remembered m m' k (e ∷ l) same a = elim (Bool-cases (dict.eq e.key k)) [
    | inl drop ↦ rw drop (delete-Remembered m m' k l same a.1)
    | inr keep ↦ rw keep (
      Remembered-ap m m' e (same e.key (other_key e.key k keep)) a.0,
      delete-Remembered m m' k l same a.1,
    )
  ]

  expire-Remembered :
      (m m' : Memory K V) (k : K) (l : List (CacheEntry K V))
      → ((q : K) → dict.eq k q ≡ false → m' q ≡ m q)
      → All (Remembered m) l
      → All (Remembered m') (
          map
            (λ (e : CacheEntry K V). if dict.eq e.key k then record e { expires_at = 0 } else e)
            l)
  expire-Remembered m m' k [] same a = tt
  expire-Remembered m m' k (e ∷ l) same a = elim (Bool-cases (dict.eq e.key k)) [
    | inl drop ↦ rw drop (inl refl, expire-Remembered m m' k l same a.1)
    | inr keep ↦ rw keep (
      Remembered-ap m m' e (same e.key (other_key e.key k keep)) a.0,
      expire-Remembered m m' k l same a.1,
    )
  ]

  -- A memory that differs at one key only.
  at_other :
      (k : K) (x : Option (V × ℕ)) (m : Memory K V) (q : K)
      → dict.eq k q ≡ false
      → (if dict.eq k q then x else m q) ≡ m q
  at_other k x m q h = rw h refl

  set-Remembered :
      (now : ℕ) (k : K) (v : V) (c : TtlCache K V) (m : Memory K V)
      → All (Remembered m) c.entries
      → All (Remembered (note c.ttl_seconds now (set_call k v) m)) (set now k v c).entries
  unfolding set
  set-Remembered now k v c m a =
      let e : CacheEntry K V = record { key = k; value = v; expires_at = now + c.ttl_seconds } in
      let m' = note c.ttl_seconds now (set_call k v) m in
      All-evict (Remembered m') c.max_entries (move_to_end k (assign_entry e c.entries)) (
        rw (move_to_end-assign e c.entries) (
          All-append (Remembered m') (delete_entry k c.entries) (e ∷ [])
            (delete-Remembered m m' k c.entries (at_other k (some (v, now + c.ttl_seconds)) m) a)
            (inr (rw (same_key k) refl), tt)))

  get-Remembered :
      (now : ℕ) (k : K) (c : TtlCache K V) (m : Memory K V)
      → All (Remembered m) c.entries
      → All (Remembered m) (get now k c).1.entries
  get-Remembered now k c m a =
      get_cases (λ d. All (Remembered m) d.entries) now k c a
        (All-delete (Remembered m) k c.entries a) (All-move_to_end (Remembered m) k c.entries a)

  step-Remembered :
      (now : ℕ) (call : CacheCall K V) (c : TtlCache K V) (m : Memory K V)
      → All (Remembered m) c.entries
      → All (Remembered (note c.ttl_seconds now call m)) (cache_step now call c).entries
  unfolding cache_step pop clear force_expire
  step-Remembered now (get_call k) c m a = get-Remembered now k c m a
  step-Remembered now (set_call k v) c m a = set-Remembered now k v c m a
  step-Remembered now (pop_call k) c m a =
      delete-Remembered m (note 0 0 (pop_call k) m) k c.entries (at_other k none m) a
  step-Remembered now (force_expire_call k) c m a =
      expire-Remembered m (note 0 0 (force_expire_call k) m) k c.entries (at_other k none m) a
  step-Remembered now clear_call c m a = tt

  run-Remembered :
      (calls : List (ℕ × CacheCall K V)) (c : TtlCache K V) (m : Memory K V)
      → All (Remembered m) c.entries
      → All (Remembered (remember c.ttl_seconds calls m)) (run_cache calls c).entries
  unfolding remember run_cache
  run-Remembered [] c m a = a
  run-Remembered ((now, call) ∷ calls) c m a =
      let ttl = (step-settings now call c).0 in
      let m' = note c.ttl_seconds now call m in
      let rest = run-Remembered calls (cache_step now call c) m' (step-Remembered now call c m a) in
      subst
        (λ ttl.
          All (Remembered (remember ttl calls m'))
            (run_cache calls (cache_step now call c)).entries)
        ttl rest

  -- Whatever calls were made of a new cache, what `get` returns is the value last stored under the
  -- key, not removed since, and it has not expired.
  pub get-run_cache :
      (calls : List (ℕ × CacheCall K V)) (ttl_seconds max_entries now : ℕ) (k : K) (v : V)
      → (get now k (run_cache calls (init_cache ttl_seconds max_entries))).0 ≡ some v
      → (expires_at : ℕ) × (remember (max 1 ttl_seconds) calls (λ q. none) k ≡ some (v, expires_at))
        × (now < expires_at)
  unfolding init_cache
  get-run_cache calls ttl_seconds max_entries now k v h =
      let c = run_cache calls (init_cache ttl_seconds max_entries) in
      let m = remember (max 1 ttl_seconds) calls (λ q. none) in
      let (e, found, value, fresh) = get-value now k c v h in
      let held =
        find-All (Remembered m) k c.entries e
          (run-Remembered calls (init_cache ttl_seconds max_entries) (λ q. none) tt) found in
      let key = (dict.law e.key k).0 (find-key k c.entries e found) in
      elim held [
        | inl gone ↦ absurd (omega arith)
        | inr is ↦
            (e.expires_at, ap m (sym key) ∙ is ∙ ap (λ x. some (x, e.expires_at)) value, fresh)
      ]
