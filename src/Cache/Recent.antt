-- ===== src/Cache/Recent.antt =====
-- Which entries the cache of app/cache.py keeps: it evicts the one used longest ago.
use kvarteret_personal.Prelude.{
  ℕ, suc, ◌+◌, ◌≤◌, ◌<◌, ◌≡◌, ap, subst, inl, inr, Bool, true, false, not, some, List, [], ◌∷◌,
  ◌++◌, map, ltb, leb, length, All, arith, if◌then◌else◌, Key, Bool-cases, Option-cases,
  length-append, length-map,
}
use kvarteret_personal.Cache.{
  CacheEntry, TtlCache, CacheCall, get_call, pop_call, force_expire_call, set_call, clear_call,
  find_entry, delete_entry, assign_entry, move_to_end, evict, get, set, pop, force_expire,
  cache_step, run_cache,
}
use kvarteret_personal.Cache.Entries.{
  move_to_end-assign, move_to_end_found, same_key, step-settings, get_found,
}

not_both :
    {K : Type 0} ⦃dict : Key K⦄ (d k q : K)
    → dict.eq d k ≡ true
    → dict.eq k q ≡ false
    → dict.eq d q ≡ false
not_both ⦃dict⦄ d k q h n = rw ((dict.law d k).0 h) n

module _ {K V : Type 0} ⦃dict : Key K⦄ where
  -- How many entries stand behind the key's, where it has one.
  unfoldable pub behind : K → List (CacheEntry K V) → ℕ
  behind k [] = 0
  behind k (e ∷ l) = if dict.eq e.key k then length l else behind k l

  -- The entry is there, and at most `n` were used since.
  record Held (k : K) (e : CacheEntry K V) (n : ℕ) (l : List (CacheEntry K V)) : Type 0 where
    found : find_entry k l ≡ some e
    recent : behind k l ≤ n

  later :
      (k : K) (e : CacheEntry K V) (n : ℕ) (l : List (CacheEntry K V))
      → Held k e n l
      → Held k e (suc n) l
  later k e n l h = record { found = h.found; recent = omega (arith, h.recent) }

  at_most_zero :
      (k : K) (e : CacheEntry K V) (n : ℕ) (l : List (CacheEntry K V)) → Held k e 0 l → Held k e n l
  at_most_zero k e n l h = record { found = h.found; recent = omega (arith, h.recent) }

  length-delete : (q : K) (l : List (CacheEntry K V)) → length (delete_entry q l) ≤ length l
  unfolding delete_entry
  length-delete q [] = omega arith
  length-delete q (d ∷ l) = ground (arith, length-delete q l)

  -- The entries without, and with, another key's entry at their beginning.
  tail-Held :
      (k : K) (e d : CacheEntry K V) (n : ℕ) (l : List (CacheEntry K V))
      → dict.eq d.key k ≡ false
      → Held k e n (d ∷ l)
      → Held k e n l
  unfolding behind
  tail-Held k e d n l other h = record {
    found = ground (arith, other, h.found);
    recent = ground (arith, other, h.recent);
  }

  head-Held :
      (k : K) (e d : CacheEntry K V) (n : ℕ) (l : List (CacheEntry K V))
      → dict.eq d.key k ≡ false
      → Held k e n l
      → Held k e n (d ∷ l)
  unfolding behind
  head-Held k e d n l other h = record {
    found = ground (arith, other, h.found);
    recent = ground (arith, other, h.recent);
  }

  delete-Held :
      (k q : K) (e : CacheEntry K V) (n : ℕ) (l : List (CacheEntry K V))
      → dict.eq k q ≡ false
      → Held k e n l
      → Held k e n (delete_entry q l)
  unfolding delete_entry behind
  delete-Held k q e n [] ne h = h
  delete-Held k q e n (d ∷ l) ne h = elim (Bool-cases (dict.eq d.key k)) [
    | inl same ↦ rw (not_both d.key k q same ne) (record {
      found = ground (arith, same);
      recent = ground (arith, same, length-delete q l, h.recent);
    })
    | inr other ↦
        let rest = delete-Held k q e n l ne (tail-Held k e d n l other h) in
        elim (Bool-cases (dict.eq d.key q)) [
          | inl drop ↦ rw drop rest
          | inr keep ↦ rw keep (head-Held k e d n (delete_entry q l) other rest)
        ]
  ]

  end-Held :
      (k : K) (e d : CacheEntry K V) (n : ℕ) (l : List (CacheEntry K V))
      → Held k e n l
      → Held k e (suc n) (l ++ d ∷ [])
  unfolding behind
  end-Held k e d n [] h = absurd (ground (arith, h.found))
  end-Held k e d n (x ∷ l) h = elim (Bool-cases (dict.eq x.key k)) [
    | inl same ↦ record {
      found = ground (arith, same, h.found);
      recent = ground (arith, same, h.recent, length-append l (d ∷ []));
    }
    | inr other ↦
        let rest = end-Held k e d n l (tail-Held k e x n l other h) in
        head-Held k e x (suc n) (l ++ d ∷ []) other rest
  ]

  last-Held :
      (k : K) (e : CacheEntry K V) (l : List (CacheEntry K V))
      → dict.eq e.key k ≡ true
      → Held k e 0 (delete_entry k l ++ e ∷ [])
  unfolding delete_entry behind
  last-Held k e [] same = (record { found = ground (arith, same); recent = ground (arith, same) })
  last-Held k e (d ∷ l) same =
      let rest = last-Held k e l same in
      elim (Bool-cases (dict.eq d.key k)) [
        | inl drop ↦ rw drop rest
        | inr keep ↦ rw keep (head-Held k e d 0 (delete_entry k l ++ e ∷ []) keep rest)
      ]

  evict-Held :
      (k : K) (e : CacheEntry K V) (n m : ℕ) (l : List (CacheEntry K V))
      → n < m
      → Held k e n l
      → Held k e n (evict m l)
  unfolding behind evict
  evict-Held k e n m [] lt h = h
  evict-Held k e n m (d ∷ l) lt h = elim (Bool-cases (ltb m (suc (length l)))) [
    | inl more ↦ elim (Bool-cases (dict.eq d.key k)) [
      | inl same ↦ absurd (ground (arith, same, more, h.recent))
      | inr other ↦ rw more (evict-Held k e n m l lt (tail-Held k e d n l other h))
    ]
    | inr enough ↦ rw enough h
  ]

  -- The call leaves the key's entry alone, but for reading it.
  abbrev pub spares : K → CacheCall K V → Bool
  spares k (get_call q) = true
  spares k (set_call q v) = not (dict.eq k q)
  spares k (pop_call q) = not (dict.eq k q)
  spares k (force_expire_call q) = not (dict.eq k q)
  spares k clear_call = false

  get-Held :
      (now : ℕ) (k q : K) (e : CacheEntry K V) (n : ℕ) (c : TtlCache K V)
      → now < e.expires_at
      → dict.eq e.key k ≡ true
      → Held k e n c.entries
      → Held k e (suc n) (get now q c).1.entries
  unfolding get move_to_end
  get-Held now k q e n c lt key h = elim (Bool-cases (dict.eq k q)) [
    | inl same ↦
        let kq = (dict.law k q).0 same in
        let found = subst (λ x. find_entry x c.entries ≡ some e) kq h.found in
        let not_yet : leb e.expires_at now ≡ false = ground arith in
        rw (get, found, not_yet, move_to_end_found q c.entries e found)
          (later k e n (delete_entry q c.entries ++ e ∷ []) (
            subst (λ x. Held k e n (delete_entry x c.entries ++ e ∷ [])) kq
              (at_most_zero k e n (delete_entry k c.entries ++ e ∷ [])
                (last-Held k e c.entries key))))
    | inr other ↦ elim (Option-cases (find_entry q c.entries)) [
      | inl missing ↦ rw (get, missing) (later k e n c.entries h)
      | inr (d, found) ↦
          let rest = delete-Held k q e n c.entries other h in
          elim (Bool-cases (leb d.expires_at now)) [
            | inl expired ↦ rw (get, found, expired) (later k e n (delete_entry q c.entries) rest)
            | inr fresh ↦
                rw (get, found, fresh, move_to_end_found q c.entries d found)
                  (end-Held k e d n (delete_entry q c.entries) rest)
          ]
    ]
  ]

  set_other-Held :
      (now : ℕ) (k q : K) (v : V) (e : CacheEntry K V) (n : ℕ) (c : TtlCache K V)
      → suc n < c.max_entries
      → dict.eq k q ≡ false
      → Held k e n c.entries
      → Held k e (suc n) (set now q v c).entries
  unfolding set
  set_other-Held now k q v e n c lt other h =
      let d : CacheEntry K V = record { key = q; value = v; expires_at = now + c.ttl_seconds } in
      evict-Held k e (suc n) c.max_entries (move_to_end q (assign_entry d c.entries)) lt (
        rw (move_to_end-assign d c.entries)
          (end-Held k e d n (delete_entry q c.entries) (delete-Held k q e n c.entries other h)))

  expire-Held :
      (k q : K) (e : CacheEntry K V) (n : ℕ) (l : List (CacheEntry K V))
      → dict.eq k q ≡ false
      → Held k e n l
      → Held k e n (
          map
            (λ (d : CacheEntry K V). if dict.eq d.key q then record d { expires_at = 0 } else d)
            l)
  unfolding behind
  expire-Held k q e n [] ne h = h
  expire-Held k q e n (d ∷ l) ne h = elim (Bool-cases (dict.eq d.key k)) [
    | inl same ↦ rw (not_both d.key k q same ne) (record {
      found = ground (arith, same, h.found);
      recent = ground (
        arith,
        same,
        h.recent,
        length-map
            (λ (x : CacheEntry K V). if dict.eq x.key q then record x { expires_at = 0 } else x) l,
      );
    })
    | inr other ↦
        let rest = expire-Held k q e n l ne (tail-Held k e d n l other h) in
        elim (Bool-cases (dict.eq d.key q)) [
          | inl drop ↦ rw drop (
              head-Held k e (record d { expires_at = 0 }) n
                (map
                  (λ (x : CacheEntry K V).
                    if dict.eq x.key q then record x { expires_at = 0 } else x)
                  l)
                other rest)
          | inr keep ↦ rw keep (
              head-Held k e d n
                (map
                  (λ (x : CacheEntry K V).
                    if dict.eq x.key q then record x { expires_at = 0 } else x)
                  l)
                other rest)
        ]
  ]

  step-Held :
      (now : ℕ) (call : CacheCall K V) (k : K) (e : CacheEntry K V) (n : ℕ) (c : TtlCache K V)
      → now < e.expires_at
      → suc n < c.max_entries
      → dict.eq e.key k ≡ true
      → spares k call ≡ true
      → Held k e n c.entries
      → Held k e (suc n) (cache_step now call c).entries
  unfolding cache_step pop force_expire
  step-Held now (get_call q) k e n c lt room key s h = get-Held now k q e n c lt key h
  step-Held now (set_call q v) k e n c lt room key s h =
      set_other-Held now k q v e n c room (ground (arith, s)) h
  step-Held now (pop_call q) k e n c lt room key s h =
      later k e n (delete_entry q c.entries) (delete-Held k q e n c.entries (ground (arith, s)) h)
  step-Held now (force_expire_call q) k e n c lt room key s h =
      later k e n (force_expire q c).entries (expire-Held k q e n c.entries (ground (arith, s)) h)
  step-Held now clear_call k e n c lt room key s h = absurd cc

  run-Held :
      (calls : List (ℕ × CacheCall K V)) (k : K) (e : CacheEntry K V) (n : ℕ) (c : TtlCache K V)
      → All (λ (call : ℕ × CacheCall K V). (call.0 < e.expires_at) × (spares k call.1 ≡ true)) calls
      → n + length calls < c.max_entries
      → dict.eq e.key k ≡ true
      → Held k e n c.entries
      → (m : ℕ) × Held k e m (run_cache calls c).entries
  unfolding run_cache
  run-Held [] k e n c a room key h = (n, h)
  run-Held ((now, call) ∷ calls) k e n c a room key h =
      run-Held calls k e (suc n) (cache_step now call c) a.1
        (rw ((step-settings now call c).1) (omega (arith, room))) key
        (step-Held now call k e n c a.0.0 (omega (arith, room)) key a.0.1 h)

  -- A value that was stored is found again before it expires, after fewer calls than the cache has
  -- room for, of which none stored another value under its key, removed it, expired it or cleared
  -- the cache.
  pub set-get :
      (stored now : ℕ) (k : K) (v : V) (calls : List (ℕ × CacheCall K V)) (c : TtlCache K V)
      → All
          (λ (call : ℕ × CacheCall K V).
            (call.0 < stored + c.ttl_seconds) × (spares k call.1 ≡ true))
          calls
      → length calls < c.max_entries
      → now < stored + c.ttl_seconds
      → (get now k (run_cache calls (set stored k v c))).0 ≡ some v
  unfolding set get
  set-get stored now k v calls c a room fresh =
      let e : CacheEntry K V = record { key = k; value = v; expires_at = stored + c.ttl_seconds } in
      let start =
        evict-Held k e 0 c.max_entries (move_to_end k (assign_entry e c.entries)) (omega arith)
          (rw (move_to_end-assign e c.entries) (last-Held k e c.entries (same_key k))) in
      let (m, h) = run-Held calls k e 0 (set stored k v c) a (omega arith) (same_key k) start in
      ap (λ r. r.0) (get_found now k (run_cache calls (set stored k v c)) e h.found fresh)
