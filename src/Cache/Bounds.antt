-- ===== src/Cache/Bounds.antt =====
-- The size and the keys of the cache of app/cache.py.
use kvarteret_personal.Prelude.{
  ℕ, suc, ◌+◌, ◌≤◌, ◌≡◌, refl, ◌∙◌, subst, sym, inl, inr, false, some, List, [], ◌∷◌, ◌++◌, map,
  ltb, max, length, All, arith, if◌then◌else◌, Key, Bool-cases, Option-cases, length-append,
  length-filter_by, length-map,
}
use kvarteret_personal.Cache.{
  CacheEntry, TtlCache, CacheCall, get_call, pop_call, force_expire_call, set_call, clear_call,
  init_cache, find_entry, delete_entry, assign_entry, move_to_end, evict, set, pop, clear,
  force_expire, cache_step, run_cache,
}
use kvarteret_personal.Cache.Entries.{
  find-key, All-delete, move_to_end-assign, get_cases, step-settings, other_key,
}

module _ {K V : Type 0} ⦃dict : Key K⦄ where
  -- The entry has another key.
  abbrev pub Differs : K → CacheEntry K V → Type 0
  Differs k e = dict.eq e.key k ≡ false

  -- No two entries have one key.
  abbrev pub Distinct : List (CacheEntry K V) → Type 0
  Distinct [] = Unit
  Distinct (e ∷ l) = All (Differs e.key) l × Distinct l

  Differs-delete : (k : K) (l : List (CacheEntry K V)) → All (Differs k) (delete_entry k l)
  unfolding delete_entry
  Differs-delete k [] = tt
  Differs-delete k (e ∷ l) = elim (Bool-cases (dict.eq e.key k)) [
    | inl drop ↦ rw drop (Differs-delete k l)
    | inr keep ↦ rw keep (keep, Differs-delete k l)
  ]

  Distinct-delete : (k : K) (l : List (CacheEntry K V)) → Distinct l → Distinct (delete_entry k l)
  unfolding delete_entry
  Distinct-delete k [] d = tt
  Distinct-delete k (e ∷ l) d = elim (Bool-cases (dict.eq e.key k)) [
    | inl drop ↦ rw drop (Distinct-delete k l d.1)
    | inr keep ↦ rw keep (All-delete (Differs e.key) k l d.0, Distinct-delete k l d.1)
  ]

  Differs-end :
      (k : K) (l : List (CacheEntry K V)) (e : CacheEntry K V)
      → dict.eq e.key k ≡ false
      → All (Differs k) l
      → All (Differs k) (l ++ e ∷ [])
  Differs-end k [] e h a = (h, tt)
  Differs-end k (d ∷ l) e h a = (a.0, Differs-end k l e h a.1)

  Distinct-end :
      (l : List (CacheEntry K V)) (e : CacheEntry K V)
      → All (Differs e.key) l
      → Distinct l
      → Distinct (l ++ e ∷ [])
  Distinct-end [] e a d = (tt, tt)
  Distinct-end (x ∷ l) e a d =
      (Differs-end x.key l e (other_key x.key e.key a.0) d.0, Distinct-end l e a.1 d.1)

  Distinct-evict : (n : ℕ) (l : List (CacheEntry K V)) → Distinct l → Distinct (evict n l)
  unfolding evict
  Distinct-evict n [] d = tt
  Distinct-evict n (e ∷ l) d = elim (Bool-cases (ltb n (suc (length l)))) [
    | inl more ↦ rw more (Distinct-evict n l d.1)
    | inr enough ↦ rw enough d
  ]

  length-evict : (n : ℕ) (l : List (CacheEntry K V)) → length (evict n l) ≤ n
  unfolding evict
  length-evict n [] = omega arith
  length-evict n (e ∷ l) = ground (arith, length-evict n l)

  length-delete : (k : K) (l : List (CacheEntry K V)) → length (delete_entry k l) ≤ length l
  unfolding delete_entry
  length-delete k l = length-filter_by _ l

  -- An entry that is there makes its deletion shorter.
  length-delete-found :
      (k : K) (l : List (CacheEntry K V)) (e : CacheEntry K V)
      → find_entry k l ≡ some e
      → suc (length (delete_entry k l)) ≤ length l
  unfolding delete_entry
  length-delete-found k [] e h = absurd cc
  length-delete-found k (d ∷ l) e h = ground (arith, length-delete k l, length-delete-found k l e)

  pub record IsValid (c : TtlCache K V) : Type 0 where
    pub positive : 1 ≤ c.max_entries
    pub bounded : length c.entries ≤ c.max_entries
    pub distinct : Distinct c.entries

  move_to_end-IsValid :
      (k : K) (c : TtlCache K V)
      → IsValid c
      → IsValid (record c { entries = move_to_end k c.entries })
  unfolding move_to_end
  move_to_end-IsValid k c v = elim (Option-cases (find_entry k c.entries)) [
    | inl missing ↦ rw (move_to_end, missing) v
    | inr (e, found) ↦
        let key = (dict.law e.key k).0 (find-key k c.entries e found) in
        rw (move_to_end, found)
          (record {
            positive = v.positive;
            bounded = omega (
              arith,
              length-append (delete_entry k c.entries) (e ∷ []),
              length-delete-found k c.entries e found,
              v.bounded,
            );
            distinct =
                Distinct-end (delete_entry k c.entries) e
                  (subst (λ x. All (Differs x) (delete_entry k c.entries)) (sym key)
                    (Differs-delete k c.entries))
                  (Distinct-delete k c.entries v.distinct);
          })
  ]

  delete-IsValid :
      (k : K) (c : TtlCache K V)
      → IsValid c
      → IsValid (record c { entries = delete_entry k c.entries })
  delete-IsValid k c v = record {
    positive = v.positive;
    bounded = omega (arith, length-delete k c.entries, v.bounded);
    distinct = Distinct-delete k c.entries v.distinct;
  }

  set-IsValid : (now : ℕ) (k : K) (x : V) (c : TtlCache K V) → IsValid c → IsValid (set now k x c)
  unfolding set
  set-IsValid now k x c v =
      let e : CacheEntry K V = record { key = k; value = x; expires_at = now + c.ttl_seconds } in
      record {
        positive = v.positive;
        bounded = length-evict c.max_entries (move_to_end k (assign_entry e c.entries));
        distinct = Distinct-evict c.max_entries (move_to_end k (assign_entry e c.entries)) (
            rw (move_to_end-assign e c.entries) (
              Distinct-end (delete_entry k c.entries) e (Differs-delete k c.entries)
                (Distinct-delete k c.entries v.distinct)));
      }

  expire_all : K → List (CacheEntry K V) → List (CacheEntry K V)
  expire_all k = map (λ e. if dict.eq e.key k then record e { expires_at = 0 } else e)

  expire-Differs :
      (k q : K) (l : List (CacheEntry K V)) → All (Differs q) l → All (Differs q) (expire_all k l)
  unfolding expire_all
  expire-Differs k q [] a = tt
  expire-Differs k q (e ∷ l) a = elim (Bool-cases (dict.eq e.key k)) [
    | inl same ↦ rw same (a.0, expire-Differs k q l a.1)
    | inr other ↦ rw other (a.0, expire-Differs k q l a.1)
  ]

  expire-Distinct : (k : K) (l : List (CacheEntry K V)) → Distinct l → Distinct (expire_all k l)
  unfolding expire_all
  expire-Distinct k [] d = tt
  expire-Distinct k (e ∷ l) d = elim (Bool-cases (dict.eq e.key k)) [
    | inl same ↦ rw same (expire-Differs k e.key l d.0, expire-Distinct k l d.1)
    | inr other ↦ rw other (expire-Differs k e.key l d.0, expire-Distinct k l d.1)
  ]

  step-IsValid :
      (now : ℕ) (call : CacheCall K V) (c : TtlCache K V)
      → IsValid c
      → IsValid (cache_step now call c)
  unfolding cache_step pop clear force_expire expire_all
  step-IsValid now (get_call k) c v =
      get_cases IsValid now k c v (delete-IsValid k c v) (move_to_end-IsValid k c v)
  step-IsValid now (set_call k x) c v = set-IsValid now k x c v
  step-IsValid now (pop_call k) c v = delete-IsValid k c v
  step-IsValid now (force_expire_call k) c v = record {
    positive = v.positive;
    bounded = omega (
      arith,
      length-map
          (λ (e : CacheEntry K V). if dict.eq e.key k then record e { expires_at = 0 } else e)
          c.entries,
      v.bounded,
    );
    distinct = expire-Distinct k c.entries v.distinct;
  }
  step-IsValid now clear_call c v = record {
    positive = v.positive;
    bounded = omega (arith, v.positive);
    distinct = tt;
  }

  pub run-IsValid :
      (calls : List (ℕ × CacheCall K V)) (c : TtlCache K V)
      → IsValid c
      → IsValid (run_cache calls c)
  unfolding run_cache
  run-IsValid [] c v = v
  run-IsValid ((now, call) ∷ calls) c v =
      run-IsValid calls (cache_step now call c) (step-IsValid now call c v)

  run-max_entries :
      (calls : List (ℕ × CacheCall K V)) (c : TtlCache K V)
      → (run_cache calls c).max_entries ≡ c.max_entries
  unfolding run_cache
  run-max_entries [] c = refl
  run-max_entries ((now, call) ∷ calls) c =
      run-max_entries calls (cache_step now call c) ∙ (step-settings now call c).1

  -- Whatever calls were made of a new cache, it never holds two entries of one key, nor more
  -- entries than it was made for, where a size of zero counts as one.
  pub run_cache-IsValid :
      (calls : List (ℕ × CacheCall K V)) (ttl_seconds max_entries : ℕ)
      → Distinct (run_cache calls (init_cache ttl_seconds max_entries)).entries
        × (length (run_cache calls (init_cache ttl_seconds max_entries)).entries
            ≤ max 1 max_entries)
  unfolding init_cache
  run_cache-IsValid calls ttl_seconds max_entries =
      let v =
        run-IsValid calls (init_cache ttl_seconds max_entries)
          (record { positive = omega arith; bounded = omega arith; distinct = tt }) in
      (
        v.distinct,
        subst (λ m. length (run_cache calls (init_cache ttl_seconds max_entries)).entries ≤ m)
            (run-max_entries calls (init_cache {K = K} {V = V} ttl_seconds max_entries)) v.bounded,
      )
