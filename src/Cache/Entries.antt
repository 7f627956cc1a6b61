-- ===== src/Cache/Entries.antt =====
-- The entries of the cache of app/cache.py under the dictionary's operations.
use kvarteret_personal.Prelude.{
  ℕ, suc, ◌+◌, ◌<◌, ◌≡◌, refl, subst, inl, inr, true, false, some, List, [], ◌∷◌, ◌++◌, ltb, leb,
  length, All, All-append, arith, Key, Bool-cases, Option-cases,
}
use kvarteret_personal.Cache.{
  CacheEntry, find_entry, delete_entry, assign_entry, move_to_end, evict, TtlCache, CacheCall,
  get_call, pop_call, force_expire_call, set_call, clear_call, get, set, pop, clear, force_expire,
  cache_step,
}

pub same_key : {K : Type 0} ⦃dict : Key K⦄ (k : K) → dict.eq k k ≡ true
same_key ⦃dict⦄ k = (dict.law k k).1 refl

pub other_key : {K : Type 0} ⦃dict : Key K⦄ (a b : K) → dict.eq a b ≡ false → dict.eq b a ≡ false
other_key ⦃dict⦄ a b h = elim (Bool-cases (dict.eq b a)) [
  | inl same ↦ absurd (ground (arith, dict.law a b, dict.law b a, same))
  | inr other ↦ other
]

module _ {K V : Type 0} ⦃dict : Key K⦄ where
  pub find-key :
      (k : K) (l : List (CacheEntry K V)) (e : CacheEntry K V)
      → find_entry k l ≡ some e
      → dict.eq e.key k ≡ true
  find-key k [] e h = cc
  find-key k (d ∷ l) e h = ground (arith, find-key k l e)

  pub find-All :
      (P : CacheEntry K V → Type 0) (k : K) (l : List (CacheEntry K V)) (e : CacheEntry K V)
      → All P l
      → find_entry k l ≡ some e
      → P e
  find-All P k [] e a h = absurd cc
  find-All P k (d ∷ l) e a h = elim (Bool-cases (dict.eq d.key k)) [
    | inl same ↦ subst P (ground (arith, same)) a.0
    | inr other ↦ find-All P k l e a.1 (ground (arith, other))
  ]

  pub find-assign :
      (e : CacheEntry K V) (l : List (CacheEntry K V))
      → find_entry e.key (assign_entry e l) ≡ some e
  unfolding assign_entry
  find-assign e [] = rw (same_key e.key) refl
  find-assign e (d ∷ l) = ground (arith, find-assign e l, same_key e.key)

  pub delete-assign :
      (e : CacheEntry K V) (l : List (CacheEntry K V))
      → delete_entry e.key (assign_entry e l) ≡ delete_entry e.key l
  unfolding assign_entry delete_entry
  delete-assign e [] = rw (same_key e.key) refl
  delete-assign e (d ∷ l) = ground (arith, delete-assign e l, same_key e.key)

  -- What `set` makes of the entries before it evicts.
  pub move_to_end-assign :
      (e : CacheEntry K V) (l : List (CacheEntry K V))
      → move_to_end e.key (assign_entry e l) ≡ delete_entry e.key l ++ e ∷ []
  unfolding move_to_end delete_entry
  move_to_end-assign e l = rw (move_to_end, find-assign e l, delete-assign e l) refl

  pub move_to_end_found :
      (k : K) (l : List (CacheEntry K V)) (e : CacheEntry K V)
      → find_entry k l ≡ some e
      → move_to_end k l ≡ delete_entry k l ++ e ∷ []
  unfolding move_to_end delete_entry
  move_to_end_found k l e h = rw (move_to_end, h) refl

  pub All-delete :
      (P : CacheEntry K V → Type 0) (k : K) (l : List (CacheEntry K V))
      → All P l
      → All P (delete_entry k l)
  unfolding delete_entry
  All-delete P k [] a = tt
  All-delete P k (d ∷ l) a = elim (Bool-cases (dict.eq d.key k)) [
    | inl same ↦ rw same (All-delete P k l a.1)
    | inr other ↦ rw other (a.0, All-delete P k l a.1)
  ]

  pub All-move_to_end :
      (P : CacheEntry K V → Type 0) (k : K) (l : List (CacheEntry K V))
      → All P l
      → All P (move_to_end k l)
  unfolding move_to_end
  All-move_to_end P k l a = elim (Option-cases (find_entry k l)) [
    | inl e ↦ rw (move_to_end, e) a
    | inr (d, e) ↦
        rw (move_to_end, e)
          (All-append P (delete_entry k l) (d ∷ []) (All-delete P k l a) (find-All P k l d a e, tt))
  ]

  pub All-evict :
      (P : CacheEntry K V → Type 0) (n : ℕ) (l : List (CacheEntry K V))
      → All P l
      → All P (evict n l)
  unfolding evict
  All-evict P n [] a = tt
  All-evict P n (d ∷ l) a = elim (Bool-cases (ltb n (suc (length l)))) [
    | inl more ↦ rw more (All-evict P n l a.1)
    | inr enough ↦ rw enough a
  ]

  pub get_found :
      (now : ℕ) (k : K) (c : TtlCache K V) (e : CacheEntry K V)
      → find_entry k c.entries ≡ some e
      → now < e.expires_at
      → get now k c ≡ (some e.value, record c { entries = move_to_end k c.entries })
  unfolding get
  get_found now k c e found lt =
      let fresh : leb e.expires_at now ≡ false = ground arith in rw (get, found, fresh) refl

  pub get-value :
      (now : ℕ) (k : K) (c : TtlCache K V) (v : V)
      → (get now k c).0 ≡ some v
      → (e : CacheEntry K V) × (find_entry k c.entries ≡ some e)
        × (e.value ≡ v)
        × (now < e.expires_at)
  unfolding get
  get-value now k c v h = elim (Option-cases (find_entry k c.entries)) [
    | inl missing ↦ absurd (ground (arith, missing))
    | inr (e, found) ↦ (e, found, ground (arith, found), ground (arith, found))
  ]

  -- Of all entries, a stored one included.
  pub set-All :
      (P : CacheEntry K V → Type 0) (now : ℕ) (k : K) (v : V) (c : TtlCache K V)
      → P (record { key = k; value = v; expires_at = now + c.ttl_seconds })
      → All P c.entries
      → All P (set now k v c).entries
  unfolding set
  set-All P now k v c p a =
      let e : CacheEntry K V = record { key = k; value = v; expires_at = now + c.ttl_seconds } in
      All-evict P c.max_entries (move_to_end k (assign_entry e c.entries)) (
        rw (move_to_end-assign e c.entries)
          (All-append P (delete_entry k c.entries) (e ∷ []) (All-delete P k c.entries a) (p, tt)))

  pub pop-All :
      (P : CacheEntry K V → Type 0) (k : K) (c : TtlCache K V)
      → All P c.entries
      → All P (pop k c).entries
  unfolding pop
  pop-All P k c a = All-delete P k c.entries a

  -- What a read leaves behind.
  pub get_cases :
      (P : TtlCache K V → Type 0) (now : ℕ) (k : K) (c : TtlCache K V)
      → P c
      → P (record c { entries = delete_entry k c.entries })
      → P (record c { entries = move_to_end k c.entries })
      → P (get now k c).1
  unfolding get
  get_cases P now k c same dropped moved = elim (Option-cases (find_entry k c.entries)) [
    | inl missing ↦ rw (get, missing) same
    | inr (e, found) ↦ elim (Bool-cases (leb e.expires_at now)) [
      | inl expired ↦ rw (get, found, expired) dropped
      | inr fresh ↦ rw (get, found, fresh) moved
    ]
  ]

  pub step-settings :
      (now : ℕ) (call : CacheCall K V) (c : TtlCache K V)
      → ((cache_step now call c).ttl_seconds ≡ c.ttl_seconds)
        × ((cache_step now call c).max_entries ≡ c.max_entries)
  unfolding cache_step set pop clear force_expire
  step-settings now (get_call k) c =
      get_cases (λ d. (d.ttl_seconds ≡ c.ttl_seconds) × (d.max_entries ≡ c.max_entries)) now k c
        (refl, refl) (refl, refl) (refl, refl)
  step-settings now (set_call k v) c = (refl, refl)
  step-settings now (pop_call k) c = (refl, refl)
  step-settings now (force_expire_call k) c = (refl, refl)
  step-settings now clear_call c = (refl, refl)

  pub get-All :
      (P : CacheEntry K V → Type 0) (now : ℕ) (k : K) (c : TtlCache K V)
      → All P c.entries
      → All P (get now k c).1.entries
  get-All P now k c a =
      get_cases (λ d. All P d.entries) now k c a (All-delete P k c.entries a)
        (All-move_to_end P k c.entries a)

  pub get-ttl : (now : ℕ) (k : K) (c : TtlCache K V) → (get now k c).1.ttl_seconds ≡ c.ttl_seconds
  get-ttl now k c = get_cases (λ d. d.ttl_seconds ≡ c.ttl_seconds) now k c refl refl refl
