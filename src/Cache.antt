-- ===== src/Cache.antt =====
-- app/cache.py: the cache of the services. The clock is an argument of `get` and of `set`, in a unit
-- that the code does not fix; `_entries`, an OrderedDict, is the list of its entries, oldest first.
pub mod Entries
pub mod History
pub mod Bounds
pub mod Recent
use kvarteret_personal.Prelude.{
  ℕ, suc, ◌+◌, Bool, not, Option, none, some, List, [], ◌∷◌, ◌++◌, map, max, ltb, leb, length,
  filter_by, find_first, if◌then◌else◌, Key,
}

-- An entry of the dictionary: its key, and the CacheEntry.
pub record CacheEntry (K V : Type 0) : Type 0 where
  pub key : K
  pub value : V
  pub expires_at : ℕ

pub record TtlCache (K V : Type 0) : Type 0 where
  pub ttl_seconds : ℕ
  pub max_entries : ℕ
  pub entries : List (CacheEntry K V)

-- `__init__`
unfoldable pub init_cache : {K V : Type 0} → ℕ → ℕ → TtlCache K V
init_cache ttl_seconds max_entries = record {
  ttl_seconds = max 1 ttl_seconds;
  max_entries = max 1 max_entries;
  entries = [];
}

module _ {K V : Type 0} ⦃dict : Key K⦄ where
  abbrev pub find_entry : K → List (CacheEntry K V) → Option (CacheEntry K V)
  find_entry k = find_first (λ e. dict.eq e.key k)

  -- `_entries.pop(key, None)`
  unfoldable pub delete_entry : K → List (CacheEntry K V) → List (CacheEntry K V)
  delete_entry k = filter_by (λ e. not (dict.eq e.key k))

  -- `_entries[key] = entry`
  unfoldable pub assign_entry : CacheEntry K V → List (CacheEntry K V) → List (CacheEntry K V)
  assign_entry e [] = e ∷ []
  assign_entry e (d ∷ l) =
      let rest = assign_entry e l in if dict.eq d.key e.key then e ∷ l else d ∷ rest

  -- `_entries.move_to_end(key)`, of a key that is there
  unfoldable pub move_to_end : K → List (CacheEntry K V) → List (CacheEntry K V)
  unfolding delete_entry
  move_to_end k l = elim (find_entry k l) [ none ↦ l | some e ↦ delete_entry k l ++ e ∷ [] ]

  -- `_evict_if_needed`: the oldest entry goes while there are too many.
  unfoldable pub evict : ℕ → List (CacheEntry K V) → List (CacheEntry K V)
  evict n [] = []
  evict n (e ∷ l) = let rest = evict n l in if ltb n (suc (length l)) then rest else e ∷ l

  unfoldable pub get : ℕ → K → TtlCache K V → Option V × TtlCache K V
  unfolding delete_entry move_to_end
  get now k c = elim (find_entry k c.entries) [
    | none ↦ (none, c)
    | some e ↦
        if leb e.expires_at now
        then (none, record c { entries = delete_entry k c.entries })
        else (some e.value, record c { entries = move_to_end k c.entries })
  ]

  unfoldable pub set : ℕ → K → V → TtlCache K V → TtlCache K V
  unfolding assign_entry move_to_end evict
  set now k v c = record c {
    entries = evict c.max_entries (
        move_to_end k (
          assign_entry (record { key = k; value = v; expires_at = now + c.ttl_seconds })
            c.entries));
  }

  unfoldable pub pop : K → TtlCache K V → TtlCache K V
  unfolding delete_entry
  pop k c = record c { entries = delete_entry k c.entries }

  unfoldable pub clear : TtlCache K V → TtlCache K V
  clear c = record c { entries = [] }

  unfoldable pub force_expire : K → TtlCache K V → TtlCache K V
  force_expire k c = record c {
    entries = map (λ e. if dict.eq e.key k then record e { expires_at = 0 } else e) c.entries;
  }

pub data CacheCall (K V : Type 0) : Type 0 where
  get_call pop_call force_expire_call : K → CacheCall K V
  set_call : K → V → CacheCall K V
  clear_call : CacheCall K V

module _ {K V : Type 0} ⦃dict : Key K⦄ where
  -- One call at a time.
  unfoldable pub cache_step : ℕ → CacheCall K V → TtlCache K V → TtlCache K V
  unfolding get set pop clear force_expire
  cache_step now (get_call k) c = (get now k c).1
  cache_step now (set_call k v) c = set now k v c
  cache_step now (pop_call k) c = pop k c
  cache_step now (force_expire_call k) c = force_expire k c
  cache_step now clear_call c = clear c

  unfoldable pub run_cache : List (ℕ × CacheCall K V) → TtlCache K V → TtlCache K V
  unfolding cache_step
  run_cache [] c = c
  run_cache ((now, call) ∷ calls) c = run_cache calls (cache_step now call c)
