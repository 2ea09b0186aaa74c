-- ===== src/Maps.antt =====
-- The two containers of virtual_dns.rs that come from other crates, as interfaces: hashbrown's
-- `HashMap` and hashlink's `LruCache`. A cache is read through the list of its entries, least
-- recently used first, which is the order in which hashlink iterates.
pub mod Assoc
pub mod Sizes
pub use Assoc.*
use tun2proxy.Prelude.{
  ◌≡◌, Bool, true, false, Option, none, some, List, [], ◌∷◌, ◌++◌, Eq, ◌==◌, if◌then◌else◌,
}

abbrev pub is_none {ℓ} : {A : Type ℓ} → Option A → Bool
is_none none = true
is_none (some a) = false

-- hashbrown::HashMap. `remove` returns what it removes.
pub record HashMapApi (K V : Type 0) ⦃e : Eq K⦄ : Type 1 where
  pub HashMap : Type 0
  pub empty : HashMap
  pub get : HashMap → K → Option V
  pub insert : HashMap → K → V → HashMap
  pub remove : HashMap → K → HashMap × Option V
  pub get-empty : (k : K) → get empty k ≡ none
  pub get-insert :
      (m : HashMap) (k : K) (v : V) (j : K)
      → get (insert m k v) j ≡ (if k == j then some v else get m j)
  pub get-remove :
      (m : HashMap) (k j : K) → get (remove m k).0 j ≡ (if k == j then none else get m j)
  pub remove-get : (m : HashMap) (k : K) → (remove m k).1 ≡ get m k

-- hashlink::LruCache: `insert` and a successful `get` put the entry at the most recent end, and
-- `remove_lru` takes the entry at the other end. `is_vacant` is the test of `raw_entry_mut`.
pub record LruApi (K V : Type 0) ⦃e : Eq K⦄ : Type 1 where
  pub LruCache : Type 0
  pub entries : LruCache → List (K × V)
  pub new_unbounded : LruCache
  pub clear : LruCache → LruCache
  pub is_vacant : LruCache → K → Bool
  pub get : LruCache → K → LruCache × Option V
  pub insert : LruCache → K → V → LruCache
  pub remove : LruCache → K → LruCache × Option V
  pub remove_lru : LruCache → LruCache × Option (K × V)
  pub distinct : (c : LruCache) → Distinct (entries c)
  pub entries-new : entries new_unbounded ≡ []
  pub entries-clear : (c : LruCache) → entries (clear c) ≡ []
  pub vacant-lookup : (c : LruCache) (k : K) → is_vacant c k ≡ is_none (lookup k (entries c))
  pub entries-get : (c : LruCache) (k : K) → entries (get c k).0 ≡ touch k (entries c)
  pub get-lookup : (c : LruCache) (k : K) → (get c k).1 ≡ lookup k (entries c)
  pub entries-insert :
      (c : LruCache) (k : K) (v : V) → entries (insert c k v) ≡ without k (entries c) ++ (k, v) ∷ []
  pub entries-remove : (c : LruCache) (k : K) → entries (remove c k).0 ≡ without k (entries c)
  pub remove-lookup : (c : LruCache) (k : K) → (remove c k).1 ≡ lookup k (entries c)
  pub entries-remove_lru : (c : LruCache) → entries (remove_lru c).0 ≡ drop_first (entries c)
  pub remove_lru-head : (c : LruCache) → (remove_lru c).1 ≡ head (entries c)
