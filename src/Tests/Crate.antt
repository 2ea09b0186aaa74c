-- ===== src/Tests/Crate.antt =====
-- Instances of the interfaces that virtual_dns.rs takes from other crates: lists of entries, and
-- records written as their numbers above 32.
use tun2proxy.VirtualDns.{Crates, Name}
use tun2proxy.Maps.{
  HashMapApi, LruApi, is_none, Distinct, lookup, touch, without, Distinct-touch, lookup-without,
  Distinct-replaced, Distinct-without, drop_first, Distinct-drop_first, head,
}
use tun2proxy.VirtualDns.Disk.{Bytes}
use tun2proxy.Prelude.{
  zero, suc, ◌≡◌, bytes_eq, refl, arith, [], ◌∷◌, ℕ, true, List, ◌≢◌, if◌then◌else◌, ◌-◌, ap,
  Option, some, ◌+◌, ◌++◌, eqb, ◌∙◌, suc, none,
}
use tun2proxy.Ip.{ip_eq, v4, v6, IpAddr}
use tun2proxy.VirtualDns.Persistence.{Codec, CacheRecord, header, Printable, mapping}

-- A cache is a list with distinct keys.
pub record ListCache : Type 0 where
  pub items : List (IpAddr × Name)
  pub unique : Distinct items

abbrev pub list_lru : LruApi IpAddr Name
list_lru = record {
  LruCache = ListCache;
  entries = λ c. c.items;
  new_unbounded = record { items = []; unique = tt };
  clear = λ c. record { items = []; unique = tt };
  is_vacant = λ c k. is_none (lookup k c.items);
  get = λ c k. (
    record { items = touch k c.items; unique = Distinct-touch k c.items c.unique },
    lookup k c.items,
  );
  insert = λ c k v. record {
    items = without k c.items ++ (k, v) ∷ [];
    unique = Distinct-replaced k v c.items c.unique;
  };
  remove = λ c k. (
    record { items = without k c.items; unique = Distinct-without k c.items c.unique },
    lookup k c.items,
  );
  remove_lru = λ c. (
    record { items = drop_first c.items; unique = Distinct-drop_first c.items c.unique },
    head c.items,
  );
  distinct = λ c. c.unique;
  entries-new = refl;
  entries-clear = λ c. refl;
  vacant-lookup = λ c k. refl;
  entries-get = λ c k. refl;
  get-lookup = λ c k. refl;
  entries-insert = λ c k v. refl;
  entries-remove = λ c k. refl;
  remove-lookup = λ c k. refl;
  entries-remove_lru = λ c. refl;
  remove_lru-head = λ c. refl;
}

abbrev pub list_map : HashMapApi Name IpAddr
list_map = record {
  HashMap = List (Name × IpAddr);
  empty = [];
  get = λ m k. lookup k m;
  insert = λ m k v. (k, v) ∷ m;
  remove = λ m k. (without k m, lookup k m);
  get-empty = λ k. refl;
  get-insert = λ m k v j. refl;
  get-remove = λ m k j. lookup-without k j m;
  remove-get = λ m k. refl;
}

unfoldable pub raise : Bytes → Bytes
raise [] = []
raise (b ∷ bs) = (b + 32) ∷ raise bs

unfoldable pub lower_all : Bytes → Bytes
lower_all [] = []
lower_all (b ∷ bs) = (b - 32) ∷ lower_all bs

pub lower_all-raise : (bs : Bytes) → lower_all (raise bs) ≡ bs
unfolding lower_all raise
lower_all-raise [] = refl
lower_all-raise (b ∷ bs) = ground (arith, lower_all-raise bs)

pub raise-Printable : (bs : Bytes) → Printable (raise bs)
unfolding raise
raise-Printable [] = tt
raise-Printable (b ∷ bs) = (omega arith, raise-Printable bs)

numbers_of : IpAddr → Bytes
numbers_of (v4 a) = 4 ∷ a ∷ []
numbers_of (v6 a) = 6 ∷ a ∷ []

ip_of : ℕ → ℕ → IpAddr
ip_of f a = if eqb f 4 then v4 a else v6 a

unfoldable pub serialize : CacheRecord → Bytes
unfolding numbers_of
serialize (header v n b c) = 0 ∷ v ∷ numbers_of n ++ numbers_of b ++ numbers_of c
serialize (mapping ip name) = 1 ∷ numbers_of ip ++ name

unfoldable pub parse : Bytes → Option CacheRecord
unfolding ip_of
parse (zero ∷ v ∷ nf ∷ n ∷ bf ∷ b ∷ cf ∷ c ∷ []) =
    some (header v (ip_of nf n) (ip_of bf b) (ip_of cf c))
parse (suc t ∷ f ∷ a ∷ name) = some (mapping (ip_of f a) name)
parse _ = none

pub parse-serialize : (r : CacheRecord) → parse (serialize r) ≡ some r
unfolding parse serialize
parse-serialize (header v (v4 n) (v4 b) (v4 c)) = refl
parse-serialize (header v (v4 n) (v4 b) (v6 c)) = refl
parse-serialize (header v (v4 n) (v6 b) (v4 c)) = refl
parse-serialize (header v (v4 n) (v6 b) (v6 c)) = refl
parse-serialize (header v (v6 n) (v4 b) (v4 c)) = refl
parse-serialize (header v (v6 n) (v4 b) (v6 c)) = refl
parse-serialize (header v (v6 n) (v6 b) (v4 c)) = refl
parse-serialize (header v (v6 n) (v6 b) (v6 c)) = refl
parse-serialize (mapping (v4 a) name) = refl
parse-serialize (mapping (v6 a) name) = refl

pub serialize-ne-nil : (r : CacheRecord) → raise (serialize r) ≢ []
unfolding raise serialize
serialize-ne-nil (header v n b c) e = cc
serialize-ne-nil (mapping ip name) e = cc

abbrev pub codec : Codec
codec = record {
  to_writer = λ r. raise (serialize r);
  from_str = λ l. parse (lower_all l);
  is_utf8 = λ l. true;
  from_str-to_writer = λ r. ap parse (lower_all-raise (serialize r)) ∙ parse-serialize r;
  to_writer-Printable = λ r. raise-Printable (serialize r);
  to_writer-ne-nil = serialize-ne-nil;
  to_writer-utf8 = λ r. refl;
}

abbrev pub crates : Crates
crates = record { codec = codec; lru = list_lru; names = list_map }
