-- ===== src/VirtualDns/Views.antt =====
-- The two maps of the resolver as functions, and what each operation of virtual_dns.rs makes of
-- them.
use tun2proxy.Prelude.{
  ◌≡◌, ◌≢◌, sym, ◌∙◌, Option, none, some, Eq, ◌==◌, bytes_eq, arith, if◌then◌else◌, Bool-cases, inl,
  inr, ◌⊎◌,
}
use tun2proxy.Ip.{IpAddr, ip_eq}
use tun2proxy.Maps.{lookup, lookup-without_snoc, lookup-touch}
use tun2proxy.VirtualDns.{Name, Crates, VirtualDns, bind, touch_ip}

-- Two partial functions, each the inverse of the other.
pub record Inverse {A B : Type 0} (f : A → Option B) (g : B → Option A) : Type 0 where
  pub there : (a : A) (b : B) → f a ≡ some b → g b ≡ some a
  pub back : (a : A) (b : B) → g b ≡ some a → f a ≡ some b

-- The function `f` with another value at `a`.
abbrev pub at : {A B : Type 0} ⦃e : Eq A⦄ → A → Option B → (A → Option B) → A → Option B
at a b f x = if a == x then b else f x

module _ {A B : Type 0} ⦃e : Eq A⦄ ⦃i : Eq B⦄ where
  pub Inverse-bind :
      {f : A → Option B} {g : B → Option A} (a : A) (b : B)
      → Inverse f g
      → f a ≡ none
      → g b ≡ none
      → Inverse (at a (some b) f) (at b (some a) g)
  Inverse-bind a b v fa gb = record {
    there = λ x y h. ground (arith, e.beq_iff a x, i.beq_iff b y, v.there x y);
    back = λ x y h. ground (arith, e.beq_iff a x, i.beq_iff b y, v.back x y);
  }

  pub Inverse-remove :
      {f : A → Option B} {g : B → Option A} (a : A) (b : B)
      → Inverse f g
      → f a ≡ some b
      → Inverse (at a none f) (at b none g)
  Inverse-remove a b v fa = record {
    there =
        λ x y h. ground (arith, e.beq_iff a x, i.beq_iff b y, v.there x y, v.there a b, v.back x y);
    back =
        λ x y h. ground (arith, e.beq_iff a x, i.beq_iff b y, v.there x y, v.there a b, v.back x y);
  }

module _ {A B : Type 0} ⦃e : Eq A⦄ where
  pub at-none : (f : A → Option B) (a x : A) → f x ≡ none → at a none f x ≡ none
  at-none f a x h = ground arith

  pub at_other : (f : A → Option B) (a x : A) (b : Option B) → x ≢ a → at a b f x ≡ f x
  at_other f a x b h = ground (arith, e.beq_iff a x)

  -- A value given twice is the later one.
  pub at_twice : (f : A → Option B) (a x : A) (b c : Option B) → at a b (at a c f) x ≡ at a b f x
  at_twice f a x b c = ground arith

  -- Forgetting what is not there changes nothing.
  pub at_absent : (f : A → Option B) (a x : A) → f a ≡ none → at a none f x ≡ f x
  at_absent f a x h = ground (arith, e.beq_iff a x)

pub at_cases :
    {A B : Type 0} ⦃e : Eq A⦄ (f : A → Option B) (a : A) (b : Option B) (x : A)
    → (a ≡ x) ⊎ (at a b f x ≡ f x)
at_cases ⦃e⦄ f a b x = elim (Bool-cases (a == x)) [
  | inl same ↦ inl ((e.beq_iff a x).0 same)
  | inr other ↦ inr (rw other)
]

pub Inverse-cong :
    {A B : Type 0} {f f' : A → Option B} {g g' : B → Option A}
    → ((a : A) → f' a ≡ f a)
    → ((b : B) → g' b ≡ g b)
    → Inverse f g
    → Inverse f' g'
Inverse-cong p q v = record {
  there = λ a b h. q b ∙ v.there a b (sym (p a) ∙ h);
  back = λ a b h. p a ∙ v.back a b (sym (q b) ∙ h);
}

module _ {E : Crates} where
  open E use {lru, names}

  -- The name that an address stands for.
  abbrev pub name_of : VirtualDns E → IpAddr → Option Name
  name_of d ip = lookup ip (lru.entries d.lru_cache)

  -- The address of a (canonical) name.
  abbrev pub address_of : VirtualDns E → Name → Option IpAddr
  address_of d name = names.get d.name_to_ip name

  pub name_of-bind :
      (d : VirtualDns E) (ip : IpAddr) (name : Name) (j : IpAddr)
      → name_of (bind E d ip name) j ≡ at ip (some name) (name_of d) j
  unfolding bind
  name_of-bind d ip name j =
      rw (lru.entries-insert d.lru_cache ip name)
        (lookup-without_snoc (lru.entries d.lru_cache) ip name j)

  pub address_of-bind :
      (d : VirtualDns E) (ip : IpAddr) (name n : Name)
      → address_of (bind E d ip name) n ≡ at name (some ip) (address_of d) n
  unfolding bind
  address_of-bind d ip name n = names.get-insert d.name_to_ip name ip n

  pub name_of-touch : (d : VirtualDns E) (ip j : IpAddr) → name_of (touch_ip E d ip) j ≡ name_of d j
  unfolding touch_ip
  name_of-touch d ip j =
      rw (lru.entries-get d.lru_cache ip) (lookup-touch ip j (lru.entries d.lru_cache))
