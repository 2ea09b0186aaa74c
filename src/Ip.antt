-- ===== src/Ip.antt =====
-- std::net::IpAddr as the program uses it. An address is its family and its value, the octets read
-- as a big-endian number, so that the derived order (every V4 below every V6, then the octets from
-- the left) is the order of these values.
use tun2proxy.Prelude.{
  ℕ, zero, suc, ◌+◌, ◌*◌, ◌/◌, ◌%◌, ◌≡◌, Bool, true, false, List, [], ◌∷◌, ◌++◌, arith, leb, eqb,
  ◌↔◌, Eq, get_or,
}

pub data IpAddr : Type 0 where
  v4 : ℕ → IpAddr
  v6 : ℕ → IpAddr

abbrev pub ip_beq : IpAddr → IpAddr → Bool
ip_beq (v4 a) (v4 b) = eqb a b
ip_beq (v4 a) (v6 b) = false
ip_beq (v6 a) (v4 b) = false
ip_beq (v6 a) (v6 b) = eqb a b

pub ip_beq_iff : (a b : IpAddr) → (ip_beq a b ≡ true) ↔ (a ≡ b)
ip_beq_iff (v4 a) (v4 b) = (λ h. ground arith, λ h. ground arith)
ip_beq_iff (v4 a) (v6 b) = (λ h. cc, λ h. cc)
ip_beq_iff (v6 a) (v4 b) = (λ h. cc, λ h. cc)
ip_beq_iff (v6 a) (v6 b) = (λ h. ground arith, λ h. ground arith)

instance abbrev pub ip_eq : Eq IpAddr
ip_eq = record { beq = ip_beq; beq_iff = ip_beq_iff }

abbrev pub ip_leb : IpAddr → IpAddr → Bool
ip_leb (v4 a) (v4 b) = leb a b
ip_leb (v4 a) (v6 b) = true
ip_leb (v6 a) (v4 b) = false
ip_leb (v6 a) (v6 b) = leb a b

abbrev pub is_ipv4 : IpAddr → Bool
is_ipv4 (v4 a) = true
is_ipv4 (v6 a) = false

abbrev pub value : IpAddr → ℕ
value (v4 a) = a
value (v6 a) = a

-- The number that the first `k` bytes spell, most significant first.
unfoldable pub from_octets : ℕ → List ℕ → ℕ
from_octets zero bytes = 0
from_octets (suc k) bytes = from_octets k bytes * 256 + get_or bytes k 0

-- The `k` low bytes of a number, most significant first.
unfoldable pub octets : ℕ → ℕ → List ℕ
octets zero n = []
octets (suc k) n = octets k (n / 256) ++ (n % 256) ∷ []
