-- ===== src/Maps/Sizes.antt =====
-- Lists of entries: how many there are after one is removed or replaced.
use tun2proxy.Maps.Assoc.{lookup, without}
use tun2proxy.Prelude.{
  ◌≡◌, ◌≤◌, ◌<◌, ◌+◌, some, [], ◌∷◌, ◌++◌, List, Eq, length, arith, length-append,
}

module _ {K V : Type 0} ⦃e : Eq K⦄ where
  pub length-without : (k : K) (l : List (K × V)) → length (without k l) ≤ length l
  length-without k [] = omega arith
  length-without k ((i, v) ∷ l) = ground (arith, length-without k l)

  pub length-without_found :
      (k : K) (l : List (K × V)) (v : V) → lookup k l ≡ some v → length (without k l) < length l
  length-without_found k [] v h = cc
  length-without_found k ((i, w) ∷ l) v h =
      ground (arith, length-without_found k l v, length-without k l)

  pub length-replaced :
      (k : K) (l : List (K × V)) (v : V) → length (without k l ++ (k, v) ∷ []) ≤ length l + 1
  length-replaced k l v =
      omega (arith, length-append (without k l) ((k, v) ∷ []), length-without k l)

  pub length-replaced_found :
      (k : K) (l : List (K × V)) (v w : V)
      → lookup k l ≡ some w
      → length (without k l ++ (k, v) ∷ []) ≤ length l
  length-replaced_found k l v w h =
      omega (arith, length-append (without k l) ((k, v) ∷ []), length-without_found k l w h)
