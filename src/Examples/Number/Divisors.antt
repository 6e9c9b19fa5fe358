-- ===== src/Examples/Number/Divisors.antt =====
-- The sums of divisors that src/examples/number.rs is about, and the numbers that are their own.
use generator_rs.Base.{
  ℕ, zero, suc, ◌+◌, ◌-◌, ◌%◌, ◌^◌, ◌<◌, ◌≡◌, refl, sym, ◌∙◌, ap, Bool, true, false, List, [], ◌∷◌,
  ◌++◌, arith, if◌then◌else◌, ltb, leb, ◌==◌, ◌&&◌, ◌||◌, Bool-cases, inl, inr, has, has-append,
}
use mathlib.Core.List.{foldl}

-- `u32`, in a release build.
abbrev pub wrap : ℕ → ℕ
wrap x = x % 2 ^ 32

abbrev pub add : ℕ → ℕ → ℕ
add acc x = wrap (acc + x)

-- The divisors of `n` among `c` numbers from `i` on.
abbrev pub divisors : (n c i : ℕ) → List ℕ
divisors n zero i = []
divisors n (suc c) i = if n % i == 0 then i ∷ divisors n c (suc i) else divisors n c (suc i)

abbrev pub all_factors : ℕ → List ℕ
all_factors n = if n == 0 then 0 ∷ [] else 1 ∷ divisors n (n - 2) 2

-- The sum of the divisors of `n` below `d`.
abbrev pub divisor_sum : (n d : ℕ) → ℕ
divisor_sum n zero = 0
divisor_sum n (suc d) = (if d == 0 then 0 else if n % d == 0 then d else 0) + divisor_sum n d

divisor_sum-found :
    (n i : ℕ) → 0 < i → (n % i == 0) ≡ true → divisor_sum n (suc i) ≡ i + divisor_sum n i
divisor_sum-found n i h y = ground arith

divisor_sum-next : (n i : ℕ) → (n % i == 0) ≡ false → divisor_sum n (suc i) ≡ divisor_sum n i
divisor_sum-next n i y = ground arith

foldl-divisors :
    (n c i z : ℕ)
    → 0 < i
    → foldl add (wrap (z + divisor_sum n i)) (divisors n c i) ≡ wrap (z + divisor_sum n (i + c))
foldl-divisors n zero i z h =
    let e : i + 0 ≡ i = omega arith in ap (λ q. wrap (z + divisor_sum n q)) (sym e)
foldl-divisors n (suc c) i z h =
    let e : i + suc c ≡ suc i + c = omega arith in
    let rest = foldl-divisors n c (suc i) z (omega arith) in
    elim (Bool-cases (n % i == 0)) [
      | inl y ↦
          let d = divisor_sum-found n i h y in
          let w : wrap (wrap (z + divisor_sum n i) + i) ≡ wrap (z + divisor_sum n (suc i)) =
            omega (arith, d) in
          rw y (
            ap (λ q. foldl add q (divisors n c (suc i))) w
            ∙ rest
            ∙ ap (λ q. wrap (z + divisor_sum n q)) (sym e))
      | inr y ↦
          let w = ap (λ q. wrap (z + q)) (sym (divisor_sum-next n i y)) in
          rw y (
            ap (λ q. foldl add q (divisors n c (suc i))) w
            ∙ rest
            ∙ ap (λ q. wrap (z + divisor_sum n q)) (sym e))
    ]

-- What the sum over `factors` is.
abbrev pub total : ℕ → ℕ
total n = if ltb n 2 then n else wrap (divisor_sum n n)

pub foldl-factors : (n : ℕ) → foldl add 0 (all_factors n) ≡ total n
foldl-factors zero = refl
foldl-factors (suc zero) = refl
foldl-factors (suc (suc n)) =
    let m = suc (suc n) in
    let one : m % 1 ≡ 0 = omega arith in
    let two : divisor_sum m 2 ≡ 1 = ground arith in
    let all : 2 + (m - 2) ≡ m = omega arith in
    let large : ltb m 2 ≡ false = ground arith in
    let some_left : (m == 0) ≡ false = ground arith in
    let sum = foldl-divisors m (m - 2) 2 0 (omega arith) in
    rw (some_left, large)
      (ap (λ q. foldl add (wrap (0 + q)) (divisors m (m - 2) 2)) (sym two)
        ∙ sum
        ∙ ap (λ q. wrap (0 + divisor_sum m q)) all
        ∙ omega arith)

-- What has been printed behind the test of `m`.
abbrev pub tested : (m acc : ℕ) → List ℕ → List ℕ
tested m acc zs = if acc == m then zs ++ m ∷ [] else zs

-- What has been printed once `c` more numbers have been tested.
abbrev pub printed : (c m : ℕ) → List ℕ → List ℕ
printed zero m zs = zs
printed (suc c) m zs = printed c (suc m) (tested m (total m) zs)

none_left : (x m : ℕ) (h t : Bool) → h ≡ (h || (leb m x && ltb x (m + 0) && t))
none_left x m h t = ground arith

one_more :
    (x c m : ℕ) (h t tm : Bool)
    → (x ≡ m → t ≡ tm)
    → ((if tm then h || x == m else h) || (leb (suc m) x && ltb x (suc m + c) && t))
      ≡ (h || (leb m x && ltb x (m + suc c) && t))
one_more x c m h t tm e = ground arith

has-tested :
    (x m acc : ℕ) (zs : List ℕ)
    → has x (tested m acc zs) ≡ (if acc == m then has x zs || x == m else has x zs)
has-tested x m acc zs = ground (arith, has-append x zs (m ∷ []))

pub has-printed :
    (x c m : ℕ) (zs : List ℕ)
    → has x (printed c m zs) ≡ (has x zs || (leb m x && ltb x (m + c) && total x == x))
has-printed x zero m zs = none_left x m (has x zs) (total x == x)
has-printed x (suc c) m zs =
    has-printed x c (suc m) (tested m (total m) zs)
    ∙ ap (λ q. q || (leb (suc m) x && ltb x (suc m + c) && total x == x))
        (has-tested x m (total m) zs)
    ∙ one_more x c m (has x zs) (total x == x) (total m == m) (λ e. ap (λ q. total q == q) e)

pub below : (x l : ℕ) (t : Bool) → (leb 0 x && ltb x (0 + l) && t) ≡ (ltb x l && t)
below x l t = ground arith
