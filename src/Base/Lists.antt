-- ===== src/Base/Lists.antt =====
-- Arrays as lists measured and indexed by native numbers, under the library's names.
use Prim.Native.Nat.{ℕ, zero, suc, ◌+◌, ◌-◌, ◌≤◌, min}
use mathlib.Core.Path.{◌≡◌, refl, ap, ◌∙◌}
use mathlib.Core.List.{List, [], ◌∷◌, ◌++◌}
use native.Mathlib.Omega.{arith}

module _ {ℓ} {A : Type ℓ} where
  abbrev pub length : List A → ℕ
  length [] = 0
  length (x ∷ xs) = suc (length xs)

  abbrev pub get_or : List A → ℕ → A → A
  get_or [] i d = d
  get_or (x ∷ xs) zero d = x
  get_or (x ∷ xs) (suc i) d = get_or xs i d

  -- A write out of bounds changes nothing.
  abbrev pub set : List A → ℕ → A → List A
  set [] i v = []
  set (x ∷ xs) zero v = v ∷ xs
  set (x ∷ xs) (suc i) v = x ∷ set xs i v

  abbrev pub take : ℕ → List A → List A
  take zero xs = []
  take (suc n) [] = []
  take (suc n) (x ∷ xs) = x ∷ take n xs

  abbrev pub drop : ℕ → List A → List A
  drop zero xs = xs
  drop (suc n) [] = []
  drop (suc n) (x ∷ xs) = drop n xs

  abbrev pub replicate : ℕ → A → List A
  replicate zero a = []
  replicate (suc n) a = a ∷ replicate n a

  -- `xs.slice(a, b)` for `a ≤ b`.
  abbrev pub slice : ℕ → ℕ → List A → List A
  slice a b xs = take (b - a) (drop a xs)

  -- `xs.splice(a, n, ...ys)`: the `n` items at `a` are replaced by `ys`.
  abbrev pub splice : ℕ → ℕ → List A → List A → List A
  splice a n ys xs = take a xs ++ (ys ++ drop n (drop a xs))

  pub length-append : (xs ys : List A) → length (xs ++ ys) ≡ length xs + length ys
  length-append [] ys = omega arith
  length-append (x ∷ xs) ys = omega (arith, length-append xs ys)

  pub length-set : (xs : List A) (i : ℕ) (v : A) → length (set xs i v) ≡ length xs
  length-set [] i v = refl
  length-set (x ∷ xs) zero v = refl
  length-set (x ∷ xs) (suc i) v = ap suc (length-set xs i v)

  pub length-replicate : (n : ℕ) (a : A) → length (replicate n a) ≡ n
  length-replicate zero a = refl
  length-replicate (suc n) a = ap suc (length-replicate n a)

  pub length-take : (n : ℕ) (xs : List A) → length (take n xs) ≡ min n (length xs)
  length-take zero xs = omega arith
  length-take (suc n) [] = omega arith
  length-take (suc n) (x ∷ xs) = omega (arith, length-take n xs)

  pub length-drop : (n : ℕ) (xs : List A) → length (drop n xs) ≡ length xs - n
  length-drop zero xs = omega arith
  length-drop (suc n) [] = omega arith
  length-drop (suc n) (x ∷ xs) = omega (arith, length-drop n xs)

  pub take-append-drop : (n : ℕ) (xs : List A) → take n xs ++ drop n xs ≡ xs
  take-append-drop zero xs = refl
  take-append-drop (suc n) [] = refl
  take-append-drop (suc n) (x ∷ xs) = ap (◌∷◌ x) (take-append-drop n xs)

  -- A slice that ends where the first part ends is that part.
  pub take-append_length : (n : ℕ) (xs ys : List A) → length xs ≡ n → take n (xs ++ ys) ≡ xs
  take-append_length zero [] ys h = refl
  take-append_length zero (x ∷ xs) ys h = absurd (omega arith)
  take-append_length (suc n) [] ys h = absurd (omega arith)
  take-append_length (suc n) (x ∷ xs) ys h = ap (◌∷◌ x) (take-append_length n xs ys (omega arith))

  pub drop-append_length : (n : ℕ) (xs ys : List A) → length xs ≡ n → drop n (xs ++ ys) ≡ ys
  drop-append_length zero [] ys h = refl
  drop-append_length zero (x ∷ xs) ys h = absurd (omega arith)
  drop-append_length (suc n) [] ys h = absurd (omega arith)
  drop-append_length (suc n) (x ∷ xs) ys h = drop-append_length n xs ys (omega arith)

  pub take_all : (n : ℕ) (xs : List A) → length xs ≤ n → take n xs ≡ xs
  take_all zero [] h = refl
  take_all zero (x ∷ xs) h = absurd (omega arith)
  take_all (suc n) [] h = refl
  take_all (suc n) (x ∷ xs) h = ap (◌∷◌ x) (take_all n xs (omega arith))

-- To take a list of a known length apart.
pub with_cons4 {ℓ κ} :
    {A : Type ℓ} (P : List A → Type κ)
    → ((a b c d : A) → P (a ∷ b ∷ c ∷ d ∷ []))
    → (xs : List A) → length xs ≡ 4
    → P xs
with_cons4 P f (a ∷ b ∷ c ∷ d ∷ []) h = f a b c d
with_cons4 P f xs h = absurd (omega arith)

pub with_cons6 {ℓ κ} :
    {A : Type ℓ} (P : List A → Type κ)
    → ((a b c d e f : A) → P (a ∷ b ∷ c ∷ d ∷ e ∷ f ∷ []))
    → (xs : List A) → length xs ≡ 6
    → P xs
with_cons6 P k (a ∷ b ∷ c ∷ d ∷ e ∷ f ∷ []) h = k a b c d e f
with_cons6 P k xs h = absurd (omega arith)

-- The two hardware and the two protocol addresses of a frame, taken apart.
pub with_addresses {ℓ κ} :
    {A : Type ℓ} (P : List A → List A → List A → List A → Type κ)
    → ((e0 e1 e2 e3 e4 e5 m0 m1 m2 m3 m4 m5 s0 s1 s2 s3 d0 d1 d2 d3 : A)
        → P
            (e0 ∷ e1 ∷ e2 ∷ e3 ∷ e4 ∷ e5 ∷ [])
            (m0 ∷ m1 ∷ m2 ∷ m3 ∷ m4 ∷ m5 ∷ [])
            (s0 ∷ s1 ∷ s2 ∷ s3 ∷ [])
            (d0 ∷ d1 ∷ d2 ∷ d3 ∷ []))
    → (e m s d : List A) → length e ≡ 6
    → length m ≡ 6
    → length s ≡ 4
    → length d ≡ 4
    → P e m s d
with_addresses P f e m s d le lm ls ld =
    with_cons6 (λ e. P e m s d)
      (λ e0 e1 e2 e3 e4 e5.
        with_cons6 (λ m. P (e0 ∷ e1 ∷ e2 ∷ e3 ∷ e4 ∷ e5 ∷ []) m s d)
          (λ m0 m1 m2 m3 m4 m5.
            with_cons4
              (λ s. P (e0 ∷ e1 ∷ e2 ∷ e3 ∷ e4 ∷ e5 ∷ []) (m0 ∷ m1 ∷ m2 ∷ m3 ∷ m4 ∷ m5 ∷ []) s d)
              (λ s0 s1 s2 s3.
                with_cons4
                  (λ d.
                    P (e0 ∷ e1 ∷ e2 ∷ e3 ∷ e4 ∷ e5 ∷ []) (m0 ∷ m1 ∷ m2 ∷ m3 ∷ m4 ∷ m5 ∷ [])
                      (s0 ∷ s1 ∷ s2 ∷ s3 ∷ []) d)
                  (f e0 e1 e2 e3 e4 e5 m0 m1 m2 m3 m4 m5 s0 s1 s2 s3) d ld)
              s ls)
          m lm)
      e le

pub get_or-append {ℓ} :
    {A : Type ℓ} (xs ys : List A) (i n : ℕ) (a : A)
    → length xs ≡ n
    → get_or (xs ++ ys) (n + i) a ≡ get_or ys i a
get_or-append [] ys i zero a h = ap (λ k. get_or ys k a) (omega arith)
get_or-append [] ys i (suc n) a h = absurd (omega arith)
get_or-append (x ∷ xs) ys i zero a h = absurd (omega arith)
get_or-append (x ∷ xs) ys i (suc n) a h =
    ap (λ k. get_or (x ∷ (xs ++ ys)) k a) shift ∙ get_or-append xs ys i n a (omega arith)
  where
    shift : suc n + i ≡ suc (n + i)
    shift = omega arith

pub get_or-drop {ℓ} :
    {A : Type ℓ} (n i : ℕ) (xs : List A) (a : A) → get_or xs (n + i) a ≡ get_or (drop n xs) i a
get_or-drop zero i xs a = ap (λ k. get_or xs k a) (omega arith)
get_or-drop (suc n) i [] a = refl
get_or-drop (suc n) i (x ∷ xs) a = ap (λ k. get_or (x ∷ xs) k a) shift ∙ get_or-drop n i xs a
  where
    shift : suc n + i ≡ suc (n + i)
    shift = omega arith
