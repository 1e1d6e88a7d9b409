-- ===== src/Base/Words.antt =====
-- Bytes and 16-bit words. Every frame of the model is a list of bytes, each below 256, so the
-- source's `(hi << 8) | lo` is a sum. A read past the end of an array is `undefined`, which the
-- source's arithmetic takes for 0.
use Prim.Native.Nat.{ℕ, zero, suc, ◌+◌, ◌-◌, ◌*◌, ◌/◌, ◌%◌, ◌^◌, ◌<◌, bit_xor}
use mathlib.Core.Path.{◌≡◌, refl}
use mathlib.Core.Bool.{Bool, true, false, ◌&&◌, ◌||◌}
use mathlib.Core.Logic.{◌⊎◌}
use mathlib.Core.Option.{Option, none, some}
use mathlib.Core.List.{List, [], ◌∷◌, ◌++◌}
use native.Mathlib.Omega.{arith}
use sprinter_3c509b.Base.Tests.{◌==◌, if◌then◌else◌, ltb, ltb→lt}
use sprinter_3c509b.Base.Lists.{length, get_or, set, replicate, take, drop}

abbrev pub Bytes : Type 0
Bytes = List ℕ

abbrev pub byte_at : Bytes → ℕ → ℕ
byte_at xs i = get_or xs i 0

-- `(hi << 8) | lo`, `w >> 8` and `w & 255`.
abbrev pub word : ℕ → ℕ → ℕ
word hi lo = hi * 256 + lo

abbrev pub high : ℕ → ℕ
high w = w / 256

abbrev pub low : ℕ → ℕ
low w = w % 256

abbrev pub word_at : Bytes → ℕ → ℕ
word_at xs i = word (byte_at xs i) (byte_at xs (i + 1))

-- `xs[i] ^= 1`
abbrev pub flip : ℕ → Bytes → Bytes
flip i xs = set xs i (bit_xor (byte_at xs i) 1)

-- `v ?? d`
abbrev pub or_default {ℓ} : {A : Type ℓ} → Option A → A → A
or_default none d = d
or_default (some a) d = a

-- `v || d` at a number: a 0 counts as missing.
abbrev pub or_nonzero : Option ℕ → ℕ → ℕ
or_nonzero none d = d
or_nonzero (some v) d = if v == 0 then d else v

-- Arithmetic of `>>> 0`: unsigned 32 bits.
abbrev pub u32 : ℕ
u32 = 2 ^ 32

abbrev pub add32 : ℕ → ℕ → ℕ
add32 a b = (a + b) % u32

abbrev pub sub32 : ℕ → ℕ → ℕ
sub32 a b = (a % u32 + u32 - b % u32) % u32

-- `[...w]` of a 32-bit number, most significant byte first.
abbrev pub bytes32 : ℕ → Bytes
bytes32 w = (w / 0x1000000) % 256 ∷ (w / 0x10000) % 256 ∷ (w / 0x100) % 256 ∷ w % 256 ∷ []

-- All items are bytes.
abbrev pub AllBytes : Bytes → Type 0
AllBytes [] = Unit
AllBytes (x ∷ xs) = (x < 256) × AllBytes xs

abbrev pub equal : Bytes → Bytes → Bool
equal [] [] = true
equal (x ∷ xs) (y ∷ ys) = x == y && equal xs ys
equal _ _ = false

pub equal_self : (xs : Bytes) → equal xs xs ≡ true
equal_self [] = refl
equal_self (x ∷ xs) = ground (arith, equal_self xs)

pub equal→eq : (xs ys : Bytes) → equal xs ys ≡ true → xs ≡ ys
equal→eq [] [] h = refl
equal→eq [] (y ∷ ys) h = cc
equal→eq (x ∷ xs) [] h = cc
equal→eq (x ∷ xs) (y ∷ ys) h = ground (arith, equal→eq xs ys)

-- `while (xs.length < n) xs.push(0)`
abbrev pub pad_to : ℕ → Bytes → Bytes
pad_to n xs = xs ++ replicate (n - length xs) 0

pub AllBytes-at : (i : ℕ) (xs : Bytes) → AllBytes xs → byte_at xs i < 256
AllBytes-at i [] b = omega arith
AllBytes-at zero (x ∷ xs) b = b.0
AllBytes-at (suc i) (x ∷ xs) b = AllBytes-at i xs b.1

pub AllBytes-set : (i v : ℕ) (xs : Bytes) → v < 256 → AllBytes xs → AllBytes (set xs i v)
AllBytes-set i v [] h b = tt
AllBytes-set zero v (x ∷ xs) h b = (h, b.1)
AllBytes-set (suc i) v (x ∷ xs) h b = (b.0, AllBytes-set i v xs h b.1)

pub AllBytes-take : (n : ℕ) (xs : Bytes) → AllBytes xs → AllBytes (take n xs)
AllBytes-take zero xs b = tt
AllBytes-take (suc n) [] b = tt
AllBytes-take (suc n) (x ∷ xs) b = (b.0, AllBytes-take n xs b.1)

pub AllBytes-drop : (n : ℕ) (xs : Bytes) → AllBytes xs → AllBytes (drop n xs)
AllBytes-drop zero xs b = b
AllBytes-drop (suc n) [] b = tt
AllBytes-drop (suc n) (x ∷ xs) b = AllBytes-drop n xs b.1

pub AllBytes-append : (xs ys : Bytes) → AllBytes xs → AllBytes ys → AllBytes (xs ++ ys)
AllBytes-append [] ys b c = c
AllBytes-append (x ∷ xs) ys b c = (b.0, AllBytes-append xs ys b.1 c)

pub AllBytes-replicate : (n : ℕ) → AllBytes (replicate n 0)
AllBytes-replicate zero = tt
AllBytes-replicate (suc n) = (omega arith, AllBytes-replicate n)

-- A test holds of each number under a bound; for a byte it is tried at all 256.
unfoldable pub holds_below : (ℕ → Bool) → ℕ → Bool
holds_below test zero = true
holds_below test (suc k) = holds_below test k && test k

pub holds_below-at :
    (test : ℕ → Bool) (bound b : ℕ) → b < bound → holds_below test bound ≡ true → test b ≡ true
unfolding holds_below
holds_below-at test zero b small h = absurd (omega arith)
holds_below-at test (suc k) b small h = ground (arith, holds_below-at test k b)

abbrev toggles : ℕ → Bool
toggles x = bit_xor x 1 == x + 1 || bit_xor x 1 + 1 == x

flip_table : holds_below toggles 256 ≡ true
unfolding holds_below
flip_table = refl

-- `x ^ 1` is the neighbour of a byte.
pub bit_xor-one : (x : ℕ) → x < 256 → (bit_xor x 1 ≡ x + 1) ⊎ (bit_xor x 1 + 1 ≡ x)
bit_xor-one x h = ground (arith, holds_below-at toggles 256 x h flip_table)

xor_byte_table : holds_below (λ x. ltb (bit_xor x 1) 256) 256 ≡ true
unfolding holds_below
xor_byte_table = refl

pub bit_xor-one-lt : (x : ℕ) → x < 256 → bit_xor x 1 < 256
bit_xor-one-lt x h =
    ltb→lt (bit_xor x 1) 256 (holds_below-at (λ x. ltb (bit_xor x 1) 256) 256 x h xor_byte_table)

-- A number that may be below 0: `negsuc n` is -(n + 1).
pub data ℤ : Type 0 where
  pos negsuc : ℕ → ℤ

-- The low 16 bits of `n + z`, as `>> 8` and `& 255` take them.
abbrev pub word_plus : ℕ → ℤ → ℕ
word_plus n (pos m) = (n + m) % 65536
word_plus n (negsuc m) = (n + (65535 - m % 65536)) % 65536

abbrev pub is_zero : ℤ → Bool
is_zero (pos m) = m == 0
is_zero (negsuc m) = false
