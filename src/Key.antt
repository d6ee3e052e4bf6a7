-- ===== src/Key.antt =====
-- src/keyops.h: the key of an alphabet symbol.
--
-- A `Key` is a `long`. It is kept here as the number that is 2^63 above it, so that the order of
-- the keys is the order of the numbers and 0 stands for LONG_MIN. `increment` and `decrement`
-- wrap at the ends of the machine word.
use colm.Prelude.{ℕ, ◌+◌, ◌-◌, ◌%◌, ◌^◌, ◌≤◌, ◌<◌, ◌≡◌, arith}

abbrev pub key_mod : ℕ
key_mod = 2 ^ 64

-- the key 0
abbrev pub zero_key : ℕ
zero_key = 2 ^ 63

-- `Key::increment`
unfoldable pub increment : ℕ → ℕ
increment k = (k + 1) % key_mod

-- `Key::decrement`
unfoldable pub decrement : ℕ → ℕ
decrement k = (k + key_mod - 1) % key_mod

-- `KeyOps::span`, an unsigned long long
unfoldable pub span : ℕ → ℕ → ℕ
span low high = (high + key_mod - low + 1) % key_mod

pub increment-eq : (k l : ℕ) → k < l → l < key_mod → increment k ≡ k + 1
unfolding increment
increment-eq k l h b = omega arith

pub decrement-eq : (k l : ℕ) → l < k → k < key_mod → decrement k ≡ k - 1
unfolding decrement
decrement-eq k l h b = omega arith

-- The whole alphabet of 2^64 keys has span 0; every other range has its number of keys.
pub span-eq :
    (low high : ℕ)
    → low ≤ high
    → high < key_mod
    → high - low < key_mod - 1
    → span low high ≡ high - low + 1
unfolding span
span-eq low high h b w = omega arith

pub span_one : (low high : ℕ) → low ≤ high → high < key_mod → span low high ≡ 1 → low ≡ high
unfolding span
span_one low high h b s = omega arith
