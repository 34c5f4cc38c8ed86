-- ===== src/Wire/Length.antt =====
-- The length prefix, and exact reads, of Wire.
use emacs_tramp_rpc.Prelude.{
  ℕ, ◌^◌, ◌≤◌, ◌<◌, ◌≡◌, refl, arith, List, ◌++◌, none, some, length, take, drop, length-append,
  take-length-append, drop-length-append,
}
use emacs_tramp_rpc.Wire.{to_be_bytes, from_be_bytes, read_exact}

pub from_be_bytes-to_be_bytes : (n : ℕ) → n < 2 ^ 32 → from_be_bytes (to_be_bytes n) ≡ n
unfolding from_be_bytes to_be_bytes
from_be_bytes-to_be_bytes n h = omega arith

pub length-to_be_bytes : (n : ℕ) → length (to_be_bytes n) ≡ 4
unfolding to_be_bytes
length-to_be_bytes n = refl

-- Bytes that are there are read, and the rest is left.
pub read_exact-append :
    (n : ℕ) (xs ys : List ℕ) → length xs ≡ n → read_exact n (xs ++ ys) ≡ some (xs, ys)
unfolding read_exact
read_exact-append n xs ys e =
    rw (← e)
      (ground (arith, length-append xs ys, take-length-append xs ys, drop-length-append xs ys))

pub read_exact_short : (n : ℕ) (xs : List ℕ) → length xs < n → read_exact n xs ≡ none
unfolding read_exact
read_exact_short n xs h = ground arith

pub read_exact_long :
    (n : ℕ) (xs : List ℕ) → n ≤ length xs → read_exact n xs ≡ some (take n xs, drop n xs)
unfolding read_exact
read_exact_long n xs h = ground arith
