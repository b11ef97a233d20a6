-- ===== src/Discover/Names.antt =====
-- The name of a node, written and read (crates/usb-freebsd/src/discover.rs).
use bsdroid.Base.{◌==◌, ==_iff, ==_refl, Bool-cases}
use bsdroid.Base.{
  ℕ, zero, suc, ◌<◌, ◌≡◌, refl, sym, ap, subst, inl, inr, Bool, true, false, not, ◌&&◌, Option,
  none, some, List, [], ◌∷◌, ◌++◌, arith,
}
use bsdroid.Base.Decimal.{digits, decimal}
use bsdroid.Session.Env.{decimal_digit, parse_radix}
use bsdroid.Discover.{
  node, unwrap_or, split_once, strip_prefix, dev, ugen, parse_node, parse_selector, node_name,
}

-- The character is not in the text.
abbrev lacks : ℕ → List ℕ → Bool
lacks c [] = true
lacks c (x ∷ xs) = not (x == c) && lacks c xs

and_left : (a b : Bool) → (a && b) ≡ true → a ≡ true
and_left true b e = refl
and_left false b e = e

and_right : (a b : Bool) → (a && b) ≡ true → b ≡ true
and_right true b e = e
and_right false b e = absurd cc

opposite : (b : Bool) → not b ≡ true → b ≡ false
opposite true e = absurd cc
opposite false e = refl

split_once-lacks :
    (c : ℕ) (xs ys : List ℕ) → lacks c xs ≡ true → split_once c (xs ++ c ∷ ys) ≡ some (xs, ys)
unfolding split_once
split_once-lacks c [] ys e = rw (==_refl c) refl
split_once-lacks c (x ∷ xs) ys e =
    let other = opposite (x == c) (and_left _ _ e) in
    rw (split_once, other, split_once-lacks c xs ys (and_right (not (x == c)) _ e)) refl

split_once-none : (c : ℕ) (xs : List ℕ) → lacks c xs ≡ true → split_once c xs ≡ none
unfolding split_once
split_once-none c [] e = refl
split_once-none c (x ∷ xs) e =
    let other = opposite (x == c) (and_left _ _ e) in
    rw (split_once, other, split_once-none c xs (and_right (not (x == c)) _ e)) refl

lacks-append :
    (c : ℕ) (xs ys : List ℕ) → lacks c xs ≡ true → lacks c ys ≡ true → lacks c (xs ++ ys) ≡ true
lacks-append c [] ys ex ey = ey
lacks-append c (x ∷ xs) ys ex ey =
    rw (and_left (not (x == c)) _ ex, lacks-append c xs ys (and_right (not (x == c)) _ ex) ey) refl

-- The text of a number reads as that number, and holds neither a dot nor a colon.
unfoldable is_read : ℕ → Bool
unfolding parse_radix digits
is_read n =
    elim (parse_radix decimal_digit 10 256 (decimal n)) [ none ↦ false | some m ↦ m == n ]
    && (lacks b'.' (decimal n) && lacks b':' (decimal n))

unfoldable all_below : ℕ → (ℕ → Bool) → Bool
all_below zero test = true
all_below (suc n) test = test n && all_below n test

all_below-at : (n k : ℕ) (test : ℕ → Bool) → all_below n test ≡ true → k < n → test k ≡ true
unfolding all_below
all_below-at zero k test e lt = absurd (omega (arith, lt))
all_below-at (suc n) k test e lt = elim (Bool-cases (k == n)) [
  | inl here ↦ subst (λ x. test x ≡ true) (sym ((==_iff k n).0 here)) (and_left (test n) _ e)
  | inr below ↦ all_below-at n k test (and_right (test n) _ e) (ground (arith, below, lt))
]

bytes_are_read : all_below 256 is_read ≡ true
unfolding all_below is_read
bytes_are_read = refl

read_back :
    (n : ℕ)
    → n < 256
    → (parse_radix decimal_digit 10 256 (decimal n) ≡ some n)
      × (lacks b'.' (decimal n) ≡ true)
      × (lacks b':' (decimal n) ≡ true)
unfolding is_read
read_back n lt =
    let e = all_below-at 256 n is_read bytes_are_read lt in
    let rest = and_right _ _ e in
    (
      number (parse_radix decimal_digit 10 256 (decimal n)) (and_left _ _ e),
      and_left _ _ rest,
      and_right (lacks b'.' (decimal n)) _ rest,
    )
  where
    number :
        (o : Option ℕ)
        → elim o as (λ x. Bool) [ none ↦ false | some m ↦ m == n ] ≡ true
        → o ≡ some n
    number none e = absurd cc
    number (some m) e = ap some ((==_iff m n).0 e)

parse_node-numbers :
    (s t a b : List ℕ) (n m : ℕ)
    → strip_prefix ugen (unwrap_or (strip_prefix dev s) s) ≡ some t
    → split_once b'.' t ≡ some (a, b)
    → parse_radix decimal_digit 10 256 a ≡ some n
    → parse_radix decimal_digit 10 256 b ≡ some m
    → parse_node s ≡ some (n, m)
unfolding parse_node
parse_node-numbers s t a b n m start parts first second =
    rw (parse_node, start, parts, first, second) refl

parse_selector-node :
    (s : List ℕ) (n m : ℕ)
    → split_once b':' s ≡ none
    → parse_node s ≡ some (n, m)
    → parse_selector s ≡ some (node n m)
unfolding parse_selector
parse_selector-node s n m plain reads = rw (parse_selector, plain, reads) refl

-- The name that a device is listed under selects that device: read back, alone or behind `/dev/`, it gives the bus and the address that it was written from.
pub parse_selector-node_name :
    (bus address : ℕ)
    → bus < 256
    → address < 256
    → (parse_selector (node_name bus address) ≡ some (node bus address))
      × (parse_selector (dev ++ node_name bus address) ≡ some (node bus address))
unfolding node_name
parse_selector-node_name bus address small_bus small_address =
    let (bus_is, bus_dot, bus_colon) = read_back bus small_bus in
    let (address_is, address_dot, address_colon) = read_back address small_address in
    let numbers = decimal bus ++ b'.' ∷ decimal address in
    let no_colon : lacks b':' numbers ≡ true =
      lacks-append b':' (decimal bus) (b'.' ∷ decimal address) bus_colon address_colon in
    let parts = split_once-lacks b'.' (decimal bus) (decimal address) bus_dot in
    let alone : strip_prefix ugen (unwrap_or (strip_prefix dev (ugen ++ numbers)) (ugen ++ numbers))
        ≡ some numbers =
      unfold strip_prefix in refl in
    let behind : strip_prefix ugen
          (unwrap_or (strip_prefix dev (dev ++ ugen ++ numbers)) (dev ++ ugen ++ numbers))
        ≡ some numbers =
      unfold strip_prefix in refl in
    (
      parse_selector-node (ugen ++ numbers) bus address
          (split_once-none b':' (ugen ++ numbers) no_colon)
          (parse_node-numbers (ugen ++ numbers) numbers _ _ bus address alone parts bus_is
            address_is),
      parse_selector-node (dev ++ ugen ++ numbers) bus address
          (split_once-none b':' (dev ++ ugen ++ numbers) no_colon)
          (parse_node-numbers (dev ++ ugen ++ numbers) numbers _ _ bus address behind parts bus_is
            address_is),
    )
