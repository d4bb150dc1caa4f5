-- ===== src/Prelude/Decimal.antt =====
-- Decimal notation: `std::to_string`, and how digits are read.
use Prim.Native.Nat.{ℕ, zero, suc, ◌+◌, ◌*◌, ◌/◌, ◌%◌, ◌-◌, ◌≤◌, ◌<◌}
use mathlib.Core.Bool.{Bool, true, false, ◌&&◌}
use mathlib.Core.List.{[], ◌∷◌, ◌++◌}
use mathlib.Core.Path.{◌≡◌, refl, ap, ◌∙◌}
use native.Mathlib.Omega.{arith}
use chatroom_server.Prelude.Lists.{length}
use chatroom_server.Prelude.Tests.{if◌then◌else◌, ltb, leb}
use chatroom_server.Prelude.Text.{Bytes, lacks, Lacks}

abbrev pub is_digit : ℕ → Bool
is_digit c = leb b'0' c && leb c b'9'

-- Decimal notation: the loop of `std::to_string`, on fuel.
decimal_from : ℕ → ℕ → Bytes → Bytes
decimal_from zero n acc = acc
decimal_from (suc f) n acc =
    let more = decimal_from f (n / 10) ((b'0' + n % 10) ∷ acc) in
    if ltb n 10 then (b'0' + n) ∷ acc else more

unfoldable pub decimal : ℕ → Bytes
unfolding decimal_from
decimal n = decimal_from (suc n) n []

-- Reads digits, most significant first, and returns the rest of the text.
unfoldable pub read_digits : ℕ → Bytes → ℕ × Bytes
read_digits acc [] = (acc, [])
read_digits acc (c ∷ cs) =
    let more = read_digits (acc * 10 + (c - b'0')) cs in if is_digit c then more else (acc, c ∷ cs)

read_digits-digit :
    (acc d : ℕ) (cs : Bytes)
    → d < 10
    → read_digits acc ((b'0' + d) ∷ cs) ≡ read_digits (acc * 10 + d) cs
unfolding read_digits
read_digits-digit acc d cs h = let e : b'0' + d - b'0' ≡ d = omega arith in rw e (ground arith)

-- Reading back what the loop wrote gives the number, from accumulator 0.
read_digits-decimal_from :
    (f n : ℕ) (acc : Bytes) → n < f → read_digits 0 (decimal_from f n acc) ≡ read_digits n acc
unfolding decimal_from
read_digits-decimal_from zero n acc h = elim h [ ]
read_digits-decimal_from (suc f) n acc h = ground (
  arith,
  read_digits-digit 0 n acc,
  read_digits-digit (n / 10) (n % 10) acc,
  read_digits-decimal_from f (n / 10) ((b'0' + n % 10) ∷ acc),
)

-- The text starts with no digit.
abbrev pub NoDigit : Bytes → Type 0
NoDigit [] = Unit
NoDigit (c ∷ cs) = is_digit c ≡ false

read_digits-stop : (n : ℕ) (cs : Bytes) → NoDigit cs → read_digits n cs ≡ (n, cs)
unfolding read_digits
read_digits-stop n [] h = refl
read_digits-stop n (c ∷ cs) h = ground arith

decimal_from-append :
    (f n : ℕ) (acc rest : Bytes) → decimal_from f n acc ++ rest ≡ decimal_from f n (acc ++ rest)
unfolding decimal_from
decimal_from-append zero n acc rest = refl
decimal_from-append (suc f) n acc rest =
    ground (arith, decimal_from-append f (n / 10) ((b'0' + n % 10) ∷ acc) rest)

pub read_digits-decimal :
    (n : ℕ) (rest : Bytes) → NoDigit rest → read_digits 0 (decimal n ++ rest) ≡ (n, rest)
unfolding decimal
read_digits-decimal n rest h =
    ap (read_digits 0) (decimal_from-append (suc n) n [] rest)
    ∙ read_digits-decimal_from (suc n) n rest (omega arith)
    ∙ read_digits-stop n rest h

decimal_from-Lacks :
    (q f n : ℕ) (acc : Bytes) → is_digit q ≡ false → Lacks q acc → Lacks q (decimal_from f n acc)
unfolding decimal_from lacks
decimal_from-Lacks q zero n acc h l = l
decimal_from-Lacks q (suc f) n acc h l =
    ground (arith, decimal_from-Lacks q f (n / 10) ((b'0' + n % 10) ∷ acc) h)

pub decimal-Lacks : (q n : ℕ) → is_digit q ≡ false → Lacks q (decimal n)
unfolding decimal lacks
decimal-Lacks q n h = decimal_from-Lacks q (suc n) n [] h refl

-- The text starts with a digit.
abbrev pub starts_with_digit : Bytes → Bool
starts_with_digit [] = false
starts_with_digit (c ∷ cs) = is_digit c

decimal_from-digit :
    (f n : ℕ) (acc : Bytes) → n < f → starts_with_digit (decimal_from f n acc) ≡ true
unfolding decimal_from
decimal_from-digit zero n acc h = elim h [ ]
decimal_from-digit (suc f) n acc h =
    ground (arith, decimal_from-digit f (n / 10) ((b'0' + n % 10) ∷ acc))

pub decimal-digit : (n : ℕ) → starts_with_digit (decimal n) ≡ true
unfolding decimal
decimal-digit n = decimal_from-digit (suc n) n [] (omega arith)

-- How long decimal notation is: one digit more for ten times the bound.
abbrev Short : ℕ → ℕ → Type 0
Short bound width =
    (f n : ℕ) (acc : Bytes) → n < f → n < bound → length (decimal_from f n acc) ≤ width + length acc

Short-one : Short 10 1
unfolding decimal_from
Short-one zero n acc h b = elim h [ ]
Short-one (suc f) n acc h b = ground arith

Short-more : (bound width : ℕ) → Short bound width → Short (10 * bound) (suc width)
unfolding decimal_from
Short-more bound width short zero n acc h b = elim h [ ]
Short-more bound width short (suc f) n acc h b =
    ground (arith, short f (n / 10) ((b'0' + n % 10) ∷ acc))

pub length-decimal :
    (n : ℕ)
    → (n < 100 → length (decimal n) ≤ 2)
      × ((n < 1000 → length (decimal n) ≤ 3) × (n < 10_000 → length (decimal n) ≤ 4))
unfolding decimal
length-decimal n =
    let two = Short-more 10 1 Short-one in
    let three = Short-more 100 2 two in
    let four = Short-more 1000 3 three in
    (
      λ h. omega (arith, two (suc n) n [] (omega arith) h),
      (
        λ h. omega (arith, three (suc n) n [] (omega arith) h),
        λ h. omega (arith, four (suc n) n [] (omega arith) h),
      ),
    )
