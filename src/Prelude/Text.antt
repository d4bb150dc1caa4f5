-- ===== src/Prelude/Text.antt =====
-- `std::string` as a list of bytes, with comparison and splitting.
use Prim.Native.Char.{code}
use Prim.Native.Nat.{ℕ}
use Prim.Native.String.{String}
use mathlib.Core.Bool.{Bool, true, false, not, ◌&&◌}
use mathlib.Core.List.{List, [], ◌∷◌, ◌++◌}
use mathlib.Core.Logic.{◌↔◌, ◌≢◌}
use mathlib.Core.Path.{◌≡◌, refl}
use native.Mathlib.Omega.{arith}
use chatroom_server.Prelude.Tests.{◌==◌, if◌then◌else◌}

abbrev pub Bytes : Type 0
Bytes = List ℕ

-- The bytes of an ASCII literal.
unfoldable pub bytes : String → Bytes
bytes String.[] = []
bytes (String.◌∷◌ c s) = code c ∷ bytes s

unfoldable pub bytes_eq : Bytes → Bytes → Bool
bytes_eq [] [] = true
bytes_eq (x ∷ xs) (y ∷ ys) = (x == y) && bytes_eq xs ys
bytes_eq _ _ = false

pub bytes_eq_iff : (xs ys : Bytes) → (bytes_eq xs ys ≡ true) ↔ (xs ≡ ys)
unfolding bytes_eq
bytes_eq_iff [] [] = ground arith
bytes_eq_iff [] (y ∷ ys) = ground arith
bytes_eq_iff (x ∷ xs) [] = ground arith
bytes_eq_iff (x ∷ xs) (y ∷ ys) = ground (arith, bytes_eq_iff xs ys)

pub bytes_eq_refl : (xs : Bytes) → bytes_eq xs xs ≡ true
bytes_eq_refl xs = (bytes_eq_iff xs xs).1 refl

-- No byte of the text is `q`.
unfoldable pub lacks : ℕ → Bytes → Bool
lacks q [] = true
lacks q (x ∷ xs) = not (x == q) && lacks q xs

abbrev pub Lacks : ℕ → Bytes → Type 0
Lacks q xs = lacks q xs ≡ true

pub lacks-append : (q : ℕ) (xs ys : Bytes) → lacks q (xs ++ ys) ≡ lacks q xs && lacks q ys
unfolding lacks
lacks-append q [] ys = refl
lacks-append q (x ∷ xs) ys = ground (arith, lacks-append q xs ys)

Lacks-cons : (q x : ℕ) (xs : Bytes) → Lacks q (x ∷ xs) → (x ≢ q) × Lacks q xs
unfolding lacks
Lacks-cons q x xs h = (ground arith, ground arith)

pub cons-Lacks : (q x : ℕ) (xs : Bytes) → x ≢ q → Lacks q xs → Lacks q (x ∷ xs)
unfolding lacks
cons-Lacks q x xs ne h = ground arith

pub append-Lacks : (q : ℕ) (xs ys : Bytes) → Lacks q xs → Lacks q ys → Lacks q (xs ++ ys)
append-Lacks q [] ys hx hy = hy
append-Lacks q (x ∷ xs) ys hx hy =
    let (ne, hs) = Lacks-cons q x xs hx in cons-Lacks q x (xs ++ ys) ne (append-Lacks q xs ys hs hy)

-- The pieces of a text between the bytes `q`.
unfoldable pub split_on : ℕ → Bytes → List Bytes
split_on q [] = [] ∷ []
split_on q (x ∷ xs) = elim (split_on q xs) [
  | [] ↦ []
  | w ∷ ws ↦ if x == q then [] ∷ w ∷ ws else (x ∷ w) ∷ ws
]

split_on-ne-nil : (q : ℕ) (xs : Bytes) → split_on q xs ≢ []
unfolding split_on
split_on-ne-nil q [] = ground arith
split_on-ne-nil q (x ∷ xs) = ground (arith, split_on-ne-nil q xs)

pub split_on-cons : (q : ℕ) (xs : Bytes) → split_on q (q ∷ xs) ≡ [] ∷ split_on q xs
unfolding split_on
split_on-cons q xs = ground (arith, split_on-ne-nil q xs)

split_on-skip :
    (q x : ℕ) (xs w : Bytes) (ws : List Bytes)
    → x ≢ q
    → split_on q xs ≡ w ∷ ws
    → split_on q (x ∷ xs) ≡ (x ∷ w) ∷ ws
unfolding split_on
split_on-skip q x xs w ws h e = ground arith

pub split_on-append :
    (q : ℕ) (w xs : Bytes) → Lacks q w → split_on q (w ++ q ∷ xs) ≡ w ∷ split_on q xs
split_on-append q [] xs h = split_on-cons q xs
split_on-append q (x ∷ w) xs h =
    let (ne, hs) = Lacks-cons q x w h in
    split_on-skip q x (w ++ q ∷ xs) w (split_on q xs) ne (split_on-append q w xs hs)

pub split_on-last : (q : ℕ) (w : Bytes) → Lacks q w → split_on q w ≡ w ∷ []
unfolding split_on
split_on-last q [] h = refl
split_on-last q (x ∷ w) h =
    let (ne, hs) = Lacks-cons q x w h in ground (arith, split_on-last q w hs)

-- What a C function sees of a string: its bytes before the first NUL.
unfoldable pub c_str : Bytes → Bytes
c_str [] = []
c_str (x ∷ xs) = if x == 0 then [] else x ∷ c_str xs

pub c_str_lem : (xs : Bytes) → Lacks 0 xs → c_str xs ≡ xs
unfolding c_str
c_str_lem [] h = refl
c_str_lem (x ∷ xs) h = let (ne, hs) = Lacks-cons 0 x xs h in ground (arith, c_str_lem xs hs)
