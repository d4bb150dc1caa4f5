-- ===== src/Reactor/Fds.antt =====
-- Maps and vectors of file descriptors, the native numbers: `std::unordered_map<int, V>` and
-- `std::vector<int>`.
use chatroom_server.Prelude.{
  ℕ, ◌+◌, ◌≡◌, ◌++◌, refl, List, [], ◌∷◌, Option, none, some, if◌then◌else◌, ◌==◌, arith,
}

module _ {ℓ} {V : Type ℓ} where
  -- `m.find(k)`
  unfoldable pub get : ℕ → List (ℕ × V) → Option V
  get k [] = none
  get k ((j, v) ∷ m) = if j == k then some v else get k m

  -- `m[k] = v`
  unfoldable pub put : ℕ → V → List (ℕ × V) → List (ℕ × V)
  put k v [] = (k, v) ∷ []
  put k v ((j, w) ∷ m) = if j == k then (k, v) ∷ m else (j, w) ∷ put k v m

  -- `m.erase(k)`
  unfoldable pub erase : ℕ → List (ℕ × V) → List (ℕ × V)
  erase k [] = []
  erase k ((j, w) ∷ m) = let rest = erase k m in if j == k then rest else (j, w) ∷ rest

  pub get-put :
      (k j : ℕ) (v : V) (m : List (ℕ × V))
      → get j (put k v m) ≡ (if k == j then some v else get j m)
  unfolding get put
  get-put k j v [] = refl
  get-put k j v ((i, w) ∷ m) = ground (arith, get-put k j v m)

  pub get-erase :
      (k j : ℕ) (m : List (ℕ × V)) → get j (erase k m) ≡ (if k == j then none else get j m)
  unfolding get erase
  get-erase k j [] = ground arith
  get-erase k j ((i, w) ∷ m) = ground (arith, get-erase k j m)

  -- One for a key that is there.
  abbrev pub found : Option V → ℕ
  found none = 0
  found (some v) = 1

unfoldable pub count : ℕ → List ℕ → ℕ
count x [] = 0
count x (y ∷ ys) = (if y == x then 1 else 0) + count x ys

pub count-append :
    (x y : ℕ) (xs : List ℕ) → count x (xs ++ y ∷ []) ≡ (if y == x then 1 else 0) + count x xs
unfolding count
count-append x y [] = refl
count-append x y (z ∷ zs) = ground (arith, count-append x y zs)
