-- ===== src/Utils/Counting.antt =====
-- How many elements pass a test: of a list, and of a family by number.
use chatroom_server.Prelude.{
  ℕ, zero, suc, ◌+◌, ◌≤◌, ◌<◌, ◌≡◌, refl, Bool, Bool-cases, inl, inr, List, [], ◌∷◌, ◌++◌,
  if◌then◌else◌, ◌==◌, arith,
}

module _ {ℓ} {T : Type ℓ} where
  unfoldable pub count : (T → Bool) → List T → ℕ
  count p [] = 0
  count p (t ∷ ts) = (if p t then 1 else 0) + count p ts

  pub count-append : (p : T → Bool) (xs ys : List T) → count p (xs ++ ys) ≡ count p xs + count p ys
  unfolding count
  count-append p [] ys = omega arith
  count-append p (x ∷ xs) ys = omega (arith, count-append p xs ys)

abbrev pub update {ℓ} : {A : Type ℓ} → (ℕ → A) → ℕ → A → ℕ → A
update f i a j = if i == j then a else f j

module _ {ℓ} {A : Type ℓ} (w : A → ℕ) where
  -- The sum over the first `n` of a family.
  unfoldable pub total : ℕ → (ℕ → A) → ℕ
  total zero f = 0
  total (suc n) f = w (f n) + total n f

  pub total-update_above :
      (n i : ℕ) (f : ℕ → A) (a : A) → n ≤ i → total n (update f i a) ≡ total n f
  unfolding total
  total-update_above zero i f a h = refl
  total-update_above (suc n) i f a h = ground (arith, total-update_above n i f a (omega arith))

  pub total-update :
      (n i : ℕ) (f : ℕ → A) (a : A) → i < n → total n (update f i a) + w (f i) ≡ w a + total n f
  unfolding total
  total-update zero i f a h = elim h [ ]
  total-update (suc n) i f a h = elim (Bool-cases (i == n)) [
    | inl y ↦ ground (arith, y, total-update_above n i f a (ground (arith, y)))
    | inr y ↦ ground (arith, y, total-update n i f a (ground (arith, y)))
  ]

  pub total-zero : (n : ℕ) (a : A) → w a ≡ 0 → total n (λ i. a) ≡ 0
  unfolding total
  total-zero zero a h = refl
  total-zero (suc n) a h = omega (arith, h, total-zero n a h)
