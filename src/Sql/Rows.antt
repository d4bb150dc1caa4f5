-- ===== src/Sql/Rows.antt =====
-- A result of one row is known exactly, whatever the order of rows.
use mathlib.Core.List.{Perm, Permᴰ}
use mathlib.Core.List.Perm
use mathlib.Core.Logic.{∥∥₁_elim}
use chatroom_server.Prelude.{◌≡◌, refl, List, [], ◌∷◌, arith}
use chatroom_server.Sql.{Row}

module _ {ℓ} {A : Type ℓ} where
  Permᴰ-empty : {xs ys : List A} → Permᴰ xs ys → ys ≡ [] → xs ≡ []
  Permᴰ-empty Permᴰ.nil e = refl
  Permᴰ-empty (Permᴰ.cons h p) e = cc
  Permᴰ-empty (Permᴰ.swap h k) e = cc
  Permᴰ-empty (Permᴰ.trans p q) e = Permᴰ-empty p (Permᴰ-empty q e)

  Permᴰ-single : {xs ys : List A} (a : A) → Permᴰ xs ys → ys ≡ a ∷ [] → xs ≡ a ∷ []
  Permᴰ-single a Permᴰ.nil e = cc
  Permᴰ-single a (Permᴰ.cons h p) e = ground (arith, Permᴰ-empty p)
  Permᴰ-single a (Permᴰ.swap h k) e = ground arith
  Permᴰ-single a (Permᴰ.trans p q) e = Permᴰ-single a p (Permᴰ-single a q e)

pub Row-set : IsSet Row
Row-set = hlevel

pub rows-IsSet : IsSet (List Row)
rows-IsSet = hlevel

pub perm-single : (rows : List Row) (r : Row) → Perm rows (r ∷ []) → rows ≡ r ∷ []
perm-single rows r p = ∥∥₁_elim p (rows-IsSet _ _) (λ q. Permᴰ-single r q refl)

pub perm-empty : (rows : List Row) → Perm rows [] → rows ≡ []
perm-empty rows p = Perm.eq-nil p
