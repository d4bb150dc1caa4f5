-- ===== src/Http/Find.antt =====
-- `std::string::find` and what the code cuts out with it.
use chatroom_server.Prelude.{
  ℕ, ◌≡◌, ◌++◌, Bool, true, false, ◌&&◌, Bytes, Lacks, lacks, List, [], ◌∷◌, Option, none, some,
  if◌then◌else◌, ◌==◌, arith, refl,
}

unfoldable pub starts_with : Bytes → Bytes → Bool
starts_with [] s = true
starts_with (q ∷ qs) [] = false
starts_with (q ∷ qs) (x ∷ s) = (x == q) && starts_with qs s

abbrev pub skip : Bytes → Bytes → Bytes
skip [] s = s
skip (q ∷ qs) [] = []
skip (q ∷ qs) (x ∷ s) = skip qs s

abbrev pub before : ℕ → Option (Bytes × Bytes) → Option (Bytes × Bytes)
before x none = none
before x (some (w, rest)) = some (x ∷ w, rest)

-- The text before the first occurrence of the pattern and the text after it; `none` is `npos`.
unfoldable pub find : Bytes → Bytes → Option (Bytes × Bytes)
find pattern [] = none
find pattern (x ∷ s) =
    let later = find pattern s in
    if starts_with pattern (x ∷ s) then some ([], skip pattern (x ∷ s)) else before x later

-- The lines between the pairs CR LF.
abbrev pub extend : ℕ → List Bytes → List Bytes
extend x [] = (x ∷ []) ∷ []
extend x (w ∷ ws) = (x ∷ w) ∷ ws

unfoldable pub lines : Bytes → List Bytes
lines [] = [] ∷ []
lines (x ∷ []) = (x ∷ []) ∷ []
lines (x ∷ y ∷ s) =
    let next = lines s in
    let same = lines (y ∷ s) in if (x == 13) && (y == 10) then [] ∷ next else extend x same

abbrev pub blank_line : Bytes
blank_line = 13 ∷ 10 ∷ 13 ∷ 10 ∷ []

pub starts_with-append : (qs s : Bytes) → starts_with qs (qs ++ s) ≡ true
unfolding starts_with
starts_with-append [] s = refl
starts_with-append (q ∷ qs) s = ground (arith, starts_with-append qs s)

skip-append : (qs s : Bytes) → skip qs (qs ++ s) ≡ s
skip-append [] s = refl
skip-append (q ∷ qs) s = skip-append qs s

-- A text without the first byte of the pattern is all that stands before the pattern.
pub find-append :
    (q : ℕ) (qs w s : Bytes) → Lacks q w → find (q ∷ qs) (w ++ ((q ∷ qs) ++ s)) ≡ some (w, s)
unfolding find starts_with lacks
find-append q qs [] s h = ground (arith, starts_with-append qs s, skip-append qs s)
find-append q qs (x ∷ w) s h = ground (arith, find-append q qs w s)

pub find-none : (q : ℕ) (qs w : Bytes) → Lacks q w → find (q ∷ qs) w ≡ none
unfolding find starts_with lacks
find-none q qs [] h = refl
find-none q qs (x ∷ w) h = ground (arith, find-none q qs w)

pub lines-append : (w s : Bytes) → Lacks 13 w → lines (w ++ (13 ∷ 10 ∷ s)) ≡ w ∷ lines s
unfolding lines lacks
lines-append [] s h = refl
lines-append (x ∷ []) s h = ground (arith, lines-append [] s)
lines-append (x ∷ y ∷ w) s h = ground (arith, lines-append (y ∷ w) s)

pub lines-last : (w : Bytes) → Lacks 13 w → lines w ≡ w ∷ []
unfolding lines lacks
lines-last [] h = refl
lines-last (x ∷ []) h = refl
lines-last (x ∷ y ∷ w) h = ground (arith, lines-last (y ∷ w))
