-- ===== src/Utils/LogNames.antt =====
-- The times that Logger (src/utils/logger.cpp) writes: `getCurrentTime` and the file names of
-- `getNewLogFilePath`, which also creates the directory. The fields of `std::tm` are not negative.
use chatroom_server.Prelude.{
  ℕ, zero, suc, ◌+◌, ◌-◌, ◌%◌, ◌<◌, ◌≤◌, ◌≡◌, ◌≢◌, ◌++◌, ◌∙◌, ap, refl, sym, Bytes, bytes, decimal,
  length, take, [], ◌∷◌, Option, none, some, read_digits, read_digits-decimal, length-decimal,
  append-nil, arith,
}

-- `std::tm`
pub record Tm : Type 0 where
  pub tm_year : ℕ
  pub tm_mon : ℕ
  pub tm_mday : ℕ
  pub tm_hour : ℕ
  pub tm_min : ℕ
  pub tm_sec : ℕ

unfoldable pub zeros : ℕ → Bytes → Bytes
zeros zero s = s
zeros (suc n) s = b'0' ∷ zeros n s

-- `%0wd`, and `std::setw(w)` with `std::setfill('0')`.
unfoldable pub padded : ℕ → ℕ → Bytes
padded width n = zeros (width - length (decimal n)) (decimal n)

-- `localtime_r` fails with `none`. The buffer has 32 bytes.
unfoldable pub get_current_time : ℕ → Option Tm → Bytes
get_current_time now_ms none = []
get_current_time now_ms (some tm) = take 31 (
    padded 4 (tm.tm_year + 1900)
    ++ bytes "-"
    ++ padded 2 (tm.tm_mon + 1)
    ++ bytes "-"
    ++ padded 2 tm.tm_mday
    ++ bytes " "
    ++ padded 2 tm.tm_hour
    ++ bytes ":"
    ++ padded 2 tm.tm_min
    ++ bytes ":"
    ++ padded 2 tm.tm_sec
    ++ bytes "."
    ++ padded 3 (now_ms % 1000))

unfoldable pub get_new_log_file_path : Bytes → Tm → Bytes
get_new_log_file_path log_file_path tm =
    log_file_path
    ++ (bytes "/chatroom_"
        ++ (padded 4 (tm.tm_year + 1900)
            ++ (padded 2 (tm.tm_mon + 1)
                ++ (padded 2 tm.tm_mday
                    ++ (bytes "_"
                        ++ (padded 2 tm.tm_hour
                            ++ (padded 2 tm.tm_min ++ (padded 2 tm.tm_sec ++ bytes ".log"))))))))

-- Fields of four and of two digits.
pub record IsTm (tm : Tm) : Type 0 where
  pub year : tm.tm_year + 1900 < 10_000
  pub mon : tm.tm_mon < 12
  pub mday : tm.tm_mday < 32
  pub hour : tm.tm_hour < 24
  pub min : tm.tm_min < 60
  pub sec : tm.tm_sec < 61

length-zeros : (n : ℕ) (s : Bytes) → length (zeros n s) ≡ n + length s
unfolding zeros
length-zeros zero s = omega arith
length-zeros (suc n) s = omega (arith, length-zeros n s)

length-padded : (w n : ℕ) → length (decimal n) ≤ w → length (padded w n) ≡ w
unfolding padded
length-padded w n h = omega (arith, h, length-zeros (w - length (decimal n)) (decimal n))

read_digits-zeros : (n : ℕ) (s : Bytes) → read_digits 0 (zeros n s) ≡ read_digits 0 s
unfolding zeros read_digits
read_digits-zeros zero s = refl
read_digits-zeros (suc n) s = read_digits-zeros n s

read_digits-padded : (w n : ℕ) → read_digits 0 (padded w n) ≡ (n, [])
unfolding padded
read_digits-padded w n =
    read_digits-zeros (w - length (decimal n)) (decimal n)
    ∙ ap (read_digits 0) (sym (append-nil (decimal n)))
    ∙ read_digits-decimal n [] tt

append-cancel : (a b x y : Bytes) → length a ≡ length b → a ++ x ≡ b ++ y → (a ≡ b) × (x ≡ y)
append-cancel [] [] x y l e = (refl, e)
append-cancel [] (d ∷ b) x y l e = ground (arith, l)
append-cancel (c ∷ a) [] x y l e = ground (arith, l)
append-cancel (c ∷ a) (d ∷ b) x y l e = ground (arith, append-cancel a b x y, l, e)

-- A field of this width in front of two texts.
padded-cancel :
    (w n m : ℕ) (x y : Bytes)
    → length (decimal n) ≤ w
    → length (decimal m) ≤ w
    → padded w n ++ x ≡ padded w m ++ y
    → (n ≡ m) × (x ≡ y)
padded-cancel w n m x y hn hm e =
    let (same, rest) =
      append-cancel (padded w n) (padded w m) x y
        (length-padded w n hn ∙ sym (length-padded w m hm)) e in
    (
      ap (λ p. p.0)
          (sym (read_digits-padded w n) ∙ ap (read_digits 0) same ∙ read_digits-padded w m),
      rest,
    )

two-cancel :
    (n m : ℕ) (x y : Bytes)
    → n < 100
    → m < 100
    → padded 2 n ++ x ≡ padded 2 m ++ y
    → (n ≡ m) × (x ≡ y)
two-cancel n m x y hn hm e =
    padded-cancel 2 n m x y ((length-decimal n).0 hn) ((length-decimal m).0 hm) e

get_new_log_file_path_inj :
    (dir : Bytes) (tm tm' : Tm)
    → IsTm tm
    → IsTm tm'
    → get_new_log_file_path dir tm ≡ get_new_log_file_path dir tm'
    → tm ≡ tm'
unfolding get_new_log_file_path
get_new_log_file_path_inj dir tm tm' h h' e =
    let (_, e1) = append-cancel dir dir _ _ refl e in
    let (_, e2) = append-cancel (bytes "/chatroom_") (bytes "/chatroom_") _ _ refl e1 in
    let (year, e3) =
      padded-cancel 4 (tm.tm_year + 1900) (tm'.tm_year + 1900) _ _
        ((length-decimal (tm.tm_year + 1900)).1.1 h.year)
        ((length-decimal (tm'.tm_year + 1900)).1.1 h'.year) e2 in
    let (mon, e4) =
      two-cancel (tm.tm_mon + 1) (tm'.tm_mon + 1) _ _ (omega (arith, h.mon)) (omega (arith, h'.mon))
        e3 in
    let (mday, e5) =
      two-cancel tm.tm_mday tm'.tm_mday _ _ (omega (arith, h.mday)) (omega (arith, h'.mday)) e4 in
    let (_, e6) = append-cancel (bytes "_") (bytes "_") _ _ refl e5 in
    let (hour, e7) =
      two-cancel tm.tm_hour tm'.tm_hour _ _ (omega (arith, h.hour)) (omega (arith, h'.hour)) e6 in
    let (min, e8) =
      two-cancel tm.tm_min tm'.tm_min _ _ (omega (arith, h.min)) (omega (arith, h'.min)) e7 in
    let (sec, _) =
      two-cancel tm.tm_sec tm'.tm_sec _ _ (omega (arith, h.sec)) (omega (arith, h'.sec)) e8 in
    ground (arith, year, mon, mday, hour, min, sec)

-- In the same directory, log files that are named at different times, to the second, have different
-- names. The year has at most four digits.
pub get_new_log_file_path_distinct :
    (dir : Bytes) (tm tm' : Tm)
    → IsTm tm
    → IsTm tm'
    → tm ≢ tm'
    → get_new_log_file_path dir tm ≢ get_new_log_file_path dir tm'
get_new_log_file_path_distinct dir tm tm' h h' ne e =
    ne (get_new_log_file_path_inj dir tm tm' h h' e)
