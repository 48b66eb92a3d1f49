-- ===== src/Ztp/Time.antt =====
-- The times of apps/wifi-provisioner/src/ztp_manifest.c: RFC 3339 texts and seconds since 1970.
pub mod Calendar
pub mod NextDay
pub mod RoundTrip
use microcontroller_devices.Prelude.{ℕ, zero, suc, ◌+◌, ◌-◌, ◌*◌, ◌/◌, ◌%◌, ◌^◌, ◌≤◌, ◌<◌}
use microcontroller_devices.Prelude.{ltb, leb, ◌==◌, if◌then◌else◌, ltb→lt, lt→ltb, leb→le, ==_iff}
use microcontroller_devices.Prelude.{◌≡◌, ◌≢◌, refl, sym, ap, ap₂, ◌∙◌, arith, ◌⊎◌, inl, inr, ◌↔◌}
use microcontroller_devices.Prelude.{Bool, true, false, ◌&&◌, ◌||◌, not, Bool-cases, Option-cases}
use microcontroller_devices.Prelude.{
  Option, none, some, List, [], ◌∷◌, ◌++◌, append-nil, append_assoc,
}
use microcontroller_devices.Prelude.{reverse, length, length-append, take, drop, All, All-append}
use microcontroller_devices.Prelude.{get_elem?, get_or, set, length-set}
use microcontroller_devices.Prelude.Chain.{◌>>=◌, ◌>>◌, guard}
use microcontroller_devices.Prelude.{replicate}
use microcontroller_devices.Prelude.Int.{
  ℤ, pos, negsuc, ◌+ℤ◌, ◌-ℤ◌, ◌*ℤ◌, floor_div, floor_mod, pos_part, neg_part, ltb_ℤ,
}

-- The loop of `parse_uint`, behind the digits that made up `v`.
unfoldable pub scan_digits : ℕ → List ℕ → Option ℕ
scan_digits v [] = some v
scan_digits v (c ∷ cs) =
    let rest = scan_digits (v * 10 + (c - 48)) cs in if ltb c 48 || ltb 57 c then none else rest

-- `none` is -EINVAL.
unfoldable pub parse_uint : List ℕ → Option ℕ
parse_uint s = if length s == 0 || ltb 9 (length s) then none else scan_digits 0 s

-- `y` counts from a March: `(y >= 0 ? y : y - 399) / 400` is the quotient rounded down.
unfoldable pub days_from_civil : ℕ → ℕ → ℕ → ℤ
days_from_civil y m d =
    let march = pos y -ℤ (if leb m 2 then pos 1 else pos 0) in
    let era = floor_div march 400 in
    let yoe = floor_mod march 400 in
    let doy = (153 * (if ltb 2 m then m - 3 else m + 9) + 2) / 5 + d - 1 in
    let doe = yoe * 365 + yoe / 4 - yoe / 100 + doy in era *ℤ pos 146097 +ℤ pos doe -ℤ pos 719468

-- The loop that prints a number, the least digit first.
unfoldable pub low_digits : ℕ → ℕ → List ℕ
low_digits zero n = []
low_digits (suc k) n =
    let rest = low_digits k (n / 10) in if ltb n 10 then (48 + n) ∷ [] else (48 + n % 10) ∷ rest

-- `%0<w>u`: at least `w` digits.
unfoldable pub padded : ℕ → ℕ → List ℕ
padded w n = let ds = reverse (low_digits 10 n) in replicate (w - length ds) 48 ++ ds

-- `%04d`: the sign counts as a digit.
unfoldable pub padded_int : ℤ → List ℕ
padded_int (pos n) = padded 4 n
padded_int (negsuc n) = 45 ∷ padded 3 (n + 1)

-- A date and a time of day.
pub record Civil : Type 0 where
  pub year : ℤ
  pub month : ℕ
  pub day : ℕ
  pub secs : ℕ

-- The first half of `ztp_format_rfc3339`.
unfoldable pub civil_of : ℤ → Civil
civil_of unix_s =
    let days = floor_div unix_s 86400 in
    let z = days +ℤ pos 719468 in
    let era = floor_div z 146097 in
    let doe = floor_mod z 146097 in
    let yoe = (doe - doe / 1460 + doe / 36524 - doe / 146096) / 365 in
    let doy = doe - (365 * yoe + yoe / 4 - yoe / 100) in
    let mp = (5 * doy + 2) / 153 in
    let m = if ltb mp 10 then mp + 3 else mp - 9 in
    record {
      year = pos yoe +ℤ era *ℤ pos 400 +ℤ (if leb m 2 then pos 1 else pos 0);
      month = m;
      day = doy - (153 * mp + 2) / 5 + 1;
      secs = floor_mod unix_s 86400;
    }

-- The cast of the year to `int` is left out: it changes no year from -2 ^ 31 to 2 ^ 31 - 1.
abbrev pub civil_text : Civil → List ℕ
civil_text c =
    padded_int c.year
    ++ (45 ∷ padded 2 c.month)
    ++ (45 ∷ padded 2 c.day)
    ++ (84 ∷ padded 2 (c.secs / 3600))
    ++ (58 ∷ padded 2 (c.secs / 60 % 60))
    ++ (58 ∷ padded 2 (c.secs % 60))
    ++ (90 ∷ [])

unfoldable pub ztp_format_rfc3339 : ℤ → List ℕ
ztp_format_rfc3339 unix_s = take 20 (civil_text (civil_of unix_s))

-- The tests on the separators.
abbrev pub rfc3339_shape : List ℕ → Bool
rfc3339_shape s =
    let last = get_or s (length s - 1) 0 in
    leb 20 (length s)
    && get_or s 4 0 == 45
    && get_or s 7 0 == 45
    && (get_or s 10 0 == 84 || get_or s 10 0 == 116)
    && get_or s 13 0 == 58
    && get_or s 16 0 == 58
    && (last == 90 || last == 122)
    && not (ltb 20 (length s) && not (get_or s 19 0 == 46))

abbrev pub in_range : ℕ → ℕ → ℕ → ℕ → ℕ → Bool
in_range mo d h mi se =
    leb 1 mo && leb mo 12 && leb 1 d && leb d 31 && leb h 23 && leb mi 59 && leb se 60

unfoldable pub ztp_parse_rfc3339 : List ℕ → Option ℤ
ztp_parse_rfc3339 s = do
  guard (rfc3339_shape s)
  y ← parse_uint (take 4 s)
  mo ← parse_uint (take 2 (drop 5 s))
  d ← parse_uint (take 2 (drop 8 s))
  h ← parse_uint (take 2 (drop 11 s))
  mi ← parse_uint (take 2 (drop 14 s))
  se ← parse_uint (take 2 (drop 17 s))
  guard (in_range mo d h mi se)
  some (days_from_civil y mo d *ℤ pos 86400 +ℤ pos (h * 3600) +ℤ pos (mi * 60) +ℤ pos se)
