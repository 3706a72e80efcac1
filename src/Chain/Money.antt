-- ===== src/Chain/Money.antt =====
-- Blockchain/src/shared/money.ts. `none` is the BUILD_ERROR that is thrown.
use orvex.Prelude.{
  ℕ, zero, suc, ◌-◌, ◌≤◌, ◌<◌, Bool, true, false, not, ◌&&◌, ◌||◌, Option, none, some, List, [],
  ◌∷◌, ◌++◌, ◌==◌, ◌≡◌, refl, sym, ◌∙◌, ap, ltb, leb, all, length, length-append, arith,
  if◌then◌else◌, Bool-cases, inl, inr,
}
use orvex.Prelude.Digits.{is_digit}
use orvex.Chain.Numerals.{
  show, read, zeros, pad_start, pad_end, take, drop, is_empty, strip_end, strip_start, read-show,
  show-digits, read-zeros, read-strip_start, take-drop, length-drop, pad_end-strip_end, all-append,
  zeros-digits, all-take, all-drop, all-strip_end, length-strip_end, length-zeros, show-nonempty,
  append_nil,
}

-- The codes that `trim` takes off.
abbrev pub is_space : ℕ → Bool
is_space c =
    (leb 9 c && leb c 13)
    || (c == 32
        || (c == 160
            || (c == 5760
                || ((leb 8192 c && leb c 8202)
                    || (c == 8232
                        || (c == 8233
                            || (c == 8239 || (c == 8287 || (c == 12288 || c == 65279)))))))))

abbrev pub trim_start : List ℕ → List ℕ
trim_start [] = []
trim_start (c ∷ cs) = let rest = trim_start cs in if is_space c then rest else c ∷ cs

abbrev pub trim_end : List ℕ → List ℕ
trim_end [] = []
trim_end (c ∷ cs) = let rest = trim_end cs in if is_space c && is_empty rest then [] else c ∷ rest

abbrev pub trim : List ℕ → List ℕ
trim cs = trim_start (trim_end cs)

-- The second group of `DECIMAL_RE`, after the digits of the first: none, or a point and digits.
abbrev pub match_fraction : List ℕ → Option (List ℕ)
match_fraction [] = some []
match_fraction (c ∷ cs) =
    if c == b'.' && (not (is_empty cs) && all is_digit cs) then some cs else none

abbrev pub with_digit : ℕ → Option (List ℕ × List ℕ) → Option (List ℕ × List ℕ)
with_digit c none = none
with_digit c (some (whole, fraction)) = some (c ∷ whole, fraction)

abbrev pub no_digits : Option (List ℕ) → Option (List ℕ × List ℕ)
no_digits none = none
no_digits (some fraction) = some ([], fraction)

-- The groups of `DECIMAL_RE`, the first of which may be empty here.
abbrev pub match_groups : List ℕ → Option (List ℕ × List ℕ)
match_groups [] = some ([], [])
match_groups (c ∷ cs) =
    let rest = match_groups cs in
    if is_digit c then with_digit c rest else no_digits (match_fraction (c ∷ cs))

abbrev pub nonempty_whole : Option (List ℕ × List ℕ) → Option (List ℕ × List ℕ)
nonempty_whole none = none
nonempty_whole (some (whole, fraction)) = if is_empty whole then none else some (whole, fraction)

unfoldable pub combine : ℕ → List ℕ × List ℕ → Option ℕ
combine decimals (whole, fraction) =
    if ltb decimals (length fraction)
    then none
    else some (read (strip_start (whole ++ pad_end fraction decimals)))

abbrev pub combine? : ℕ → Option (List ℕ × List ℕ) → Option ℕ
combine? decimals none = none
combine? decimals (some groups) = combine decimals groups

-- An amount that is empty or blank does not match either.
unfoldable pub to_base_units : List ℕ → ℕ → Option ℕ
unfolding combine
to_base_units amount decimals = combine? decimals (nonempty_whole (match_groups (trim amount)))

abbrev pub with_fraction : List ℕ → List ℕ → List ℕ
with_fraction whole fraction = if is_empty fraction then whole else whole ++ b'.' ∷ fraction

-- Units are not negative here.
unfoldable pub from_base_units : ℕ → ℕ → List ℕ
from_base_units units zero = show units
from_base_units units (suc d) =
    let s = pad_start (show units) (suc (suc d)) in
    with_fraction (take (length s - suc d) s) (strip_end (drop (length s - suc d) s))

match_groups-digits :
    (whole fraction : List ℕ)
    → all is_digit whole ≡ true
    → (is_empty fraction ≡ false)
    → all is_digit fraction ≡ true
    → match_groups (whole ++ b'.' ∷ fraction) ≡ some (whole, fraction)
match_groups-digits [] fraction w e f = ground (arith, e, f)
match_groups-digits (c ∷ whole) fraction w e f =
    ground (arith, w, match_groups-digits whole fraction)

match_groups-whole :
    (whole : List ℕ) → all is_digit whole ≡ true → match_groups whole ≡ some (whole, [])
match_groups-whole [] w = refl
match_groups-whole (c ∷ whole) w = ground (arith, w, match_groups-whole whole)

trim-text : (cs : List ℕ) → all (λ c. not (is_space c)) cs ≡ true → trim cs ≡ cs
trim-text cs h = ap trim_start (end_same cs h) ∙ start_same cs h
  where
    end_same : (cs : List ℕ) → all (λ c. not (is_space c)) cs ≡ true → trim_end cs ≡ cs
    end_same [] h = refl
    end_same (c ∷ cs) h = ground (arith, h, end_same cs)

    start_same : (cs : List ℕ) → all (λ c. not (is_space c)) cs ≡ true → trim_start cs ≡ cs
    start_same [] h = refl
    start_same (c ∷ cs) h = ground (arith, h)

digit_no_space : (c : ℕ) → is_digit c ≡ true → is_space c ≡ false
digit_no_space c h = ground (arith, h)

digits_no_space : (cs : List ℕ) → all is_digit cs ≡ true → all (λ c. not (is_space c)) cs ≡ true
digits_no_space [] h = refl
digits_no_space (c ∷ cs) h =
    let one : is_digit c ≡ true = ground (arith, h) in
    let rest = digits_no_space cs (ground (arith, h)) in rw (digit_no_space c one) rest

take-nonempty : (k : ℕ) (cs : List ℕ) → 0 < k → 0 < length cs → is_empty (take k cs) ≡ false
take-nonempty zero cs h l = absurd (omega (arith, h))
take-nonempty (suc k) [] h l = absurd (omega (arith, l))
take-nonempty (suc k) (c ∷ cs) h l = refl

emptied : (cs : List ℕ) → is_empty cs ≡ true → cs ≡ []
emptied [] h = refl
emptied (c ∷ cs) h = cc

module _ (whole fraction : List ℕ) (d : ℕ) (w : all is_digit whole ≡ true)
    (n : is_empty whole ≡ false) (f : all is_digit fraction ≡ true)
    (short : length fraction ≤ d) where
  text_no_space : all (λ c. not (is_space c)) (with_fraction whole fraction) ≡ true
  text_no_space = elim (Bool-cases (is_empty fraction)) [
    | inl e ↦ rw e (digits_no_space whole w)
    | inr m ↦
        rw (m, all-append (λ c. not (is_space c)) whole (b'.' ∷ fraction), digits_no_space whole w)
          (digits_no_space fraction f)
  ]

  groups : match_groups (with_fraction whole fraction) ≡ some (whole, fraction)
  groups = elim (Bool-cases (is_empty fraction)) [
    | inl e ↦
        rw e (match_groups-whole whole w ∙ ap (λ x. some (whole, x)) (sym (emptied fraction e)))
    | inr m ↦ rw m (match_groups-digits whole fraction w m f)
  ]

  -- What is read of a text in two parts.
  to_base_units-parts :
      to_base_units (with_fraction whole fraction) d ≡ some (read (whole ++ pad_end fraction d))
  unfolding to_base_units
  to_base_units-parts =
      let fits : ltb d (length fraction) ≡ false = ground (arith, short) in
      rw
        (
          trim-text (with_fraction whole fraction) text_no_space,
          groups,
          n,
          fits,
          read-strip_start (whole ++ pad_end fraction d),
        )
        refl

-- Every number of units is read back from its text, whatever the decimals of the token.
pub to_base_units-from_base_units :
    (units decimals : ℕ) → to_base_units (from_base_units units decimals) decimals ≡ some units
unfolding from_base_units
to_base_units-from_base_units units zero =
    to_base_units-parts (show units) [] 0 (show-digits units) (show-nonempty units) refl
      (omega arith)
    ∙ ap some (ap read (append_nil (show units)) ∙ read-show units)
to_base_units-from_base_units units (suc d) =
    let s = pad_start (show units) (suc (suc d)) in
    let k = length s - suc d in
    let digits : all is_digit s ≡ true =
      rw
        (
          all-append is_digit (zeros (suc (suc d) - length (show units))) (show units),
          zeros-digits (suc (suc d) - length (show units)),
        )
        (show-digits units) in
    let long : suc (suc d) ≤ length s = omega (
      arith,
      length-append (zeros (suc (suc d) - length (show units))) (show units),
      length-zeros (suc (suc d) - length (show units)),
    ) in
    let last : length (drop k s) ≡ suc d = omega (arith, length-drop k s, long) in
    let back : pad_end (strip_end (drop k s)) (suc d) ≡ drop k s =
      ap (pad_end (strip_end (drop k s))) (sym last) ∙ pad_end-strip_end (drop k s) in
    to_base_units-parts (take k s) (strip_end (drop k s)) (suc d) (all-take is_digit k s digits)
      (take-nonempty k s (omega (arith, long)) (omega (arith, long)))
      (all-strip_end is_digit (drop k s) (all-drop is_digit k s digits))
      (omega (arith, last, length-strip_end (drop k s)))
    ∙ ap some (
        ap (λ x. read (take k s ++ x)) back
        ∙ ap read (take-drop k s)
        ∙ read-zeros (suc (suc d) - length (show units)) (show units)
        ∙ read-show units)
