-- ===== src/Chain/Numerals.antt =====
-- `BigInt(text)`, `toString` of a bigint, and the operations on texts that money.ts uses.
use orvex.Prelude.{
  ℕ, zero, suc, ◌+◌, ◌-◌, ◌*◌, ◌/◌, ◌%◌, ◌<◌, ◌≤◌, Bool, true, false, ◌&&◌, List, [], ◌∷◌, ◌++◌,
  ◌==◌, ◌≡◌, refl, ap, ltb, all, length, arith, ◌∙◌, sym, if◌then◌else◌, Bool-cases, inl, inr,
}
use orvex.Prelude.Digits.{is_digit}

-- The decimal digits of a number, by fuel, before what is there already.
unfoldable pub digits_before : ℕ → ℕ → List ℕ → List ℕ
digits_before zero n cs = cs
digits_before (suc f) n cs =
    let rest = digits_before f (n / 10) ((b'0' + n % 10) ∷ cs) in
    if ltb n 10 then (b'0' + n % 10) ∷ cs else rest

unfoldable pub show : ℕ → List ℕ
unfolding digits_before
show n = digits_before (suc n) n []

unfoldable pub read_after : ℕ → List ℕ → ℕ
read_after v [] = v
read_after v (c ∷ cs) = read_after (v * 10 + (c - b'0')) cs

abbrev pub read : List ℕ → ℕ
read cs = read_after 0 cs

read-digits_before :
    (f n : ℕ) (cs : List ℕ) → n < f → read_after 0 (digits_before f n cs) ≡ read_after n cs
unfolding digits_before read_after
read-digits_before zero n cs h = absurd (omega (arith, h))
read-digits_before (suc f) n cs h = elim (Bool-cases (ltb n 10)) [
  | inl e ↦
      let same : 0 * 10 + (b'0' + n % 10 - b'0') ≡ n = ground (arith, e) in
      rw e (ap (λ v. read_after v cs) same)
  | inr m ↦
      let less : n / 10 < f = ground (arith, m, h) in
      let same : n / 10 * 10 + (b'0' + n % 10 - b'0') ≡ n = omega arith in
      rw m
        (read-digits_before f (n / 10) ((b'0' + n % 10) ∷ cs) less ∙ ap (λ v. read_after v cs) same)
]

-- A number is read back from its digits.
pub read-show : (n : ℕ) → read (show n) ≡ n
unfolding show read_after
read-show n = read-digits_before (suc n) n [] (omega arith)

digits_before-digits :
    (f n : ℕ) (cs : List ℕ) → all is_digit cs ≡ true → all is_digit (digits_before f n cs) ≡ true
unfolding digits_before
digits_before-digits zero n cs h = h
digits_before-digits (suc f) n cs h =
    let one : is_digit (b'0' + n % 10) ≡ true = ground arith in
    let rest = digits_before-digits f (n / 10) ((b'0' + n % 10) ∷ cs) (rw (one, h) refl) in
    elim (Bool-cases (ltb n 10)) [ inl e ↦ rw (e, one, h) refl | inr m ↦ rw m rest ]

pub show-digits : (n : ℕ) → all is_digit (show n) ≡ true
unfolding show
show-digits n = digits_before-digits (suc n) n [] refl

abbrev pub zeros : ℕ → List ℕ
zeros zero = []
zeros (suc k) = b'0' ∷ zeros k

-- `padStart(n, "0")` and `padEnd(n, "0")`
abbrev pub pad_start : List ℕ → ℕ → List ℕ
pad_start cs n = zeros (n - length cs) ++ cs

abbrev pub pad_end : List ℕ → ℕ → List ℕ
pad_end cs n = cs ++ zeros (n - length cs)

-- `slice(0, k)` and `slice(k)`
abbrev pub take : ℕ → List ℕ → List ℕ
take zero cs = []
take (suc k) [] = []
take (suc k) (c ∷ cs) = c ∷ take k cs

abbrev pub drop : ℕ → List ℕ → List ℕ
drop zero cs = cs
drop (suc k) [] = []
drop (suc k) (c ∷ cs) = drop k cs

abbrev pub is_empty : List ℕ → Bool
is_empty [] = true
is_empty (_ ∷ _) = false

-- `replace(/0+$/, "")`
abbrev pub strip_end : List ℕ → List ℕ
strip_end [] = []
strip_end (c ∷ cs) = let rest = strip_end cs in if c == b'0' && is_empty rest then [] else c ∷ rest

-- `replace(/^0+(?=\d)/, "")`
abbrev pub strip_start : List ℕ → List ℕ
strip_start [] = []
strip_start (c ∷ []) = c ∷ []
strip_start (c ∷ d ∷ cs) =
    let rest = strip_start (d ∷ cs) in if c == b'0' && is_digit d then rest else c ∷ d ∷ cs

pub read-zeros : (k : ℕ) (cs : List ℕ) → read (zeros k ++ cs) ≡ read cs
unfolding read_after
read-zeros zero cs = refl
read-zeros (suc k) cs = read-zeros k cs

pub read-strip_start : (cs : List ℕ) → read (strip_start cs) ≡ read cs
unfolding read_after
read-strip_start [] = refl
read-strip_start (c ∷ []) = refl
read-strip_start (c ∷ d ∷ cs) = elim (Bool-cases (c == b'0' && is_digit d)) [
  | inl e ↦
      let nought : c ≡ b'0' = ground (arith, e) in
      let start : 0 ≡ 0 * 10 + (c - 48) = omega (arith, nought) in
      rw e (read-strip_start (d ∷ cs) ∙ ap (λ v. read_after v (d ∷ cs)) start)
  | inr n ↦ rw n refl
]

pub take-drop : (k : ℕ) (cs : List ℕ) → take k cs ++ drop k cs ≡ cs
take-drop zero cs = refl
take-drop (suc k) [] = refl
take-drop (suc k) (c ∷ cs) = ap (λ x. c ∷ x) (take-drop k cs)

pub length-drop : (k : ℕ) (cs : List ℕ) → length (drop k cs) ≡ length cs - k
length-drop zero cs = omega arith
length-drop (suc k) [] = omega arith
length-drop (suc k) (c ∷ cs) = omega (arith, length-drop k cs)

emptied : (cs : List ℕ) → is_empty cs ≡ true → cs ≡ []
emptied [] h = refl
emptied (c ∷ cs) h = cc

-- The zeros that are stripped are put back.
pub pad_end-strip_end : (cs : List ℕ) → pad_end (strip_end cs) (length cs) ≡ cs
pad_end-strip_end [] = refl
pad_end-strip_end (c ∷ cs) = elim (Bool-cases (c == b'0' && is_empty (strip_end cs))) [
  | inl e ↦
      let nought : b'0' ≡ c = ground (arith, e) in
      let gone : strip_end cs ≡ [] = emptied (strip_end cs) (ground (arith, e)) in
      let none_less : length cs ≡ length cs - 0 = omega arith in
      let all_of : suc (length cs) - 0 ≡ suc (length cs) = omega arith in
      let back : zeros (length cs) ≡ cs =
        ap zeros none_less ∙ ap (λ r. pad_end r (length cs)) (sym gone) ∙ pad_end-strip_end cs in
      rw e (ap zeros all_of ∙ ap (λ x. x ∷ zeros (length cs)) nought ∙ ap (λ r. c ∷ r) back)
  | inr n ↦
      let less : suc (length cs) - suc (length (strip_end cs)) ≡ length cs - length (strip_end cs) =
        omega arith in
      rw n (ap (λ k. c ∷ (strip_end cs ++ zeros k)) less ∙ ap (λ r. c ∷ r) (pad_end-strip_end cs))
]

pub all-append : (p : ℕ → Bool) (cs ds : List ℕ) → all p (cs ++ ds) ≡ (all p cs && all p ds)
all-append p [] ds = refl
all-append p (c ∷ cs) ds = ground (arith, all-append p cs ds)

pub zeros-digits : (k : ℕ) → all is_digit (zeros k) ≡ true
zeros-digits zero = refl
zeros-digits (suc k) = zeros-digits k

pub all-take : (p : ℕ → Bool) (k : ℕ) (cs : List ℕ) → all p cs ≡ true → all p (take k cs) ≡ true
all-take p zero cs h = refl
all-take p (suc k) [] h = refl
all-take p (suc k) (c ∷ cs) h = ground (arith, h, all-take p k cs)

pub all-drop : (p : ℕ → Bool) (k : ℕ) (cs : List ℕ) → all p cs ≡ true → all p (drop k cs) ≡ true
all-drop p zero cs h = h
all-drop p (suc k) [] h = refl
all-drop p (suc k) (c ∷ cs) h = ground (arith, h, all-drop p k cs)

pub all-strip_end : (p : ℕ → Bool) (cs : List ℕ) → all p cs ≡ true → all p (strip_end cs) ≡ true
all-strip_end p [] h = refl
all-strip_end p (c ∷ cs) h = ground (arith, h, all-strip_end p cs)

pub length-strip_end : (cs : List ℕ) → length (strip_end cs) ≤ length cs
length-strip_end [] = omega arith
length-strip_end (c ∷ cs) = ground (arith, length-strip_end cs)

pub length-zeros : (k : ℕ) → length (zeros k) ≡ k
length-zeros zero = refl
length-zeros (suc k) = ap suc (length-zeros k)

digits_before-nonempty : (f n c : ℕ) (cs : List ℕ) → is_empty (digits_before f n (c ∷ cs)) ≡ false
unfolding digits_before
digits_before-nonempty zero n c cs = refl
digits_before-nonempty (suc f) n c cs = elim (Bool-cases (ltb n 10)) [
  | inl e ↦ rw e refl
  | inr m ↦ rw m (digits_before-nonempty f (n / 10) (b'0' + n % 10) (c ∷ cs))
]

pub show-nonempty : (n : ℕ) → is_empty (show n) ≡ false
unfolding show
show-nonempty n = elim (Bool-cases (ltb n 10)) [
  | inl e ↦ rw e refl
  | inr m ↦ rw m (digits_before-nonempty n (n / 10) (b'0' + n % 10) [])
]

pub append_nil : (cs : List ℕ) → cs ++ [] ≡ cs
append_nil [] = refl
append_nil (c ∷ cs) = ap (λ x. c ∷ x) (append_nil cs)
