-- ===== src/Common/Decimal.antt =====
-- str(n): the decimal digits of a number, and their uniqueness.
use mathlib.Core.List.{reverse, reverse-reverse, reverse-append, reverse-cons, append_assoc}
use Prim.Native.Nat.{ℕ, zero, suc, ◌+◌, ◌*◌, ◌-◌, ◌/◌, ◌%◌, ◌≤◌}
use mathlib.Core.Path.{◌≡◌, refl, sym, ap, ◌∙◌}
use mathlib.Core.List.{[], ◌∷◌, ◌++◌}
use mathlib.Core.Bool.{Bool, true, ◌&&◌}
use native.Mathlib.Omega.{arith}
use smart_sim.Common.Tests.{ltb, leb, if◌then◌else◌}
use smart_sim.Common.Lists.{all}
use smart_sim.Common.Texts.{Text, codes}

-- Least significant first; the fuel `n` is enough, since each round divides by ten.
low_digits : ℕ → ℕ → Text
low_digits zero n = (b'0' + n % 10) ∷ []
low_digits (suc f) n =
    let rest = low_digits f (n / 10) in
    if ltb n 10 then (b'0' + n % 10) ∷ [] else (b'0' + n % 10) ∷ rest

unfoldable pub show : ℕ → Text
unfolding low_digits
show n = reverse (low_digits n n)

value : Text → ℕ
value [] = 0
value (c ∷ cs) = (c - b'0') + 10 * value cs

value-low_digits : (f n : ℕ) → n ≤ f → value (low_digits f n) ≡ n
unfolding low_digits value
value-low_digits zero n h = omega arith
value-low_digits (suc f) n h = ground (arith, value-low_digits f (n / 10))

-- Two numbers with the same digits are equal.
pub show-injective : (m n : ℕ) → show m ≡ show n → m ≡ n
unfolding show
show-injective m n e =
    sym (value-low_digits m m (omega arith))
    ∙ ap value (sym (reverse-reverse _) ∙ ap reverse e ∙ reverse-reverse _)
    ∙ value-low_digits n n (omega arith)

abbrev pub is_digit : ℕ → Bool
is_digit c = leb b'0' c && leb c b'9'

low_digits-is_digit : (f n : ℕ) → all is_digit (low_digits f n) ≡ true
unfolding low_digits
low_digits-is_digit zero n = ground arith
low_digits-is_digit (suc f) n = ground (arith, low_digits-is_digit f (n / 10))

-- Two texts of digits before a dash are equal if the whole texts are.
digits_before_dash :
    (xs ys cs bs : Text)
    → all is_digit xs ≡ true
    → all is_digit ys ≡ true
    → xs ++ b'-' ∷ cs ≡ ys ++ b'-' ∷ bs
    → xs ≡ ys
digits_before_dash [] [] cs bs p q e = refl
digits_before_dash [] (y ∷ ys) cs bs p q e = absurd (ground arith)
digits_before_dash (x ∷ xs) [] cs bs p q e = absurd (ground arith)
digits_before_dash (x ∷ xs) (y ∷ ys) cs bs p q e = ground (arith, digits_before_dash xs ys cs bs)

reverse-dash :
    (a : Text) (n : ℕ) → reverse (a ++ b'-' ∷ show n) ≡ low_digits n n ++ b'-' ∷ reverse a
unfolding show
reverse-dash a n =
    reverse-append a (b'-' ∷ show n)
    ∙ ap (λ t. t ++ reverse a) (reverse-cons b'-' (show n))
    ∙ append_assoc (reverse (show n)) (b'-' ∷ []) (reverse a)
    ∙ ap (λ t. t ++ b'-' ∷ reverse a) (reverse-reverse (low_digits n n))

-- The number behind the last dash of a text is unique.
pub number_after_dash : (a b : Text) (m n : ℕ) → a ++ b'-' ∷ show m ≡ b ++ b'-' ∷ show n → m ≡ n
number_after_dash a b m n e =
    let same =
      digits_before_dash (low_digits m m) (low_digits n n) (reverse a) (reverse b)
        (low_digits-is_digit m m) (low_digits-is_digit n n)
        (sym (reverse-dash a m) ∙ ap reverse e ∙ reverse-dash b n) in
    sym (value-low_digits m m (omega arith)) ∙ ap value same ∙ value-low_digits n n (omega arith)

show-1203 : show 1203 ≡ codes "1203"
unfolding show
show-1203 = refl
