-- ===== src/Common/Split.antt =====
-- Python's str.split, str.join, str.strip and their relations.
use Prim.Native.Nat.{ℕ, zero, suc, ◌-◌}
use mathlib.Core.Path.{◌≡◌, refl, ap, ◌∙◌}
use mathlib.Core.Bool.{Bool, true, false, ◌||◌, ◌&&◌}
use mathlib.Core.List.{List, [], ◌∷◌, ◌++◌, reverse}
use native.Mathlib.Omega.{arith}
use smart_sim.Common.Tests.{◌==◌, leb, if◌then◌else◌}
use smart_sim.Common.Lists.{length, All}
use smart_sim.Common.Texts.{Text, codes}

abbrev pub push : ℕ → List Text → List Text
push x [] = (x ∷ []) ∷ []
push x (w ∷ ws) = (x ∷ w) ∷ ws

-- text.split(sep) for a separator of one character.
unfoldable pub split : ℕ → Text → List Text
split sep [] = [] ∷ []
split sep (x ∷ xs) = let rest = split sep xs in if x == sep then [] ∷ rest else push x rest

-- sep.join(parts)
unfoldable pub join : ℕ → List Text → Text
join sep [] = []
join sep (w ∷ []) = w
join sep (w ∷ (v ∷ ws)) = w ++ sep ∷ join sep (v ∷ ws)

-- c in text
unfoldable pub has_char : ℕ → Text → Bool
has_char c [] = false
has_char c (x ∷ xs) = (x == c) || has_char c xs

pub has_char-append :
    (c : ℕ) (xs ys : Text) → has_char c (xs ++ ys) ≡ (has_char c xs || has_char c ys)
unfolding has_char
has_char-append c [] ys = refl
has_char-append c (x ∷ xs) ys = ground (arith, has_char-append c xs ys)

unfoldable pub starts_with : Text → Text → Bool
starts_with [] xs = true
starts_with (p ∷ ps) [] = false
starts_with (p ∷ ps) (x ∷ xs) = (p == x) && starts_with ps xs

-- sub in text
unfoldable pub has_text : Text → Text → Bool
unfolding starts_with
has_text sub [] = starts_with sub []
has_text sub (x ∷ xs) = starts_with sub (x ∷ xs) || has_text sub xs

-- text.split(sep) for a longer separator; `skip` characters of a match are still to be passed.
split_from : Text → ℕ → Text → List Text
unfolding starts_with
split_from sep skip [] = [] ∷ []
split_from sep (suc skip) (x ∷ xs) = split_from sep skip xs
split_from sep zero (x ∷ xs) =
    let matched = [] ∷ split_from sep (length sep - 1) xs in
    let other = push x (split_from sep zero xs) in
    if starts_with sep (x ∷ xs) then matched else other

unfoldable pub split_text : Text → Text → List Text
unfolding split_from
split_text sep xs = split_from sep 0 xs

-- The white space of str.split() and str.strip().
abbrev pub is_space : ℕ → Bool
is_space c =
    (leb 9 c && leb c 13)
    || ((leb 28 c && leb c 32)
        || ((c == 133)
            || ((c == 160)
                || ((c == 5760)
                    || ((leb 8192 c && leb c 8202)
                        || ((leb 8232 c && leb c 8233)
                            || ((c == 8239) || ((c == 8287) || (c == 12288)))))))))

unfoldable pub lstrip : Text → Text
lstrip [] = []
lstrip (x ∷ xs) = let rest = lstrip xs in if is_space x then rest else x ∷ xs

unfoldable pub strip : Text → Text
unfolding lstrip
strip xs = reverse (lstrip (reverse (lstrip xs)))

-- A word that has ended is put before the later ones, unless it is empty.
abbrev close_word : Text → List Text → List Text
close_word [] ws = ws
close_word (x ∷ xs) ws = (x ∷ xs) ∷ ws

-- The words of a text, after the part `read` of the word at hand.
words_from : Text → Text → List Text
words_from read [] = close_word read []
words_from read (x ∷ xs) =
    let ended = close_word read (words_from [] xs) in
    let longer = words_from (read ++ x ∷ []) xs in if is_space x then ended else longer

-- text.split()
unfoldable pub words : Text → List Text
unfolding words_from
words = words_from []

-- parts[i] where the code knows that it is there.
abbrev pub part : List Text → ℕ → Text
part [] i = []
part (w ∷ ws) zero = w
part (w ∷ ws) (suc i) = part ws i

pub split_plain : (sep : ℕ) (w : Text) → has_char sep w ≡ false → split sep w ≡ w ∷ []
unfolding split has_char
split_plain sep [] h = refl
split_plain sep (x ∷ w) h = ground (arith, split_plain sep w)

pub split-append :
    (sep : ℕ) (w rest : Text)
    → has_char sep w ≡ false
    → split sep (w ++ sep ∷ rest) ≡ w ∷ split sep rest
unfolding split has_char
split-append sep [] rest h = ground arith
split-append sep (x ∷ w) rest h = ground (arith, split-append sep w rest)

-- Parts without the separator come back when they have been joined.
pub split-join :
    (sep : ℕ) (w : Text) (ws : List Text)
    → All (λ v. has_char sep v ≡ false) (w ∷ ws)
    → split sep (join sep (w ∷ ws)) ≡ w ∷ ws
unfolding join
split-join sep w [] h = split_plain sep w h.0
split-join sep w (v ∷ ws) h =
    split-append sep w (join sep (v ∷ ws)) h.0 ∙ ap (◌∷◌ w) (split-join sep v ws h.1)

words-sample : words (codes "  12.sdb run  mpi ") ≡ codes "12.sdb" ∷ codes "run" ∷ codes "mpi" ∷ []
unfolding words
words-sample = refl

split_text-sample :
    split_text (codes "error:") (codes "salloc: error: no error: x")
    ≡ codes "salloc: " ∷ codes " no " ∷ codes " x" ∷ []
unfolding split_text
split_text-sample = refl

strip-sample : strip (codes "  a b ") ≡ codes "a b"
unfolding strip
strip-sample = refl
