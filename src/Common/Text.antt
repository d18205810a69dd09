-- ===== src/Common/Text.antt =====
-- The order of texts, which is that of their UTF-8 bytes, and the decimal digits of a number.
use Prim.Native.Char.{code}
use Prim.Native.String.{◌++◌ as join}
use text.Mathlib.TextEquality.{Char-path}
use kubetin.Common.{
  List, [], ◌∷◌, ℕ, zero, suc, ◌/◌, ◌%◌, ◌≡◌, refl, ap, ◌∙◌, String, Bool, true, false, ◌&&◌, ◌||◌,
  ltb, ◌==◌, if◌then◌else◌, arith,
}

abbrev pub text_ltb : String → String → Bool
text_ltb String.[] String.[] = false
text_ltb String.[] (String.◌∷◌ d t) = true
text_ltb (String.◌∷◌ c s) String.[] = false
text_ltb (String.◌∷◌ c s) (String.◌∷◌ d t) =
    ltb (code c) (code d) || (code c == code d && text_ltb s t)

pub text_ltb_asymm : (s t : String) → text_ltb s t ≡ true → text_ltb t s ≡ false
text_ltb_asymm String.[] String.[] h = refl
text_ltb_asymm String.[] (String.◌∷◌ d t) h = refl
text_ltb_asymm (String.◌∷◌ c s) String.[] h = cc
text_ltb_asymm (String.◌∷◌ c s) (String.◌∷◌ d t) h = ground (arith, text_ltb_asymm s t)

pub text_ltb_trans :
    (s t u : String) → text_ltb s t ≡ true → text_ltb t u ≡ true → text_ltb s u ≡ true
text_ltb_trans s String.[] String.[] h k = cc
text_ltb_trans String.[] String.[] (String.◌∷◌ e u) h k = refl
text_ltb_trans (String.◌∷◌ c s) String.[] (String.◌∷◌ e u) h k = cc
text_ltb_trans String.[] (String.◌∷◌ d t) String.[] h k = cc
text_ltb_trans (String.◌∷◌ c s) (String.◌∷◌ d t) String.[] h k = cc
text_ltb_trans String.[] (String.◌∷◌ d t) (String.◌∷◌ e u) h k = refl
text_ltb_trans (String.◌∷◌ c s) (String.◌∷◌ d t) (String.◌∷◌ e u) h k =
    ground (arith, text_ltb_trans s t u)

pub text_ltb_total : (s t : String) → text_ltb s t ≡ false → text_ltb t s ≡ false → s ≡ t
text_ltb_total String.[] String.[] h k = refl
text_ltb_total String.[] (String.◌∷◌ d t) h k = cc
text_ltb_total (String.◌∷◌ c s) String.[] h k = cc
text_ltb_total (String.◌∷◌ c s) (String.◌∷◌ d t) h k =
    let first : code c ≡ code d = ground arith in
    let rest : s ≡ t = text_ltb_total s t (ground arith) (ground arith) in
    ap (λ e. String.◌∷◌ e s) (Char-path c d first) ∙ ap (String.◌∷◌ d) rest

abbrev digit : ℕ → String
digit n =
    if n == 0
    then "0"
    else if n == 1
    then "1"
    else if n == 2
    then "2"
    else if n == 3
    then "3"
    else if n == 4
    then "4"
    else if n == 5
    then "5"
    else if n == 6
    then "6"
    else if n == 7
    then "7"
    else if n == 8
    then "8"
    else "9"

-- A number has fewer digits than the fuel, which is more than the number.
digits : ℕ → ℕ → String → String
digits zero n acc = acc
digits (suc fuel) n acc =
    let onward = digits fuel (n / 10) (join (digit (n % 10)) acc) in
    if ltb n 10 then join (digit n) acc else onward

-- `%d`
unfoldable pub decimal : ℕ → String
unfolding digits
decimal n = digits (suc n) n ""

decimal_places : decimal 4207 ≡ "4207"
unfolding decimal
decimal_places = refl

-- Texts one after the other.
abbrev pub words : List String → String
words [] = ""
words (s ∷ ss) = join s (words ss)
