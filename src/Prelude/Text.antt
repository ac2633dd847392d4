-- ===== src/Prelude/Text.antt =====
-- Texts as the program measures them: bytes of UTF-8, code points, white space.
use Prim.Native.Nat.{ℕ, ◌+◌}
use Prim.Native.Char.{code}
use Prim.Native.String.{String, ◌++◌ as ◌<>◌}
use mathlib.Core.Path.{◌≡◌, refl}
use mathlib.Core.Logic.{◌≢◌, inl, inr}
use mathlib.Core.Bool.{Bool, true, false, ◌&&◌, ◌||◌}
use text.Mathlib.TextEquality.{eq_iff}
use mathlib.Core.List.{List, [], ◌∷◌}
use text.Mathlib.Text.{◌==◌ as ◌=t=◌}
use ddd_samples.Prelude.Tests.{Bool-cases, leb, ltb, ◌==◌, if◌then◌else◌}
use ddd_samples.Prelude.Lists.{all}

infixl 65 ◌+++◌
abbrev pub ◌+++◌ : String → String → String
s +++ t = ◌<>◌ s t

abbrev pub str_eq : String → String → Bool
str_eq s t = ◌=t=◌ s t

-- `chars()`, as code points.
abbrev pub codes : String → List ℕ
codes String.[] = []
codes (String.◌∷◌ c s) = code c ∷ codes s

-- How many bytes UTF-8 takes for a code point.
abbrev pub utf8_width : ℕ → ℕ
utf8_width c = if ltb c 0x80 then 1 else if ltb c 0x800 then 2 else if ltb c 0x1_0000 then 3 else 4

-- `str::len` of a text with these code points.
abbrev pub byte_len : List ℕ → ℕ
byte_len [] = 0
byte_len (c ∷ cs) = utf8_width c + byte_len cs

-- `char::is_ascii_digit`
abbrev pub is_ascii_digit : ℕ → Bool
is_ascii_digit c = leb b'0' c && leb c b'9'

-- `char::is_whitespace`: the Unicode property White_Space.
unfoldable pub is_whitespace : ℕ → Bool
is_whitespace c =
    (leb 0x9 c && leb c 0xd)
    || c == 0x20
    || c == 0x85
    || c == 0xa0
    || c == 0x1680
    || (leb 0x2000 c && leb c 0x200a)
    || c == 0x2028
    || c == 0x2029
    || c == 0x202f
    || c == 0x205f
    || c == 0x3000

-- `s.trim().is_empty()`
abbrev pub is_blank : String → Bool
is_blank s = all is_whitespace (codes s)

-- `HashMap::insert`, on the pairs of a map of texts.
abbrev pub insert_text : String → String → List (String × String) → List (String × String)
insert_text k v [] = (k, v) ∷ []
insert_text k v (e ∷ m) = if str_eq e.0 k then (k, v) ∷ m else e ∷ insert_text k v m

pub str_eq_refl : (s : String) → str_eq s s ≡ true
str_eq_refl s = (eq_iff s s).1 refl

pub str_eq→≡ : (s t : String) → str_eq s t ≡ true → s ≡ t
str_eq→≡ s t h = (eq_iff s t).0 h

pub str_eq_ne : (s t : String) → s ≢ t → str_eq s t ≡ false
str_eq_ne s t h = elim (Bool-cases (str_eq s t)) [ inl e ↦ absurd (h (str_eq→≡ s t e)) | inr n ↦ n ]
