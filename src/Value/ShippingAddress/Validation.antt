-- ===== src/Value/ShippingAddress/Validation.antt =====
-- What `ShippingAddress::new` accepts.
use ddd_samples.Prelude.{
  ℕ, ◌≤◌, String, codes, byte_len, is_ascii_digit, is_blank, is_whitespace, Any, Any-of_all,
  all_of_Any, ◌≡◌, refl, ◌↔◌, true, false, Option, List, [], ◌∷◌, all, length, All, arith,
}
use ddd_samples.Prelude.Action.{ok}
use ddd_samples.Value.ShippingAddress.{ShippingAddress, is_valid_postal_code}
use ddd_samples.Value.ShippingAddress

abbrev pub IsDigit : ℕ → Type 0
IsDigit c = (b'0' ≤ c) × (c ≤ b'9')

-- Seven characters, all of them digits.
abbrev pub IsPostalCode : String → Type 0
IsPostalCode s = (length (codes s) ≡ 7) × All IsDigit (codes s)

-- Some character is not white space.
abbrev pub IsFilled : String → Type 0
IsFilled s = Any (λ c. is_whitespace c ≡ false) (codes s)

-- Digits take a byte each, so counting bytes counts characters.
digits_of_all :
    (cs : List ℕ) → all is_ascii_digit cs ≡ true → All IsDigit cs × (byte_len cs ≡ length cs)
digits_of_all [] h = (tt, refl)
digits_of_all (c ∷ cs) h = ground (arith, digits_of_all cs)

all_of_digits :
    (cs : List ℕ) → All IsDigit cs → (all is_ascii_digit cs ≡ true) × (byte_len cs ≡ length cs)
all_of_digits [] h = (refl, refl)
all_of_digits (c ∷ cs) h = ground (arith, all_of_digits cs h.1)

IsPostalCode-iff : (s : String) → (is_valid_postal_code s ≡ true) ↔ IsPostalCode s
unfolding is_valid_postal_code
IsPostalCode-iff s =
    (λ h. ground (arith, digits_of_all (codes s)), λ h. ground (arith, all_of_digits (codes s) h.1))

-- `new` returns an address exactly when the postal code is seven digits and the three required
-- fields have a character that is not white space; the address holds the arguments unchanged.
pub new-eq-ok_iff :
    (postal_code prefecture city street : String) (building : Option String) (a : ShippingAddress)
    → (ShippingAddress.new postal_code prefecture city street building ≡ ok a) ↔ (
        (a ≡ record {
          postal_code = postal_code;
          prefecture = prefecture;
          city = city;
          street = street;
          building = building;
        })
        × IsPostalCode postal_code
        × IsFilled prefecture
        × IsFilled city
        × IsFilled street)
unfolding ShippingAddress.new
new-eq-ok_iff pc pr ci st b a = (
  λ h. ground (arith, IsPostalCode-iff pc, filled pr, filled ci, filled st),
  λ h. ground (
    arith,
    IsPostalCode-iff pc,
    all_of_Any is_whitespace (codes pr),
    all_of_Any is_whitespace (codes ci),
    all_of_Any is_whitespace (codes st),
  ),
)
  where
    filled : (s : String) → is_blank s ≡ false → IsFilled s
    filled s = Any-of_all is_whitespace (codes s)
