-- ===== src/Value/ShippingAddress.antt =====
-- `ShippingAddress` of domain/model/value_objects.rs and its validation.
pub mod Validation
use ddd_samples.Prelude.{
  ℕ, suc, ◌+◌, String, codes, byte_len, is_ascii_digit, is_blank, ◌≡◌, refl, Bool, true, false, not,
  ◌&&◌, Option, List, [], ◌∷◌, all, length, All, arith, ◌==◌, if◌then◌else◌,
}
use ddd_samples.Prelude.Action.{Outcome, ok, err}
use ddd_samples.Error.{DomainError}

pub record ShippingAddress : Type 0 where
  pub postal_code : String
  pub prefecture : String
  pub city : String
  pub street : String
  pub building : Option String

-- `ShippingAddress::is_valid_postal_code`; `len` counts bytes.
unfoldable pub is_valid_postal_code : String → Bool
is_valid_postal_code postal_code =
    byte_len (codes postal_code) == 7 && all is_ascii_digit (codes postal_code)

-- `ShippingAddress::new`
unfoldable pub new :
    String → String → String → String → Option String → Outcome DomainError ShippingAddress
new postal_code prefecture city street building =
    if not (is_valid_postal_code postal_code)
    then err (DomainError.invalid_address "郵便番号は7桁の数字である必要があります")
    else if is_blank prefecture
    then err (DomainError.invalid_address "都道府県は空にできません")
    else if is_blank city
    then err (DomainError.invalid_address "市区町村は空にできません")
    else if is_blank street
    then err (DomainError.invalid_address "番地は空にできません")
    else ok (record {
      postal_code = postal_code;
      prefecture = prefecture;
      city = city;
      street = street;
      building = building;
    })
