-- ===== src/Messages/Laws.antt =====
-- What JsonCpp documents of the calls that src/messageparser.cpp makes.
use media_gateway_v4_7_1_sde.Base.{◌≡◌, Bool, false, if◌then◌else◌, Text, ℤ, ok}
use media_gateway_v4_7_1_sde.Text.{eq_text}
use media_gateway_v4_7_1_sde.Messages.{Json}

pub record JsonLaws (J : Json) : Type 0 where
  pub is_null-of_int : (n : ℤ) → J.is_null (J.of_int n) ≡ false
  pub is_null-of_string : (s : Text) → J.is_null (J.of_string s) ≡ false
  pub is_null-of_bool : (b : Bool) → J.is_null (J.of_bool b) ≡ false
  pub is_null-with_member :
      (o : J.Object) (x : J.Value) (k : Text)
      → J.is_null (J.of_object (J.with_member o k x)) ≡ false
  pub as_int-of_int : (n : ℤ) → J.as_int (J.of_int n) ≡ ok n
  pub as_string-of_string : (s : Text) → J.as_string (J.of_string s) ≡ ok s
  pub as_bool-of_bool : (b : Bool) → J.as_bool (J.of_bool b) ≡ ok b
  -- A member that was set is the value that it was set to, and setting it leaves the others.
  pub member-with_member :
      (o : J.Object) (x : J.Value) (k j : Text)
      → J.member (J.of_object (J.with_member o k x)) j
        ≡ (if eq_text k j then ok x else J.member (J.of_object o) j)
