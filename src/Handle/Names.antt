-- ===== src/Handle/Names.antt =====
-- The names and the texts of the status codes, src/api/context.cpp.
use text.Mathlib.Text.{◌==◌ as str_eq}
use cwapper.Base.{
  String, Option, some, none, ◌≡◌, refl, ap, ◌∙◌, sym, if◌then◌else◌, List, [], ◌∷◌, Bool, true,
  false,
}
use cwapper.Types.{
  Status, success, not_initialized, alloc_failed, invalid_value, arch_mismatch, mapping_error,
  execution_failed, internal_error, matrix_type_not_supported, zero_pivot, not_supported,
  insufficient_resources, unlisted,
}
use cwapper.Handle.{get_error_name, get_error_string}

-- A status that the header lists.
abbrev pub is_listed : Status → Bool
is_listed (unlisted n) = false
is_listed _ = true

abbrev listed : List Status
listed =
    success ∷ not_initialized ∷ alloc_failed ∷ invalid_value ∷ arch_mismatch ∷ mapping_error
    ∷ execution_failed ∷ internal_error ∷ matrix_type_not_supported ∷ zero_pivot ∷ not_supported
    ∷ insufficient_resources ∷ []

abbrev text_is : Option String → Option String → Bool
text_is (some a) (some b) = str_eq a b
text_is _ _ = false

-- The listed status with this text.
abbrev decode : (Status → Option String) → List Status → Option String → Option Status
decode name [] text = none
decode name (s ∷ rest) text = if text_is (name s) text then some s else decode name rest text

abbrev name_of : Status → Option String
name_of s = (get_error_name s 1).1

abbrev string_of : Status → Option String
string_of s = (get_error_string s 1).1

decode_name : (s : Status) → is_listed s ≡ true → decode name_of listed (name_of s) ≡ some s
unfolding get_error_name
decode_name success h = refl
decode_name not_initialized h = refl
decode_name alloc_failed h = refl
decode_name invalid_value h = refl
decode_name arch_mismatch h = refl
decode_name mapping_error h = refl
decode_name execution_failed h = refl
decode_name internal_error h = refl
decode_name matrix_type_not_supported h = refl
decode_name zero_pivot h = refl
decode_name not_supported h = refl
decode_name insufficient_resources h = refl
decode_name (unlisted n) h = cc

decode_string : (s : Status) → is_listed s ≡ true → decode string_of listed (string_of s) ≡ some s
unfolding get_error_string
decode_string success h = refl
decode_string not_initialized h = refl
decode_string alloc_failed h = refl
decode_string invalid_value h = refl
decode_string arch_mismatch h = refl
decode_string mapping_error h = refl
decode_string execution_failed h = refl
decode_string internal_error h = refl
decode_string matrix_type_not_supported h = refl
decode_string zero_pivot h = refl
decode_string not_supported h = refl
decode_string insufficient_resources h = refl
decode_string (unlisted n) h = cc

some_inj : (s u : Status) → some s ≡ some u → s ≡ u
some_inj s u h = cc

-- Two listed status codes with the same name are the same.
get_error_name-injective :
    (s u : Status)
    → is_listed s ≡ true
    → is_listed u ≡ true
    → get_error_name s 1 ≡ get_error_name u 1
    → s ≡ u
get_error_name-injective s u hs hu h =
    some_inj s u (sym (decode_name s hs) ∙ ap (λ r. decode name_of listed r.1) h ∙ decode_name u hu)

-- Two listed status codes with the same text are the same.
pub get_error_string-injective :
    (s u : Status)
    → is_listed s ≡ true
    → is_listed u ≡ true
    → get_error_string s 1 ≡ get_error_string u 1
    → s ≡ u
get_error_string-injective s u hs hu h =
    some_inj s u
      (sym (decode_string s hs) ∙ ap (λ r. decode string_of listed r.1) h ∙ decode_string u hu)
