-- ===== src/Platform/Input.antt =====
-- `validate_run_input_values` of backend/moyuan_web/v1/models.py: a resume payload against the
-- fields of the interruption that it answers. `iso_date` is
-- `date.fromisoformat(value).isoformat()`, with `none` for its ValueError.
use Prim.Native.Nat.{◌^◌, ◌-◌}
use Prim.Native.String.{count}
use route_pilot.Common.{
  ℕ, String, Bool, true, false, ◌&&◌, ◌||◌, not, Option, none, some, List, [], ◌∷◌, ltb, leb, eqb,
  if◌then◌else◌, any, all, is_some,
}
use route_pilot.Common.Eq.{◌==◌, text_equality}
use route_pilot.Common.Dict.{Dict, lookup, insert}
use route_pilot.Common.Exec.{Result, ok, err}
use route_pilot.Common.Json.{Json, ℤ, pos, negsuc, is_finite, items}
use route_pilot.Common.Outcome.{present, check, ◌>>=◌, ◌>>◌}
use route_pilot.Common.Text.{strip}
use route_pilot.Platform.Models.{RunInputField, RunPendingInput, InputType}

-- The exceptions that leave the function.
pub data InputFault : Type 0 where
  value_fault overflow_fault : InputFault

abbrev pub Validated : Type 0 → Type 0
Validated = Result InputFault

-- `{field.field_id: field for field in pending.fields}`.
unfoldable pub index_fields :
    Dict String RunInputField → List RunInputField → Dict String RunInputField
index_fields d [] = d
index_fields d (f ∷ rest) = index_fields (insert f.field_id f d) rest

-- The least integer that `float` rounds to infinity.
abbrev pub float_limit : ℕ
float_limit = 2 ^ 1024 - 2 ^ 970

-- `float(value)` of an integer raises OverflowError beyond the range of a float.
unfoldable pub fits_float : ℤ → Bool
fits_float (pos n) = ltb n float_limit
fits_float (negsuc n) = ltb (Prim.Native.Nat.suc n) float_limit

unfoldable pub valid_number : Json → Validated Json
unfolding fits_float
valid_number (Json.int n) = if fits_float n then ok (Json.int n) else err overflow_fault
valid_number (Json.float bits) = if is_finite bits then ok (Json.float bits) else err value_fault
valid_number _ = err value_fault

unfoldable pub valid_text : Json → Validated Json
valid_text (Json.text t) =
    if not (eqb (count (strip t)) 0) && leb (count t) 2_000
    then ok (Json.text (strip t))
    else err value_fault
valid_text _ = err value_fault

unfoldable pub is_option : List String → Json → Bool
is_option options (Json.text t) = any (λ o. o == t) options
is_option options _ = false

unfoldable pub valid_single : List String → Json → Validated Json
unfolding is_option
valid_single options value = if is_option options value then ok value else err value_fault

same_text : Json → Json → Bool
same_text (Json.text s) (Json.text t) = s == t
same_text _ _ = false

-- `len(value) == len(set(value))`, of texts.
unfoldable pub are_distinct : List Json → Bool
unfolding same_text
are_distinct [] = true
are_distinct (x ∷ rest) = not (any (same_text x) rest) && are_distinct rest

unfoldable pub valid_multi : List String → Json → Validated Json
unfolding is_option are_distinct
valid_multi options (Json.arr xs) =
    if all (is_option options) (items xs) && are_distinct (items xs)
    then ok (Json.arr xs)
    else err value_fault
valid_multi options _ = err value_fault

unfoldable pub valid_confirmation : Json → Validated Json
valid_confirmation (Json.bool b) = ok (Json.bool b)
valid_confirmation _ = err value_fault

-- `set(values) - set(fields)` is empty.
unfoldable pub all_known : Dict String RunInputField → Dict String Json → Bool
all_known fields values = all (λ entry. is_some (lookup entry.0 fields)) values

unfoldable pub all_supplied : List RunInputField → Dict String Json → Bool
all_supplied fields values = all (λ f. not f.required || is_some (lookup f.field_id values)) fields

module _ (iso_date : String → Option String) where
  unfoldable pub valid_date : Json → Validated Json
  valid_date (Json.text t) = elim (iso_date t) [
    | none ↦ err value_fault
    | some d ↦ ok (Json.text d)
  ]
  valid_date _ = err value_fault

  unfoldable pub valid_value : InputType → List String → Json → Validated Json
  unfolding valid_text valid_number valid_single valid_multi valid_confirmation valid_date
  valid_value InputType.text options value = valid_text value
  valid_value InputType.date options value = valid_date value
  valid_value InputType.number options value = valid_number value
  valid_value InputType.single_select options value = valid_single options value
  valid_value InputType.multi_select options value = valid_multi options value
  valid_value InputType.confirmation options value = valid_confirmation value

  -- The loop over `values.items()`; keys of a dict are distinct, so each one is new.
  unfoldable pub normalize :
      Dict String RunInputField → Dict String Json → Validated (Dict String Json)
  unfolding valid_value
  normalize fields [] = ok []
  normalize fields ((id, value) ∷ rest) =
      let others = normalize fields rest in
      do
        f ← present (lookup id fields) value_fault
        checked ← valid_value f.input_type f.options value
        more ← others
        ok ((id, checked) ∷ more)

  unfoldable pub validate_run_input_values :
      RunPendingInput → Dict String Json → Validated (Dict String Json)
  unfolding index_fields all_known all_supplied normalize
  validate_run_input_values pending values =
      let fields = index_fields [] pending.fields in
      do
        check (all_known fields values) value_fault
        check (all_supplied pending.fields values) value_fault
        normalize fields values
