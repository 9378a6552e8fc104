-- ===== src/DiffEngine/Ids.antt =====
-- `_extract_ids` of diff_engine.py: the values of a body that look like identifiers.
-- `re.match` anchors at the start alone, so a text that only begins with a UUID counts as one.
pub mod Sound
use integrated_work.Prelude.{
  ℕ, zero, suc, Bool, true, false, ◌&&◌, ◌||◌, Option, none, some, List, [], ◌∷◌, any, length, leb,
  ◌==◌, if◌then◌else◌, is_some,
}
use integrated_work.Text.{Text, txt, lower, has_part, set_add}
use integrated_work.Dict.{Dict}
use integrated_work.Runtime.{Runtime}
use integrated_work.Json.{Value, null, bool, int, neg, real, str, arr, obj, show_scalar}
use integrated_work.DiffEngine.Flatten.{flatten_body}

-- [0-9a-f] under re.I
is_hex : ℕ → Bool
is_hex c = (leb b'0' c && leb c b'9') || (leb b'a' c && leb c b'f') || (leb b'A' c && leb c b'F')

-- What is left of the text after n characters of the class.
hex_run : ℕ → Text → Option Text
unfolding is_hex
hex_run zero s = some s
hex_run (suc n) [] = none
hex_run (suc n) (c ∷ s) = if is_hex c then hex_run n s else none

-- A dash and a run.
dash_run : ℕ → Option Text → Option Text
unfolding hex_run
dash_run n none = none
dash_run n (some []) = none
dash_run n (some (c ∷ s)) = if c == b'-' then hex_run n s else none

-- uuid_pattern.match(s)
unfoldable pub matches_uuid : Text → Bool
unfolding dash_run is_some
matches_uuid s = is_some (dash_run 12 (dash_run 4 (dash_run 4 (dash_run 4 (hex_run 8 s)))))

abbrev pub id_hints : List Text
id_hints = txt "id" ∷ txt "user" ∷ txt "owner" ∷ txt "account" ∷ txt "tenant" ∷ []

-- any(k in key.lower() for k in (…))
unfoldable pub is_id_key : Text → Bool
unfolding lower has_part any
is_id_key key = any (λ k. has_part (lower key) k) id_hints

is_none : Value → Bool
is_none null = true
is_none _ = false

add_id : Option Text → List Text → List Text
unfolding set_add
add_id none ids = ids
add_id (some i) ids = set_add i ids

module _ (rt : Runtime) where
  -- The digits of the text up to its end; `$` also matches before one newline at the end.
  digits_to_end : Text → Option ℕ
  digits_to_end [] = some 0
  digits_to_end (c ∷ []) = if rt.is_decimal c then some 1 else if c == 10 then some 0 else none
  digits_to_end (c ∷ d ∷ s) =
      let rest = digits_to_end (d ∷ s) in
      if rt.is_decimal c then elim rest [ none ↦ none | some n ↦ some (suc n) ] else none

  -- int_id_pattern.match(s): one to twelve digits.
  unfoldable pub matches_int_id : Text → Bool
  unfolding digits_to_end
  matches_int_id s = elim (digits_to_end s) [ none ↦ false | some n ↦ leb 1 n && leb n 12 ]

  -- The identifier, if any, that one flattened pair adds.
  unfoldable pub id_of : Text → Value → Option Text
  unfolding matches_uuid matches_int_id is_id_key is_none show_scalar lower
  id_of key v =
      let s = show_scalar v in
      if is_none v
      then none
      else if matches_uuid s
      then some (lower s)
      else if matches_int_id s && is_id_key key
      then some s
      else none

  unfoldable pub collect_ids : Dict Value → List Text → List Text
  unfolding id_of add_id
  collect_ids [] ids = ids
  collect_ids ((key, v) ∷ flat) ids = collect_ids flat (add_id (id_of key v) ids)

  unfoldable pub extract_ids : Value → List Text
  unfolding collect_ids flatten_body
  extract_ids body = collect_ids (flatten_body body) []
