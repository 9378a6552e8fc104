-- ===== src/Api/Scores.antt =====
-- The scores of executor/api/routes.py: of the dashboard, of analyze_jwt_token and of the route
-- compare_responses, for what they have read.
pub mod Order
use integrated_work.Prelude.{
  ℕ, ◌+◌, ◌-◌, ◌*◌, Bool, true, false, not, ◌&&◌, ◌||◌, Option, none, some, List, [], ◌∷◌, ◌++◌,
  keep, any, nonempty, length, ltb, ◌==◌, if◌then◌else◌,
}
use integrated_work.Text.{Text, txt, text_eq, contains, upper, lower}
use integrated_work.Dict.{Dict, get, has, keys}
use integrated_work.Json.{Value, truthy}

-- critical_count, high_count, medium_count and low_count
pub record Counts : Type 0 where
  pub critical_count : ℕ
  pub high_count : ℕ
  pub medium_count : ℕ
  pub low_count : ℕ

-- One vulnerability, by its severity.
unfoldable pub count_severity : Text → Counts → Counts
unfolding upper text_eq
count_severity severity c =
    let sev = upper severity in
    if text_eq sev (txt "CRITICAL")
    then record c { critical_count = c.critical_count + 1 }
    else if text_eq sev (txt "HIGH")
    then record c { high_count = c.high_count + 1 }
    else if text_eq sev (txt "MEDIUM")
    then record c { medium_count = c.medium_count + 1 }
    else if text_eq sev (txt "LOW")
    then record c { low_count = c.low_count + 1 }
    else c

unfoldable pub count_severities : List Text → Counts → Counts
count_severities [] c = c
count_severities (s ∷ severities) c = count_severities severities (count_severity s c)

-- A scan whose report raises is passed over.
unfoldable pub count_reports : List (Option (List Text)) → Counts → Counts
count_reports [] c = c
count_reports (none ∷ reports) c = count_reports reports c
count_reports (some severities ∷ reports) c = count_reports reports (count_severities severities c)

unfoldable pub total_vulns : Counts → ℕ
total_vulns c = c.critical_count + c.high_count + c.medium_count + c.low_count

-- max(0, min(100, 100 - …)); the subtraction stops at 0.
unfoldable pub security_score : Counts → ℕ
security_score c =
    100 - (c.critical_count * 15 + c.high_count * 10 + c.medium_count * 5 + c.low_count * 1)

unfoldable pub risk_score : Counts → ℕ
risk_score c =
    if ltb 0 c.critical_count
    then 95
    else if ltb 0 c.high_count
    then 75
    else if ltb 0 c.medium_count
    then 45
    else if ltb 0 c.low_count
    then 15
    else 0

pub data Severity : Type 0 where
  critical high medium low : Severity

-- A vulnerability of a token, with its type; the description and the advice are texts that go with it.
pub record Weakness : Type 0 where
  pub severity : Severity
  pub type : Text

-- What analyze_jwt_token reads: the algorithm, and the claims `exp` and `sub`. `lapsed` is whether `exp`
-- is in the past, none where the comparison raises.
pub record Token : Type 0 where
  pub alg : Text
  pub exp : Value
  pub lapsed : Option Bool
  pub sub : Value

unfoldable pub algorithm_check : Text → List Weakness
unfolding lower text_eq
algorithm_check alg =
    if text_eq (lower alg) (txt "none")
    then record { severity = critical; type = txt "Algorithm 'none' Allowed" } ∷ []
    else if text_eq (lower alg) (txt "hs256")
    then record { severity = medium; type = txt "Weak Symmetric Key Risk" } ∷ []
    else []

unfoldable pub lapsed_check : Option Bool → List Weakness
lapsed_check (some true) = record { severity = low; type = txt "Expired Token" } ∷ []
lapsed_check _ = []

unfoldable pub expiration_check : Token → List Weakness
unfolding truthy lapsed_check
expiration_check t =
    if truthy t.exp
    then lapsed_check t.lapsed
    else record { severity = high; type = txt "Missing Expiration Claim" } ∷ []

unfoldable pub subject_check : Value → List Weakness
unfolding truthy
subject_check sub =
    if truthy sub then [] else record { severity = medium; type = txt "Missing Subject Claim" } ∷ []

unfoldable pub weaknesses : Token → List Weakness
unfolding algorithm_check expiration_check subject_check
weaknesses t = algorithm_check t.alg ++ (expiration_check t ++ subject_check t.sub)

unfoldable pub is_critical : Weakness → Bool
is_critical v = elim v.severity [ critical ↦ true | _ ↦ false ]

unfoldable pub is_high : Weakness → Bool
is_high v = elim v.severity [ high ↦ true | _ ↦ false ]

unfoldable pub is_medium : Weakness → Bool
is_medium v = elim v.severity [ medium ↦ true | _ ↦ false ]

unfoldable pub token_risk : List Weakness → ℕ
unfolding any is_critical is_high is_medium
token_risk vs =
    if any is_critical vs
    then 100
    else if any is_high vs
    then 70
    else if any is_medium vs
    then 40
    else 10

-- A token that cannot be read has one vulnerability, and this risk.
unfoldable pub analyze_jwt_token : Option Token → List Weakness × ℕ
analyze_jwt_token none = (record { severity = high; type = txt "Malformed Token" } ∷ [], 80)
analyze_jwt_token (some t) = (weaknesses t, token_risk (weaknesses t))

abbrev pub sensitive_fields : List Text
sensitive_fields =
    txt "email"
    ∷ txt "phone"
    ∷ txt "ssn"
    ∷ txt "address"
    ∷ txt "balance"
    ∷ txt "credit_card"
    ∷ txt "password"
    ∷ []

-- f in json_b and json_b[f] == json_a.get(f); `same` is the equality of JSON values, with None for a key
-- that is missing.
unfoldable pub is_leaked :
    (same : Value → Option Value → Bool) → Dict Value → Dict Value → Text → Bool
unfolding get
is_leaked same a b f = elim (get f b) [ none ↦ false | some v ↦ same v (get f a) ]

unfoldable pub leaked_fields :
    (same : Value → Option Value → Bool) → Dict Value → Dict Value → List Text
unfolding keep is_leaked
leaked_fields same a b = keep (is_leaked same a b) sensitive_fields

-- A body as the route sees it: a dict or not.
unfoldable pub leak_detected :
    (same : Value → Option Value → Bool)
    → (status_a status_b : ℕ) → (json_a json_b : Option (Dict Value)) → Bool
unfolding leaked_fields
leak_detected same status_a status_b (some a) (some b) =
    status_a == 200 && status_b == 200 && nonempty (leaked_fields same a b)
leak_detected same status_a status_b _ _ = false

unfoldable pub diff_risk : (leak diff_status : Bool) → ℕ
diff_risk leak diff_status = if leak then 90 else if diff_status then 40 else 10
