-- ===== src/Classifier/Severity.antt =====
-- `_score_bola` and `_score_bfla` of issue_classifier.py.
pub mod Order
use integrated_work.Prelude.{
  ℕ, Bool, true, false, ◌&&◌, ◌||◌, List, [], ◌∷◌, any, length, leb, if◌then◌else◌,
}
use integrated_work.Text.{Text, txt, text_eq, lower, upper, has_part}
use integrated_work.Models.{DiffResult, SeverityLevel, critical, high, medium}

-- any(h in text for h in hints)
unfoldable pub has_hint : List Text → Text → Bool
unfolding any has_part
has_hint hints s = any (λ h. has_part s h) hints

abbrev pub pii_keywords : List Text
pii_keywords =
    txt "email"
    ∷ txt "phone"
    ∷ txt "ssn"
    ∷ txt "password"
    ∷ txt "address"
    ∷ txt "dob"
    ∷ txt "credit"
    ∷ txt "token"
    ∷ []

unfoldable pub has_pii : List Text → Bool
unfolding has_hint lower any
has_pii fields = any (λ f. has_hint pii_keywords (lower f)) fields

unfoldable pub score_bola : DiffResult → SeverityLevel
score_bola diff =
    if has_pii diff.leaked_fields || leb 9000 diff.body_similarity
    then critical
    else if leb 7000 diff.body_similarity || leb 5 (length diff.leaked_fields)
    then high
    else medium

abbrev pub admin_words : List Text
admin_words =
    txt "admin"
    ∷ txt "manage"
    ∷ txt "config"
    ∷ txt "setting"
    ∷ txt "role"
    ∷ txt "permission"
    ∷ txt "internal"
    ∷ []

unfoldable pub is_destructive : Text → Bool
unfolding upper text_eq
is_destructive method =
    text_eq (upper method) (txt "DELETE")
    || text_eq (upper method) (txt "PUT")
    || text_eq (upper method) (txt "PATCH")

unfoldable pub score_bfla : DiffResult → SeverityLevel
unfolding has_hint is_destructive lower
score_bfla diff =
    let destructive = is_destructive diff.method in
    let admin_hints = has_hint admin_words (lower diff.endpoint) in
    if destructive && admin_hints
    then critical
    else if destructive || admin_hints
    then high
    else medium
