-- ===== src/Classifier/Severity/Order.antt =====
-- More evidence never lowers the severity of a BOLA finding.
use integrated_work.Prelude.{ℕ, ◌+◌, ◌≤◌, ◌≡◌, ◌||◌, List, ◌++◌, arith, any-append, length-append}
use integrated_work.Text.{Text, lower}
use integrated_work.Models.{DiffResult, severity_score}
use integrated_work.Classifier.Severity.{has_hint, pii_keywords, has_pii, score_bola, score_bfla}

has_pii-append : (xs ys : List Text) → has_pii (xs ++ ys) ≡ (has_pii xs || has_pii ys)
unfolding has_pii
has_pii-append xs ys = any-append (λ f. has_hint pii_keywords (lower f)) xs ys

-- Raising the similarity, or adding fields behind the leaked ones, leaves the score of the severity
-- as it was or raises it; the score is at least that of MEDIUM.
pub score_bola_mono :
    (diff : DiffResult) (more : ℕ) (fields : List Text)
    → (severity_score (score_bola diff)
        ≤ severity_score (
            score_bola (record diff {
              body_similarity = diff.body_similarity + more;
              leaked_fields = diff.leaked_fields ++ fields;
            })))
      × (5 ≤ severity_score (score_bola diff))
unfolding score_bola severity_score
score_bola_mono diff more fields =
    ground
      (arith, has_pii-append diff.leaked_fields fields, length-append diff.leaked_fields fields)

-- No severity below MEDIUM is ever chosen.
pub score_bola_ge : (diff : DiffResult) → 5 ≤ severity_score (score_bola diff)
unfolding score_bola severity_score
score_bola_ge diff = ground arith

pub score_bfla_ge : (diff : DiffResult) → 5 ≤ severity_score (score_bfla diff)
unfolding score_bfla severity_score
score_bfla_ge diff = ground arith
