-- ===== src/Runtime.antt =====
-- What the diff pipeline takes from outside the repository, as one parameter: the matcher of
-- `difflib`, the order in which a set is listed, fresh identifiers, the clock, and the equality of
-- dataclass objects, and the digits of Unicode. The laws are what the documentation of these says.
use integrated_work.Prelude.{ℕ, ◌+◌, ◌*◌, ◌≤◌, ◌≡◌, Bool, true, List, length}
use integrated_work.Text.{Text, contains}
use integrated_work.Models.{ScanResponse}

pub record Runtime : Type 0 where
  -- The characters that SequenceMatcher(None, a, b) finds in matching blocks.
  pub matches : Text → Text → ℕ
  pub matches_le : (a b : Text) → 2 * matches a b ≤ length a + length b
  pub matches_self : (a : Text) → matches a a ≡ length a
  -- list(s) of a set: each element once, in an order of the interpreter's own.
  pub listing : List Text → List Text
  pub contains-listing : (x : Text) (s : List Text) → contains x (listing s) ≡ contains x s
  pub length-listing : (s : List Text) → length (listing s) ≡ length s
  -- A character is one that `\d` of a str pattern matches: a decimal digit of Unicode.
  pub is_decimal : ℕ → Bool
  -- str(uuid.uuid4()) and datetime.utcnow(), at the n-th call.
  pub uuid : ℕ → Text
  pub utcnow : ℕ → ℕ
  -- `a is b or a == b`, the test of `in` on a list of dataclass objects.
  pub same : ScanResponse → ScanResponse → Bool
  pub same_refl : (a : ScanResponse) → same a a ≡ true
  pub same_role : (a b : ScanResponse) → same a b ≡ true → a.role ≡ b.role
