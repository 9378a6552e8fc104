-- ===== src/Examples/Samples.antt =====
-- A runtime that meets the laws, and small responses.
use integrated_work.Prelude.{
  ℕ, zero, suc, ◌+◌, ◌*◌, ◌≤◌, ◌≡◌, refl, ap, Bool, true, ◌&&◌, none, some, [], ◌∷◌, arith, length,
  if◌then◌else◌, and_cases, leb,
}
use integrated_work.Text.{Text, txt, text_eq}
use integrated_work.Text.Laws.{text_eq_iff, text_eq_refl}
use integrated_work.Json.{Value, int, str, arr, obj, nil, cons, end, field}
use integrated_work.Models.{ScanResponse}
use integrated_work.Runtime.{Runtime}
use integrated_work.DiffEngine.Compare.{opt_eq}
use integrated_work.DiffEngine.Compare.Anomaly.{opt_eq_refl, opt_eq→eq}

-- Equal texts match whole, others not at all.
abbrev pub match_whole : Text → Text → ℕ
match_whole a b = if text_eq a b then length a else 0

pub match_whole_le : (a b : Text) → 2 * match_whole a b ≤ length a + length b
match_whole_le a b = ground (arith, text_eq_iff a b, λ (e : a ≡ b). ap (λ (t : Text). length t) e)

pub match_whole_self : (a : Text) → match_whole a a ≡ length a
match_whole_self a = ground (arith, text_eq_refl a)

-- The n-th identifier is n strokes.
abbrev pub strokes : ℕ → Text
strokes zero = []
strokes (suc n) = b'|' ∷ strokes n

abbrev pub same_sender : ScanResponse → ScanResponse → Bool
same_sender a b = opt_eq a.role b.role && text_eq a.url b.url

pub same_sender_refl : (a : ScanResponse) → same_sender a a ≡ true
same_sender_refl a = ground (arith, opt_eq_refl a.role, text_eq_refl a.url)

pub same_sender_role : (a b : ScanResponse) → same_sender a b ≡ true → a.role ≡ b.role
same_sender_role a b h = opt_eq→eq a.role b.role (and_cases _ _ h).0

abbrev pub sample : Runtime
sample = record {
  matches = match_whole;
  matches_le = match_whole_le;
  matches_self = match_whole_self;
  listing = λ s. s;
  contains-listing = λ x s. refl;
  length-listing = λ s. refl;
  uuid = strokes;
  is_decimal = λ c. leb b'0' c && leb c b'9';
  utcnow = λ n. n;
  same = same_sender;
  same_refl = same_sender_refl;
  same_role = same_sender_role;
}

-- {"id": 42, "user": {"email": "a@b"}}
abbrev pub profile : Value
profile = obj (
    field (txt "id") (int 42)
      (field (txt "user") (obj (field (txt "email") (str (txt "a@b")) end)) end))

-- {"id": 7, "tags": ["x"]}
abbrev pub other_profile : Value
other_profile =
    obj (field (txt "id") (int 7) (field (txt "tags") (arr (cons (str (txt "x")) nil)) end))

abbrev pub response : Text → Text → Text → ℕ → Text → Value → ScanResponse
response user role tenant status body json = record {
  endpoint = txt "/users/42";
  method = txt "GET";
  url = txt "http://api/users/42";
  status_code = status;
  headers = [];
  body = some body;
  body_json = json;
  user_id = some user;
  role = some role;
  tenant_id = some tenant;
  token = none;
  request_headers = [];
  request_body = none;
  latency_ms = none;
  timestamp = 0;
}

abbrev pub owner : ScanResponse
owner = response (txt "1") (txt "admin") (txt "acme") 200 (txt "{42}") profile

-- Another user of another tenant, who is shown the same body.
abbrev pub intruder : ScanResponse
intruder = response (txt "2") (txt "user") (txt "zeta") 200 (txt "{42}") profile

-- A user who is refused.
abbrev pub refused : ScanResponse
refused = response (txt "3") (txt "guest") (txt "acme") 403 (txt "no") other_profile
