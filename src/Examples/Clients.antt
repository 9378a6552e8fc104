-- ===== src/Examples/Clients.antt =====
-- A client that asks three times within twenty seconds, with a limit of two.
use integrated_work.Api.Middleware.{retry_after}
use integrated_work.Dict.{put}
use integrated_work.Dict.{get}
use integrated_work.Api.Middleware.{bucket_of}
use integrated_work.Api.Middleware.{drop_old}
use integrated_work.Api.Middleware.{admit}
use integrated_work.Text.{split_on}
use integrated_work.Text.{strip}
use integrated_work.Text.{text_eq}
use integrated_work.Prelude.{
  ℕ, ◌≤◌, ◌≡◌, refl, true, none, some, List, [], ◌∷◌, length, keep, arith,
}
use integrated_work.Text.{txt}
use integrated_work.Api.Middleware.{
  Request, Limits, passed, limited, client_ip, is_exempt, rate_limit_middleware,
}
use integrated_work.Api.Middleware.Bucket
use integrated_work.Api.Middleware.Window
use integrated_work.Api.Middleware.Retry

abbrev limits : Limits
limits = record {
  rate_limit_enabled = true;
  rate_limit_per_minute = 2;
  request_timeout_seconds = 30;
}

abbrev request : Request
request = record {
  method = txt "GET";
  path = txt "/api/v1/scans";
  forwarded_for = some (txt "10.0.0.1, 10.0.0.9");
  client_host = none;
}

abbrev requests : List (ℕ × Request)
requests = (0, request) ∷ (10000000, request) ∷ []

first_address : client_ip request ≡ txt "10.0.0.1"
unfolding client_ip text_eq strip split_on
first_address = refl

length-times_example :
    length (
      keep
        (Bucket.within 0)
        (Window.times limits (txt "10.0.0.1") (Window.run limits requests []).0))
    ≤ 2
length-times_example = Window.length-times limits (txt "10.0.0.1") requests 0 refl

limited_test :
    (rate_limit_middleware limits 20000000 request (Window.run limits requests []).1).0 ≡ limited 41
unfolding rate_limit_middleware is_exempt admit drop_old bucket_of get Window.run put client_ip
    strip split_on retry_after
limited_test = refl

-- Another client, in between.
abbrev between : List (ℕ × Request)
between = (30000000, record request { forwarded_for = some (txt "10.0.0.2") }) ∷ []

served_after_wait_example :
    (rate_limit_middleware limits 61000000 request
      (Window.run limits between
        (rate_limit_middleware limits 20000000 request (Window.run limits requests []).1).1).1).0
    ≡ passed
unfolding is_exempt Retry.of_others client_ip text_eq strip split_on
served_after_wait_example =
    Retry.served_after_wait limits requests between 20000000 61000000 41 request refl (omega arith)
      (omega arith) refl refl limited_test (omega arith)
