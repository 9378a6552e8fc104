-- ===== src/Examples/Reported.antt =====
-- An admin and a user who both get the same answer, with tokens that name no user.
use integrated_work.Text.{strip}
use integrated_work.Text.{show_nat}
use integrated_work.Text.{set_add}
use integrated_work.Text.{lstrip}
use integrated_work.Text.{lower}
use integrated_work.Text.{join}
use integrated_work.Text.{is_space}
use integrated_work.Text.{has_part}
use integrated_work.Text.{contains}
use integrated_work.Prelude.{is_some}
use integrated_work.Json.{truthy}
use integrated_work.Json.{show_scalar}
use integrated_work.Json.{scalar_eq}
use integrated_work.DiffEngine.Similarity.{round_half_even}
use integrated_work.DiffEngine.Similarity.{round4}
use integrated_work.DiffEngine.Similarity.{ratio}
use integrated_work.DiffEngine.Similarity.{percent}
use integrated_work.DiffEngine.Similarity.{body_similarity}
use integrated_work.DiffEngine.Similarity.{at_least}
use integrated_work.DiffEngine.Ids.{matches_uuid}
use integrated_work.DiffEngine.Ids.{matches_int_id}
use integrated_work.DiffEngine.Ids.{is_id_key}
use integrated_work.DiffEngine.Ids.{id_of}
use integrated_work.DiffEngine.Ids.{extract_ids}
use integrated_work.DiffEngine.Ids.{collect_ids}
use integrated_work.DiffEngine.Flatten.{item_key}
use integrated_work.DiffEngine.Flatten.{flatten_body}
use integrated_work.DiffEngine.Flatten.{flatten}
use integrated_work.DiffEngine.Flatten.{field_key}
use integrated_work.DiffEngine.Fields.{shared_keys}
use integrated_work.DiffEngine.Fields.{own_keys}
use integrated_work.DiffEngine.Fields.{is_null}
use integrated_work.DiffEngine.Fields.{field_diff}
use integrated_work.DiffEngine.Fields.{diff_of}
use integrated_work.DiffEngine.Fields.{changes_from}
use integrated_work.DiffEngine.Fields.{add_change}
use integrated_work.DiffEngine.Compare.{show_opt}
use integrated_work.DiffEngine.Compare.{same_user}
use integrated_work.DiffEngine.Compare.{opt_eq}
use integrated_work.DiffEngine.Compare.{judge}
use integrated_work.DiffEngine.Compare.{is_ok}
use integrated_work.DiffEngine.Compare.{is_denied}
use integrated_work.DiffEngine.Compare.{given}
use integrated_work.DiffEngine.Compare.{foreign_ids}
use integrated_work.DiffEngine.Compare.{different_tenant}
use integrated_work.DiffEngine.Compare.{compare_responses}
use integrated_work.Dict.{update}
use integrated_work.Dict.{put}
use integrated_work.Dict.{keys}
use integrated_work.Dict.{has}
use integrated_work.Dict.{get}
use integrated_work.Analysis.{request_body}
use integrated_work.Analysis.{parse_body}
use integrated_work.Analysis.{identity_of}
use integrated_work.Analysis.{dict_or}
use integrated_work.Analysis.RoleSwaps.{swaps_without_admin}
use integrated_work.Analysis.RoleSwaps.{role_swap}
use integrated_work.Analysis.RoleSwaps.{product_of}
use integrated_work.Analysis.{authorization}
use integrated_work.Analysis.{read_identity}
use integrated_work.Analysis.{text_or}
use integrated_work.Analysis.RoleSwaps.{is_admin}
use integrated_work.Prelude.{keep}
use integrated_work.Analysis.RoleSwaps.{swap_pairs}
use integrated_work.Analysis.RoleSwaps.{path_or_url}
use integrated_work.Analysis.{to_response}
use integrated_work.Analysis.RoleSwaps.{swap_response}
use integrated_work.Text.{text_eq}
use integrated_work.Analysis.RoleSwaps.{same_key}
use integrated_work.Analysis.RoleSwaps.{append_to}
use integrated_work.Analysis.{with_status}
use integrated_work.Analysis.{answered_by}
use integrated_work.Analysis.RoleSwaps.{group_all}
use integrated_work.Prelude.{extend_all}
use integrated_work.Text.{starts_with}
use integrated_work.Prelude.{
  ◌&&◌, ◌≡◌, refl, false, none, some, List, [], ◌∷◌, ◌++◌, map, keep, length, extend_all, arith,
}
use integrated_work.Text.{Text, txt}
use integrated_work.Json.{null}
use integrated_work.Analysis.{
  TokenClaims, Parsers, SavedResponse, TaskRow, without_bearer, answered, generate_report,
}
use integrated_work.Analysis.Unknown
use integrated_work.Analysis.RoleSwaps.{RoleSwap, get_scan_role_swaps, swap_response, group_all}
use integrated_work.Analysis.RoleSwaps.Groups
use integrated_work.Models.{ScanResponse}
use integrated_work.Examples.Samples.{sample}

-- The text of a token is its role.
abbrev parsers : Parsers
parsers = record {
  claims = λ t. some (record { role = some t; user_id = none });
  loads = λ t. none;
  dumps = λ v. [];
  path_of = λ url. url;
}

abbrev same_answer : SavedResponse
same_answer = record {
  status_code = some 200;
  response_headers = none;
  response_body = some (txt "secret");
  latency_ms = none;
}

abbrev as_role : Text → TaskRow
as_role token = record {
  method = txt "GET";
  url = txt "/users/1";
  headers = some ((txt "Authorization", txt "Bearer " ++ token) ∷ []);
  payload = null;
  response = some same_answer;
}

abbrev tasks : List TaskRow
tasks = as_role (txt "admin") ∷ as_role (txt "user") ∷ []

token_read : without_bearer 0 (txt "Bearer admin") ≡ txt "admin"
unfolding without_bearer starts_with
token_read = refl

claims_no_user : (t : Text) (c : TokenClaims) → parsers.claims t ≡ some c → c.user_id ≡ none
claims_no_user t c f = ground arith

as_role-NamesNoUser : (token : Text) → Unknown.NamesNoUser parsers (as_role token)
as_role-NamesNoUser token header c e f = claims_no_user (without_bearer 0 header) c f

issues-generate_report_example :
    (generate_report parsers sample (txt "http://host") (txt "scan") 0 tasks).issues ≡ []
issues-generate_report_example =
    Unknown.issues-generate_report parsers sample (txt "http://host") (txt "scan") 0 tasks
      (as_role-NamesNoUser (txt "admin"), (as_role-NamesNoUser (txt "user"), tt))

-- The swap is not seen either.
swap_missed :
    map (λ (s : RoleSwap). s.bypass) (get_scan_role_swaps sample parsers 0 tasks) ≡ false ∷ []
unfolding get_scan_role_swaps extend_all group_all answered_by with_status append_to same_key
    text_eq swap_response to_response path_or_url swap_pairs keep is_admin text_or read_identity
    authorization product_of role_swap swaps_without_admin dict_or identity_of parse_body
    request_body without_bearer get has keys put update compare_responses different_tenant
    foreign_ids given is_denied is_ok judge opt_eq same_user show_opt add_change changes_from
    diff_of field_diff is_null own_keys shared_keys field_key flatten flatten_body item_key
    collect_ids extract_ids id_of is_id_key matches_int_id matches_uuid at_least body_similarity
    percent ratio round4 round_half_even scalar_eq show_scalar truthy is_some contains has_part
    is_space join lower lstrip set_add show_nat starts_with strip
swap_missed = refl

abbrev responses : List ScanResponse
responses = extend_all (answered (swap_response parsers 0)) tasks

group_at-group_all_example :
    (Groups.group_at (txt "GET") (txt "/users/1") (group_all responses [])
      ≡ keep (λ r. text_eq r.method (txt "GET") && text_eq r.endpoint (txt "/users/1")) responses)
    × (Groups.sizes (group_all responses []) ≡ length responses)
group_at-group_all_example = Groups.group_at-group_all (txt "GET") (txt "/users/1") responses
