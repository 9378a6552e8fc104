-- ===== src/Analysis/RoleSwaps.antt =====
-- get_scan_role_swaps of executor/api/routes.py: the saved responses of a scan, compared in groups.
pub mod Groups
use integrated_work.Prelude.{
  ℕ, zero, suc, Bool, true, false, not, ◌&&◌, Option, none, some, List, [], ◌∷◌, ◌++◌, map, keep,
  any, extend_all, nonempty, if◌then◌else◌,
}
use integrated_work.Text.{Text, txt, text_eq, lower}
use integrated_work.Models.{ScanResponse}
use integrated_work.Runtime.{Runtime}
use integrated_work.DiffEngine.Compare.{compare_responses}
use integrated_work.Analysis.{
  Parsers, TaskRow, SavedResponse, authorization, text_or, read_identity, to_response, answered,
}

module _ (parsers : Parsers) where
  -- urlparse(task.url).path or task.url
  unfoldable pub path_or_url : Text → Text
  unfolding text_eq
  path_or_url url = let path = parsers.path_of url in if text_eq path [] then url else path

  unfoldable pub swap_response : (now status : ℕ) → TaskRow → SavedResponse → ScanResponse
  swap_response now status task resp =
      to_response parsers (path_or_url task.url)
        (read_identity parsers (txt "user") (txt "unknown") (txt "guest") (txt "anonymous")
          (authorization task.headers))
        now status task resp

-- (r.role or "").lower() == "admin"
unfoldable pub is_admin : ScanResponse → Bool
unfolding lower text_eq
is_admin r = text_eq (lower (text_or [] r.role)) (txt "admin")

-- endpoint_groups: the pairs of a method and a path, in insertion order, with the responses of each
abbrev pub EndpointGroups : Type 0
EndpointGroups = List ((Text × Text) × List ScanResponse)

unfoldable pub same_key : (Text × Text) → (Text × Text) → Bool
same_key j k = text_eq j.0 k.0 && text_eq j.1 k.1

-- endpoint_groups[key].append(tll_resp), of a defaultdict(list)
unfoldable pub append_to : (Text × Text) → ScanResponse → EndpointGroups → EndpointGroups
unfolding same_key
append_to key r [] = (key, r ∷ []) ∷ []
append_to key r ((j, g) ∷ groups) =
    let rest = append_to key r groups in
    if same_key j key then (j, g ++ r ∷ []) ∷ groups else (j, g) ∷ rest

-- The loop; key = (task.method, path), of which the response is made.
unfoldable pub group_all : List ScanResponse → EndpointGroups → EndpointGroups
group_all [] groups = groups
group_all (r ∷ rs) groups = group_all rs (append_to (r.method, r.endpoint) r groups)

-- The two loops over admins and others.
unfoldable pub product_of :
    List ScanResponse → List ScanResponse → List (ScanResponse × ScanResponse)
product_of admins others = extend_all (λ a. map (λ o. (a, o)) others) admins

-- The first response stands in for the admins, where there are two responses or more.
unfoldable pub swaps_without_admin : List ScanResponse → List (ScanResponse × ScanResponse)
swaps_without_admin [] = []
swaps_without_admin (r ∷ []) = []
swaps_without_admin (r ∷ s ∷ rs) = product_of (r ∷ []) (s ∷ rs)

unfoldable pub swap_pairs : List ScanResponse → List (ScanResponse × ScanResponse)
swap_pairs responses =
    let admins = keep is_admin responses in
    let others = keep (λ r. not (is_admin r)) responses in
    if nonempty admins then product_of admins others else swaps_without_admin responses

pub record RoleSwap : Type 0 where
  pub endpoint : Text
  pub method : Text
  pub source_role : Option Text
  pub target_role : Option Text
  pub bypass : Bool
  pub source_status_code : ℕ
  pub target_status_code : ℕ

module _ (rt : Runtime) (parsers : Parsers) where
  -- compare_responses has the threshold 0.65 by default; `status` and `detail` are texts of `bypass`.
  unfoldable pub role_swap : ScanResponse × ScanResponse → RoleSwap
  role_swap (admin, other) = record {
    endpoint = admin.endpoint;
    method = admin.method;
    source_role = admin.role;
    target_role = other.role;
    bypass = (compare_responses rt admin other 6500).is_anomaly;
    source_status_code = admin.status_code;
    target_status_code = other.status_code;
  }

  unfoldable pub get_scan_role_swaps : (now : ℕ) → List TaskRow → List RoleSwap
  get_scan_role_swaps now tasks =
      extend_all (λ g. map role_swap (swap_pairs g.1))
        (group_all (extend_all (answered (swap_response parsers now)) tasks) [])
