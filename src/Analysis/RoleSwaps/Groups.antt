-- ===== src/Analysis/RoleSwaps/Groups.antt =====
-- The groups of the role swaps.
use mathlib.Core.List.{append_assoc, append-nil}
use integrated_work.Prelude.{
  ℕ, ◌+◌, ◌≡◌, sym, ◌∙◌, ◌&&◌, List, [], ◌∷◌, ◌++◌, keep, length, length-append, if◌then◌else◌,
  arith,
}
use integrated_work.Text.{Text, text_eq}
use integrated_work.Text.Laws.{text_eq_iff}
use integrated_work.Models.{ScanResponse}
use integrated_work.Analysis.RoleSwaps.{EndpointGroups, same_key, append_to, group_all}

-- The responses under a method and a path, or none.
abbrev pub group_at : (method path : Text) → EndpointGroups → List ScanResponse
group_at method path [] = []
group_at method path ((j, g) ∷ groups) =
    if text_eq j.0 method && text_eq j.1 path then g else group_at method path groups

abbrev pub sizes : EndpointGroups → ℕ
sizes [] = 0
sizes ((j, g) ∷ groups) = length g + sizes groups

group_at-append_to :
    (method path m p : Text) (r : ScanResponse) (groups : EndpointGroups)
    → group_at method path (append_to (m, p) r groups) ≡ (
        if text_eq m method && text_eq p path
        then group_at method path groups ++ r ∷ []
        else group_at method path groups)
unfolding append_to same_key
group_at-append_to method path m p r [] = ground arith
group_at-append_to method path m p r ((j, g) ∷ groups) = ground (
  arith,
  text_eq_iff j.0 m,
  text_eq_iff j.1 p,
  text_eq_iff j.0 method,
  text_eq_iff j.1 path,
  text_eq_iff m method,
  text_eq_iff p path,
  group_at-append_to method path m p r groups,
)

sizes-append_to :
    (key : Text × Text) (r : ScanResponse) (groups : EndpointGroups)
    → sizes (append_to key r groups) ≡ sizes groups + 1
unfolding append_to
sizes-append_to key r [] = omega arith
sizes-append_to key r ((j, g) ∷ groups) =
    ground (arith, sizes-append_to key r groups, length-append g (r ∷ []))

group_at-group_from :
    (method path : Text) (rs : List ScanResponse) (groups : EndpointGroups)
    → (group_at method path (group_all rs groups)
        ≡ group_at method path groups
          ++ keep (λ r. text_eq r.method method && text_eq r.endpoint path) rs)
      × (sizes (group_all rs groups) ≡ sizes groups + length rs)
unfolding group_all keep
group_at-group_from method path [] groups =
    (sym (append-nil (group_at method path groups)), omega arith)
group_at-group_from method path (r ∷ rs) groups =
    let key : Text × Text = (r.method, r.endpoint) in
    let rest = group_at-group_from method path rs (append_to key r groups) in
    let others = keep (λ x. text_eq x.method method && text_eq x.endpoint path) rs in
    (
      ground (
        arith,
        rest.0,
        group_at-append_to method path r.method r.endpoint r groups,
        append_assoc (group_at method path groups) (r ∷ []) others,
      ),
      omega (arith, rest.1, sizes-append_to key r groups),
    )

-- The group of a method and a path is made of the responses with this method and this path, in their
-- order, and no others; and the groups have together as many members as there are responses, so none is
-- lost and none counted twice.
pub group_at-group_all :
    (method path : Text) (rs : List ScanResponse)
    → (group_at method path (group_all rs [])
        ≡ keep (λ r. text_eq r.method method && text_eq r.endpoint path) rs)
      × (sizes (group_all rs []) ≡ length rs)
group_at-group_all method path rs =
    let (members, size) = group_at-group_from method path rs [] in (members, size ∙ omega arith)
