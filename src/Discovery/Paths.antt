-- ===== src/Discovery/Paths.antt =====
-- `_normalize_path` of endpoint_discovery.py.
pub mod Normal
use integrated_work.Prelude.{
  ℕ, Bool, true, false, not, ◌&&◌, List, [], ◌∷◌, length, nonempty, ltb, ◌==◌, if◌then◌else◌,
}
use integrated_work.Text.{Text}

-- s.startswith("/") and s.endswith("/")
unfoldable pub starts_slash : Text → Bool
starts_slash [] = false
starts_slash (c ∷ s) = c == b'/'

unfoldable pub ends_slash : Text → Bool
ends_slash [] = false
ends_slash (c ∷ []) = c == b'/'
ends_slash (c ∷ d ∷ s) = ends_slash (d ∷ s)

-- re.sub(r"/+", "/", path)
unfoldable pub squeeze : Text → Text
unfolding starts_slash
squeeze [] = []
squeeze (c ∷ s) = let rest = squeeze s in if c == b'/' && starts_slash rest then rest else c ∷ rest

-- s.rstrip("/")
unfoldable pub rstrip_slash : Text → Text
rstrip_slash [] = []
rstrip_slash (c ∷ s) =
    let rest = rstrip_slash s in if c == b'/' && not (nonempty rest) then [] else c ∷ rest

trim_slash : Text → Text
unfolding rstrip_slash ends_slash
trim_slash s = if ltb 1 (length s) && ends_slash s then rstrip_slash s else s

lead_slash : Text → Text
unfolding starts_slash
lead_slash s = if starts_slash s then s else b'/' ∷ s

unfoldable pub normalize_path : Text → Text
unfolding squeeze trim_slash lead_slash
normalize_path path = if nonempty path then lead_slash (trim_slash (squeeze path)) else b'/' ∷ []
