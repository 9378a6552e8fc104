-- ===== src/Discovery/Paths/Normal.antt =====
-- The normal form of a path: one leading slash, none doubled, none at the end but that of the root.
use integrated_work.Prelude.{
  ℕ, ◌≡◌, refl, Bool, true, false, not, ◌&&◌, ◌||◌, [], ◌∷◌, arith, length, nonempty, ltb, ◌==◌,
  if◌then◌else◌,
}
use integrated_work.Text.{Text}
use integrated_work.Discovery.Paths.{
  starts_slash, ends_slash, squeeze, rstrip_slash, trim_slash, lead_slash, normalize_path,
}

-- No two slashes stand side by side.
abbrev pub no_double : Text → Bool
unfolding starts_slash
no_double [] = true
no_double (c ∷ s) = not (c == b'/' && starts_slash s) && no_double s

abbrev pub is_root : Text → Bool
is_root [] = false
is_root (c ∷ []) = c == b'/'
is_root (c ∷ d ∷ s) = false

-- The normal form, as a test.
abbrev pub is_normal : Text → Bool
is_normal s = starts_slash s && no_double s && (not (ends_slash s) || is_root s)

no_double-squeeze : (s : Text) → no_double (squeeze s) ≡ true
unfolding squeeze starts_slash
no_double-squeeze [] = refl
no_double-squeeze (c ∷ s) = ground (arith, no_double-squeeze s)

squeeze-no_double : (s : Text) → no_double s ≡ true → squeeze s ≡ s
unfolding squeeze starts_slash
squeeze-no_double [] h = refl
squeeze-no_double (c ∷ s) h = ground (arith, squeeze-no_double s)

starts_slash→nonempty : (s : Text) → starts_slash s ≡ true → nonempty s ≡ true
unfolding starts_slash
starts_slash→nonempty [] h = cc
starts_slash→nonempty (c ∷ s) h = refl

nonempty-squeeze : (s : Text) → nonempty (squeeze s) ≡ nonempty s
unfolding squeeze
nonempty-squeeze [] = refl
nonempty-squeeze (c ∷ s) = ground (arith, starts_slash→nonempty (squeeze s))

no_double-rstrip_slash : (s : Text) → no_double s ≡ true → no_double (rstrip_slash s) ≡ true
unfolding rstrip_slash starts_slash
no_double-rstrip_slash [] h = refl
no_double-rstrip_slash (c ∷ []) h = ground arith
no_double-rstrip_slash (c ∷ d ∷ s) h = ground (arith, no_double-rstrip_slash (d ∷ s))

ends_slash-cons :
    (c : ℕ) (rest : Text)
    → ends_slash rest ≡ false
    → ends_slash (if c == b'/' && not (nonempty rest) then [] else c ∷ rest) ≡ false
unfolding ends_slash
ends_slash-cons c [] h = ground arith
ends_slash-cons c (d ∷ rest) h = ground arith

ends_slash-rstrip_slash : (s : Text) → ends_slash (rstrip_slash s) ≡ false
unfolding rstrip_slash ends_slash
ends_slash-rstrip_slash [] = refl
ends_slash-rstrip_slash (c ∷ s) = ends_slash-cons c (rstrip_slash s) (ends_slash-rstrip_slash s)

-- What `trim_slash` leaves ends in no slash, unless it is one.
short-is_root : (s : Text) → ltb 1 (length s) ≡ false → ends_slash s ≡ true → is_root s ≡ true
unfolding ends_slash
short-is_root [] h e = cc
short-is_root (c ∷ []) h e = e
short-is_root (c ∷ d ∷ s) h e = absurd (ground arith)

trimmed : (s : Text) → (not (ends_slash (trim_slash s)) || is_root (trim_slash s)) ≡ true
unfolding trim_slash
trimmed s = ground (arith, ends_slash-rstrip_slash s, short-is_root s)

no_double-trim_slash : (s : Text) → no_double s ≡ true → no_double (trim_slash s) ≡ true
unfolding trim_slash
no_double-trim_slash s h = ground (arith, no_double-rstrip_slash s)

lead_slash-is_normal :
    (s : Text)
    → no_double s ≡ true
    → (not (ends_slash s) || is_root s) ≡ true
    → is_normal (lead_slash s) ≡ true
unfolding lead_slash starts_slash ends_slash
lead_slash-is_normal [] h g = refl
lead_slash-is_normal (c ∷ []) h g = ground arith
lead_slash-is_normal (c ∷ d ∷ s) h g = ground arith

normalize_path-is_normal : (path : Text) → is_normal (normalize_path path) ≡ true
unfolding normalize_path
normalize_path-is_normal [] = unfold starts_slash ends_slash in refl
normalize_path-is_normal (c ∷ s) =
    lead_slash-is_normal (trim_slash (squeeze (c ∷ s)))
      (no_double-trim_slash (squeeze (c ∷ s)) (no_double-squeeze (c ∷ s)))
      (trimmed (squeeze (c ∷ s)))

trim_slash-normal : (s : Text) → (not (ends_slash s) || is_root s) ≡ true → trim_slash s ≡ s
unfolding trim_slash ends_slash
trim_slash-normal [] h = refl
trim_slash-normal (c ∷ []) h = ground arith
trim_slash-normal (c ∷ d ∷ s) h = ground arith

normalize_path-normal : (s : Text) → is_normal s ≡ true → normalize_path s ≡ s
unfolding normalize_path lead_slash
normalize_path-normal s h =
    ground (arith, squeeze-no_double s, trim_slash-normal s, starts_slash→nonempty s)

-- A normalized path starts with a slash, has no two side by side, and ends in none unless it is the
-- root; and normalizing it again changes nothing.
pub normalize_path_lem :
    (path : Text)
    → (is_normal (normalize_path path) ≡ true)
      × (normalize_path (normalize_path path) ≡ normalize_path path)
normalize_path_lem path = (
  normalize_path-is_normal path,
  normalize_path-normal (normalize_path path) (normalize_path-is_normal path),
)
