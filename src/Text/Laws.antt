-- ===== src/Text/Laws.antt =====
-- Laws of the comparison of texts and of sets of texts.
use integrated_work.Prelude.{
  ◌≡◌, refl, ap, ◌↔◌, Bool, true, ◌&&◌, ◌||◌, List, [], ◌∷◌, ◌++◌, arith, keep,
}
use integrated_work.Text.{Text, text_eq, contains, set_add}

pub text_eq_refl : (s : Text) → text_eq s s ≡ true
unfolding text_eq
text_eq_refl [] = refl
text_eq_refl (a ∷ s) = ground (arith, text_eq_refl s)

text_eq→eq : (s t : Text) → text_eq s t ≡ true → s ≡ t
unfolding text_eq
text_eq→eq [] [] h = refl
text_eq→eq [] (b ∷ t) h = cc
text_eq→eq (a ∷ s) [] h = cc
text_eq→eq (a ∷ s) (b ∷ t) h = ground (arith, text_eq→eq s t)

pub text_eq_iff : (s t : Text) → (text_eq s t ≡ true) ↔ (s ≡ t)
text_eq_iff s t = (text_eq→eq s t, λ e. rw e (text_eq_refl t))

pub contains-append :
    (x : Text) (xs ys : List Text) → contains x (xs ++ ys) ≡ (contains x xs || contains x ys)
unfolding contains
contains-append x [] ys = refl
contains-append x (y ∷ xs) ys = ground (arith, contains-append x xs ys)

pub contains-set_add :
    (x y : Text) (xs : List Text) → contains x (set_add y xs) ≡ (text_eq y x || contains x xs)
unfolding set_add contains
contains-set_add x y xs =
    ground (arith, contains-append x xs (y ∷ []), text_eq_iff y x, contains x xs)

-- A comprehension over texts keeps those that pass the test.
pub contains-keep :
    (x : Text) (p : Text → Bool) (xs : List Text) → contains x (keep p xs) ≡ (contains x xs && p x)
unfolding contains keep
contains-keep x p [] = refl
contains-keep x p (y ∷ xs) =
    ground (arith, contains-keep x p xs, text_eq_iff y x, λ (e : y ≡ x). ap p e)
