-- ===== src/Api/Middleware/Bucket.antt =====
-- What the bucket of a client has to do with the times at which it was admitted.
use integrated_work.Prelude.{
  ℕ, ◌+◌, ◌-◌, ◌≤◌, ◌<◌, ◌≡◌, refl, ap, sym, ◌∙◌, Bool, true, false, not, ◌&&◌, List, [], ◌∷◌, ◌++◌,
  keep, length, length-append, keep-append, All, All-append, All-map, All-keep, leb, ltb,
  if◌then◌else◌, arith, Bool-cases, inl, inr,
}
use integrated_work.Api.Middleware.{window, drop_old, Outcome, passed, retry_after, admit}

abbrev pub recent : (now : ℕ) → ℕ → Bool
recent now t = not (ltb window (now - t))

-- The sixty seconds from t on.
abbrev pub within : (t : ℕ) → ℕ → Bool
within t s = leb t s && leb s (t + window)

keep-count-le :
    (p q : ℕ → Bool) (xs : List ℕ)
    → ((x : ℕ) → p x ≡ true → q x ≡ true)
    → length (keep p xs) ≤ length (keep q xs)
unfolding keep
keep-count-le p q [] f = omega arith
keep-count-le p q (x ∷ xs) f = ground (arith, keep-count-le p q xs f, f x)

pub keep-recent :
    (n now : ℕ) (xs : List ℕ)
    → n ≤ now
    → keep (recent now) (keep (recent n) xs) ≡ keep (recent now) xs
unfolding keep
keep-recent n now [] h = refl
keep-recent n now (x ∷ xs) h = ground (arith, keep-recent n now xs h)

-- In a list that does not go back, nothing behind a recent time is old.
abbrev pub Sorted : List ℕ → Type 0
Sorted [] = Unit
Sorted (x ∷ xs) = All (λ y. x ≤ y) xs × Sorted xs

keep-all_recent :
    (now x : ℕ) (xs : List ℕ)
    → recent now x ≡ true
    → All (λ y. x ≤ y) xs
    → keep (recent now) xs ≡ xs
unfolding keep
keep-all_recent now x [] e h = refl
keep-all_recent now x (y ∷ xs) e h = ground (arith, keep-all_recent now x xs e h.1, h.0)

pub drop_old-recent : (now : ℕ) (xs : List ℕ) → Sorted xs → drop_old now xs ≡ keep (recent now) xs
unfolding drop_old keep
drop_old-recent now [] h = refl
drop_old-recent now (x ∷ xs) h =
    ground (arith, drop_old-recent now xs h.1, keep-all_recent now x xs, h.0)

drop_old-Sorted : (now : ℕ) (xs : List ℕ) → Sorted xs → Sorted (drop_old now xs)
unfolding drop_old
drop_old-Sorted now [] h = tt
drop_old-Sorted now (x ∷ xs) h = elim (Bool-cases (ltb window (now - x))) [
  | inl e ↦ rw (e) (drop_old-Sorted now xs h.1)
  | inr e ↦ rw (e) h
]

append-Sorted : (xs : List ℕ) (n : ℕ) → Sorted xs → All (λ x. x ≤ n) xs → Sorted (xs ++ n ∷ [])
append-Sorted [] n h g = (tt, tt)
append-Sorted (x ∷ xs) n h g =
    (All-append (λ y. x ≤ y) xs (n ∷ []) h.0 (g.0, tt), append-Sorted xs n h.1 g.1)

-- What a bucket b has to do with the times h at which its client was admitted, up to the time n.
pub record Inv (limit n : ℕ) (h b : List ℕ) : Type 0 where
  pub same : keep (recent n) h ≡ keep (recent n) b
  pub sorted : Sorted b
  pub below : All (λ x. x ≤ n) b
  pub bounded : (t : ℕ) → length (keep (within t) h) ≤ limit

pub wait-Inv : (limit n now : ℕ) (h b : List ℕ) → n ≤ now → Inv limit n h b → Inv limit now h b
wait-Inv limit n now h b e v = record {
  same = sym (keep-recent n now h e) ∙ ap (keep (recent now)) v.same ∙ keep-recent n now b e;
  sorted = v.sorted;
  below = All-map (λ x. x ≤ n) (λ x. x ≤ now) b (λ x l. omega (arith, l, e)) v.below;
  bounded = v.bounded;
}

pub drop_old-Inv :
    (limit now : ℕ) (h b : List ℕ) → Inv limit now h b → Inv limit now h (drop_old now b)
drop_old-Inv limit now h b v = record {
  same =
      v.same
      ∙ sym (keep-recent now now b (omega arith))
      ∙ ap (keep (recent now)) (sym (drop_old-recent now b v.sorted));
  sorted = drop_old-Sorted now b v.sorted;
  below = rw (drop_old-recent now b v.sorted) (All-keep (λ x. x ≤ now) (recent now) b v.below);
  bounded = v.bounded;
}

-- One more time in a window that ends no later.
one_more :
    (limit now t : ℕ) (h : List ℕ)
    → length (keep (recent now) h) < limit
    → length (keep (within t) h) ≤ limit
    → length (keep (within t) (h ++ now ∷ [])) ≤ limit
unfolding keep
one_more limit now t h g l = elim (Bool-cases (within t now)) [
  | inl e ↦
      rw (keep-append (within t) h (now ∷ []), length-append (keep (within t) h) _, e)
        (omega (arith, keep-count-le (within t) (recent now) h (λ x f. ground arith), g))
  | inr e ↦
      rw (keep-append (within t) h (now ∷ []), length-append (keep (within t) h) _, e)
        (omega (arith, l))
]

abbrev pub is_passed : Outcome → Bool
is_passed passed = true
is_passed _ = false

retry_after-is_passed : (now : ℕ) (b : List ℕ) → is_passed (retry_after now b) ≡ false
unfolding retry_after
retry_after-is_passed now [] = refl
retry_after-is_passed now (x ∷ b) = refl

passed-Inv :
    (limit now : ℕ) (h b : List ℕ)
    → keep (recent now) b ≡ b
    → length b < limit
    → Inv limit now h b
    → Inv limit now (h ++ now ∷ []) (b ++ now ∷ [])
passed-Inv limit now h b full l v = record {
  same =
      keep-append (recent now) h (now ∷ [])
      ∙ ap (λ xs. xs ++ keep (recent now) (now ∷ [])) v.same
      ∙ sym (keep-append (recent now) b (now ∷ []));
  sorted = append-Sorted b now v.sorted v.below;
  below = All-append (λ x. x ≤ now) b (now ∷ []) v.below (omega arith, tt);
  bounded = λ t. one_more limit now t h (rw (v.same, full) l) (v.bounded t);
}

pub admit-Inv :
    (limit now : ℕ) (h b : List ℕ)
    → keep (recent now) b ≡ b
    → Inv limit now h b
    → Inv limit now
        (if is_passed (admit limit now b).0 then h ++ now ∷ [] else h)
        (admit limit now b).1
unfolding admit
admit-Inv limit now h b full v = elim (Bool-cases (leb limit (length b))) [
  | inl e ↦ rw (e, retry_after-is_passed now b) v
  | inr e ↦ rw (e) (passed-Inv limit now h b full (ground arith) v)
]
