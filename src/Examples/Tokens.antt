-- ===== src/Examples/Tokens.antt =====
-- Services that meet the laws: tables as lists, and tokens whose text is the claims.
use integrated_work.Prelude.{
  ℕ, suc, ◌+◌, ◌-◌, ◌≡◌, ◌<◌, ◌≤◌, Option-cases, inl, inr, refl, Bool, false, ◌||◌, Option, none,
  some, List, [], ◌∷◌, keep, any, length, leb, ◌==◌, if◌then◌else◌, arith,
}
use integrated_work.Text.{Text, text_eq, contains}
use integrated_work.Auth.Tokens.{User, Claims, Services, Decoded, decoded, expired, invalid}

-- A text that ends in 0, and what is behind it.
unfoldable pub write_text : Text → Text → Text
write_text [] rest = 0 ∷ rest
write_text (c ∷ s) rest = suc c ∷ write_text s rest

unfoldable pub read_text : Text → Text × Text
read_text [] = ([], [])
read_text (c ∷ s) = let (t, rest) = read_text s in if c == 0 then ([], s) else ((c - 1) ∷ t, rest)

read_text-write_text : (s rest : Text) → read_text (write_text s rest) ≡ (s, rest)
unfolding read_text write_text
read_text-write_text [] rest = refl
read_text-write_text (c ∷ s) rest = ground (arith, read_text-write_text s rest)

unfoldable pub write_claim : Option Text → Text → Text
write_claim none rest = 0 ∷ rest
write_claim (some s) rest = 1 ∷ write_text s rest

unfoldable pub read_claim : Text → Option Text × Text
read_claim [] = (none, [])
read_claim (c ∷ s) = if c == 0 then (none, s) else (some (read_text s).0, (read_text s).1)

read_claim-write_claim :
    (o : Option Text) (rest : Text) → read_claim (write_claim o rest) ≡ (o, rest)
unfolding read_claim write_claim
read_claim-write_claim none rest = refl
read_claim-write_claim (some s) rest = ground (arith, read_text-write_text s rest)

unfoldable pub write_time : Option ℕ → Text → Text
write_time none rest = 0 ∷ rest
write_time (some n) rest = suc n ∷ rest

unfoldable pub read_time : Text → Option ℕ × Text
read_time [] = (none, [])
read_time (c ∷ s) = if c == 0 then (none, s) else (some (c - 1), s)

read_time-write_time : (o : Option ℕ) (rest : Text) → read_time (write_time o rest) ≡ (o, rest)
unfolding read_time write_time
read_time-write_time none rest = refl
read_time-write_time (some n) rest = ground arith

unfoldable pub encode : Claims → Text
encode c = write_claim c.sub (
    write_claim c.role
      (write_claim c.type (write_claim c.jti (write_time c.iat (write_time c.exp [])))))

unfoldable pub parse : Text → Claims
parse t =
    let (sub, t1) = read_claim t in
    let (role, t2) = read_claim t1 in
    let (type, t3) = read_claim t2 in
    let (jti, t4) = read_claim t3 in
    let (iat, t5) = read_time t4 in
    let (exp, t6) = read_time t5 in
    record { sub = sub; role = role; type = type; jti = jti; iat = iat; exp = exp }

pub parse-encode : (c : Claims) → parse (encode c) ≡ c
unfolding parse encode
parse-encode c =
    let t6 : Text = [] in
    let t5 = write_time c.exp t6 in
    let t4 = write_time c.iat t5 in
    let t3 = write_claim c.jti t4 in
    let t2 = write_claim c.type t3 in
    let t1 = write_claim c.role t2 in
    rw
      (
        read_claim-write_claim c.sub t1,
        read_claim-write_claim c.role t2,
        read_claim-write_claim c.type t3,
        read_claim-write_claim c.jti t4,
        read_time-write_time c.iat t5,
        read_time-write_time c.exp t6,
      )
      refl

unfoldable pub judge : (now : ℕ) → Claims → Decoded
judge now c = elim c.exp [
  | none ↦ decoded c
  | some until ↦ elim c.iat [
    | none ↦ invalid
    | some made ↦ if leb until now then expired else if leb made now then decoded c else invalid
  ]
]

pub judge-same : (c d e : Claims) (m n : ℕ) → judge m c ≡ decoded d → judge n c ≡ decoded e → d ≡ e
unfolding judge
judge-same c d e m n h g = ground arith

pub judge-live :
    (c : Claims) (made now until : ℕ)
    → c.iat ≡ some made
    → c.exp ≡ some until
    → made ≤ now
    → now < until
    → judge now c ≡ decoded c
unfolding judge
judge-live c made now until e f h g = ground arith

pub encode-full : (c : Claims) → text_eq (encode c) [] ≡ false
unfolding encode write_claim text_eq
encode-full c = elim (Option-cases c.sub) [
  | inl e ↦ rw (e, write_claim) refl
  | inr (s, e) ↦ rw (e, write_claim) refl
]

keep_none : (f : User → Bool) (db : List User) → any f db ≡ false → keep f db ≡ []
unfolding keep any
keep_none f [] e = refl
keep_none f (u ∷ db) e = ground (arith, keep_none f db)

unfoldable pub find : Text → List User → Option User
find i [] = none
find i (u ∷ db) = if text_eq u.id i then some u else find i db

pub count-add :
    (f : User → Bool) (u : User) (db : List User)
    → length (keep f (u ∷ db)) ≡ (if f u then 1 else 0) + length (keep f db)
unfolding keep
count-add f u db = ground arith

pub keep-add :
    (f : User → Bool) (u : User) (db : List User)
    → any f db ≡ false
    → keep f (u ∷ db) ≡ (if f u then u ∷ [] else [])
unfolding keep
keep-add f u db e = ground (arith, keep_none f db e)

pub find-add :
    (i : Text) (u : User) (db : List User)
    → find i (u ∷ db) ≡ (if text_eq u.id i then some u else find i db)
unfolding find
find-add i u db = refl

pub contains-add :
    (i j : Text) (db : List Text) → contains i (j ∷ db) ≡ (text_eq j i || contains i db)
unfolding contains
contains-add i j db = refl

abbrev pub services : Services (List User) (List Text)
services = record {
  encode = encode;
  decode = λ now t. judge now (parse t);
  decode-encode =
      λ c made now until e f h g. rw (parse-encode c) (judge-live c made now until e f h g);
  decode_same = λ t c d m n h g. judge-same (parse t) c d m n h g;
  encode_full = encode-full;
  uuid = some;
  users = λ db. db;
  find_user = find;
  add_user = λ u db. u ∷ db;
  find-add_user = find-add;
  count-add_user = count-add;
  keep-add_user = keep-add;
  newest_first = λ db. db;
  count-newest_first = λ f db. refl;
  is_revoked = contains;
  add_revoked = λ j e db. j ∷ db;
  revoked-add_revoked = λ i j e db. contains-add i j db;
}
