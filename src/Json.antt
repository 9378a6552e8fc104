-- ===== src/Json.antt =====
-- The Python objects that `json.loads` returns, with truth, equality and `str` of the scalars.
-- A float is its `repr`; below 10 ** 16 a float equals an integer when its repr is that integer's
-- with ".0" behind it.
use integrated_work.Prelude.{
  ℕ, suc, Bool, true, false, not, ◌&&◌, Option, none, some, [], ◌++◌, ◌==◌, if◌then◌else◌,
}
use integrated_work.Text.{Text, txt, text_eq, show_nat}

-- `neg n` is the integer -(n + 1).
mutual
  pub data Value : Type 0 where
    null : Value
    bool : Bool → Value
    int : ℕ → Value
    neg : ℕ → Value
    real : Text → Value
    str : Text → Value
    arr : Items → Value
    obj : Fields → Value

  pub data Items : Type 0 where
    nil : Items
    cons : Value → Items → Items

  pub data Fields : Type 0 where
    end : Fields
    field : Text → Value → Fields → Fields

-- `bool(v)`
unfoldable pub truthy : Value → Bool
unfolding text_eq
truthy null = false
truthy (bool b) = b
truthy (int n) = not (n == 0)
truthy (neg n) = true
truthy (real r) = not (text_eq r (txt "0.0")) && not (text_eq r (txt "-0.0"))
truthy (str s) = not (text_eq s [])
truthy (arr nil) = false
truthy (arr (cons v vs)) = true
truthy (obj end) = false
truthy (obj (field k v fs)) = true

unfoldable pub is_scalar : Value → Bool
is_scalar (arr vs) = false
is_scalar (obj fs) = false
is_scalar _ = true

-- `str(v)` of a scalar; nothing in the program takes the `str` of a list or a dict.
unfoldable pub show_scalar : Value → Text
unfolding show_nat
show_scalar null = txt "None"
show_scalar (bool true) = txt "True"
show_scalar (bool false) = txt "False"
show_scalar (int n) = show_nat n
show_scalar (neg n) = txt "-" ++ show_nat (suc n)
show_scalar (real r) = r
show_scalar (str s) = s
show_scalar (arr vs) = []
show_scalar (obj fs) = []

-- A number as Python compares it: `True` is 1 and `False` is 0.
number_text : Value → Option Text
unfolding show_nat
number_text (bool true) = some (txt "1.0")
number_text (bool false) = some (txt "0.0")
number_text (int n) = some (show_nat n ++ txt ".0")
number_text (neg n) = some (txt "-" ++ show_nat (suc n) ++ txt ".0")
number_text (real r) = if text_eq r (txt "-0.0") then some (txt "0.0") else some r
number_text _ = none

numbers_eq : Option Text → Option Text → Bool
unfolding text_eq
numbers_eq (some s) (some t) = text_eq s t
numbers_eq _ _ = false

-- `v == w` of two scalars
unfoldable pub scalar_eq : Value → Value → Bool
unfolding text_eq number_text numbers_eq
scalar_eq null null = true
scalar_eq (str s) (str t) = text_eq s t
scalar_eq v w = numbers_eq (number_text v) (number_text w)
