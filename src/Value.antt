-- ===== src/Value.antt =====
-- The values that reach the program from outside, at run time: what `isinstance` tells apart.
-- An `other` is of a class that no test names (a float, bytes): only its truth value is read.
use financial_engineering_sk.Prelude.{
  ◌≡◌, ◌↔◌, refl, Bool, true, false, not, ◌&&◌, Option, none, some, List, [], ◌∷◌, String, arith,
  ◌==◌, string_eq, int_eq, if◌then◌else◌, eq_iff,
}
use financial_engineering_sk.Prelude.Int.{ℤ, pos}

mutual
  pub data Value : Type 0 where
    none_value : Value
    bool : Bool → Value
    int : ℤ → Value
    str : String → Value
    list : Items → Value
    tuple : Items → Value
    dict : Fields → Value
    other : Bool → Value

  pub data Items : Type 0 where
    nil : Items
    cons : Value → Items → Items

  pub data Fields : Type 0 where
    end : Fields
    field : String → Value → Fields → Fields

-- d.get(k), `none` where the key is missing
abbrev pub field? : String → Fields → Option Value
field? k end = none
field? k (field j v d) = if j == k then some v else field? k d

-- d.get(k, v)
abbrev pub field_or : Value → String → Fields → Value
field_or v k d = elim (field? k d) [ none ↦ v | some w ↦ w ]

-- d.get(k)
abbrev pub get : String → Fields → Value
get = field_or none_value

-- The items of a list or a tuple.
abbrev pub items : Items → List Value
items nil = []
items (cons v vs) = v ∷ items vs

-- Python's truth of a value.
abbrev pub truth : Value → Bool
truth none_value = false
truth (bool b) = b
truth (int n) = not (n == pos 0)
truth (str s) = not (s == "")
truth (list nil) = false
truth (list (cons _ _)) = true
truth (tuple nil) = false
truth (tuple (cons _ _)) = true
truth (dict end) = false
truth (dict (field _ _ _)) = true
truth (other b) = b

-- v == s, of a text `s`
abbrev pub is_text : String → Value → Bool
is_text s (str t) = t == s
is_text s _ = false

-- v == t, of a tuple of values and a tuple of texts
abbrev pub are_texts : List String → List Value → Bool
are_texts [] [] = true
are_texts [] (_ ∷ _) = false
are_texts (_ ∷ _) [] = false
are_texts (s ∷ ss) (v ∷ vs) = is_text s v && are_texts ss vs

abbrev pub texts : List String → List Value
texts [] = []
texts (s ∷ ss) = str s ∷ texts ss

-- v is None
abbrev pub is_none : Value → Bool
is_none none_value = true
is_none _ = false

pub is_text_iff : (s : String) (v : Value) → (is_text s v ≡ true) ↔ (v ≡ str s)
is_text_iff s (str t) = (λ h. ground (arith, eq_iff t s), λ h. ground (arith, eq_iff t s))
is_text_iff s none_value = (λ h. cc, λ h. cc)
is_text_iff s (bool b) = (λ h. cc, λ h. cc)
is_text_iff s (int n) = (λ h. cc, λ h. cc)
is_text_iff s (list l) = (λ h. cc, λ h. cc)
is_text_iff s (tuple l) = (λ h. cc, λ h. cc)
is_text_iff s (dict d) = (λ h. cc, λ h. cc)
is_text_iff s (other b) = (λ h. cc, λ h. cc)

pub are_texts_iff :
    (ss : List String) (vs : List Value) → (are_texts ss vs ≡ true) ↔ (vs ≡ texts ss)
are_texts_iff [] [] = (λ h. refl, λ h. refl)
are_texts_iff [] (v ∷ vs) = (λ h. cc, λ h. cc)
are_texts_iff (s ∷ ss) [] = (λ h. cc, λ h. cc)
are_texts_iff (s ∷ ss) (v ∷ vs) = (
  λ h. ground (arith, is_text_iff s v, are_texts_iff ss vs),
  λ h. ground (arith, is_text_iff s v, are_texts_iff ss vs),
)
