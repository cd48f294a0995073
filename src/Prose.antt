-- ===== src/Prose.antt =====
-- The f-strings that people read (memos and the details of breaks), kept as their parts: literal
-- text, a value shown by `!r`, the name of a value's class, a number.
use financial_engineering_sk.Prelude.{
  ◌≡◌, ◌↔◌, refl, Bool, true, false, ◌&&◌, List, String, arith, eq_iff, Equality, ◌==◌, string_eq,
  int_eq, bool_eq, list_eq,
}
use financial_engineering_sk.Prelude.Int.{ℤ, int_beq_iff}
use financial_engineering_sk.Value.{
  Value, Items, Fields, none_value, bool, int, str, list, tuple, dict, other, nil, cons, end, field,
}

abbrev mutual
  value_beq : Value → Value → Bool
  value_beq none_value none_value = true
  value_beq (bool a) (bool b) = a == b
  value_beq (int a) (int b) = a == b
  value_beq (str a) (str b) = a == b
  value_beq (list a) (list b) = items_beq a b
  value_beq (tuple a) (tuple b) = items_beq a b
  value_beq (dict a) (dict b) = fields_beq a b
  value_beq (other a) (other b) = a == b
  value_beq _ _ = false

  items_beq : Items → Items → Bool
  items_beq nil nil = true
  items_beq (cons v vs) (cons w ws) = value_beq v w && items_beq vs ws
  items_beq _ _ = false

  fields_beq : Fields → Fields → Bool
  fields_beq end end = true
  fields_beq (field j v d) (field k w e) = j == k && (value_beq v w && fields_beq d e)
  fields_beq _ _ = false

cons_iff :
    {p q : Bool} (v w : Value) (vs ws : Items)
    → (p ≡ true) ↔ (v ≡ w)
    → (q ≡ true) ↔ (vs ≡ ws)
    → ((p && q) ≡ true) ↔ (cons v vs ≡ cons w ws)
cons_iff v w vs ws f g = (λ h. ground (arith, f, g), λ h. ground (arith, f, g))

field_iff :
    {p q : Bool} (j k : String) (v w : Value) (d e : Fields)
    → (p ≡ true) ↔ (v ≡ w)
    → (q ≡ true) ↔ (d ≡ e)
    → ((j == k && (p && q)) ≡ true) ↔ (field j v d ≡ field k w e)
field_iff j k v w d e f g =
    (λ h. ground (arith, eq_iff j k, f, g), λ h. ground (arith, eq_iff j k, f, g))

mutual
  value_beq_iff : (v w : Value) → (value_beq v w ≡ true) ↔ (v ≡ w)
  value_beq_iff none_value none_value = (λ h. refl, λ h. refl)
  value_beq_iff (bool a) (bool b) =
      (λ h. ground (arith, bool_eq.same_iff a b), λ h. ground (arith, bool_eq.same_iff a b))
  value_beq_iff (int a) (int b) =
      (λ h. ground (arith, int_beq_iff a b), λ h. ground (arith, int_beq_iff a b))
  value_beq_iff (str a) (str b) = (λ h. ground (arith, eq_iff a b), λ h. ground (arith, eq_iff a b))
  value_beq_iff (list a) (list b) =
      (λ h. ground (arith, items_beq_iff a b), λ h. ground (arith, items_beq_iff a b))
  value_beq_iff (tuple a) (tuple b) =
      (λ h. ground (arith, items_beq_iff a b), λ h. ground (arith, items_beq_iff a b))
  value_beq_iff (dict a) (dict b) =
      (λ h. ground (arith, fields_beq_iff a b), λ h. ground (arith, fields_beq_iff a b))
  value_beq_iff (other a) (other b) =
      (λ h. ground (arith, bool_eq.same_iff a b), λ h. ground (arith, bool_eq.same_iff a b))
  value_beq_iff _ _ = (λ h. cc, λ h. cc)

  items_beq_iff : (v w : Items) → (items_beq v w ≡ true) ↔ (v ≡ w)
  items_beq_iff nil nil = (λ h. refl, λ h. refl)
  items_beq_iff (cons v vs) (cons w ws) =
      cons_iff v w vs ws (value_beq_iff v w) (items_beq_iff vs ws)
  items_beq_iff _ _ = (λ h. cc, λ h. cc)

  fields_beq_iff : (v w : Fields) → (fields_beq v w ≡ true) ↔ (v ≡ w)
  fields_beq_iff end end = (λ h. refl, λ h. refl)
  fields_beq_iff (field j v d) (field k w e) =
      field_iff j k v w d e (value_beq_iff v w) (fields_beq_iff d e)
  fields_beq_iff _ _ = (λ h. cc, λ h. cc)

pub value_iff : (v w : Value) → (value_beq v w ≡ true) ↔ (v ≡ w)
value_iff v w = value_beq_iff v w

instance abbrev pub value_eq : Equality Value
value_eq = record { same = value_beq; same_iff = value_iff }

pub data Piece : Type 0 where
  text : String → Piece
  shown : Value → Piece
  class_of : Value → Piece
  number : ℤ → Piece

abbrev pub Prose : Type 0
Prose = List Piece

abbrev pub piece_beq : Piece → Piece → Bool
piece_beq (text a) (text b) = a == b
piece_beq (shown a) (shown b) = value_beq a b
piece_beq (class_of a) (class_of b) = value_beq a b
piece_beq (number a) (number b) = a == b
piece_beq _ _ = false

pub piece_beq_iff : (p q : Piece) → (piece_beq p q ≡ true) ↔ (p ≡ q)
piece_beq_iff (text a) (text b) = (λ h. ground (arith, eq_iff a b), λ h. ground (arith, eq_iff a b))
piece_beq_iff (shown a) (shown b) =
    (λ h. ground (arith, value_iff a b), λ h. ground (arith, value_iff a b))
piece_beq_iff (class_of a) (class_of b) =
    (λ h. ground (arith, value_iff a b), λ h. ground (arith, value_iff a b))
piece_beq_iff (number a) (number b) =
    (λ h. ground (arith, int_beq_iff a b), λ h. ground (arith, int_beq_iff a b))
piece_beq_iff _ _ = (λ h. cc, λ h. cc)

instance abbrev pub piece_eq : Equality Piece
piece_eq = record { same = piece_beq; same_iff = piece_beq_iff }
