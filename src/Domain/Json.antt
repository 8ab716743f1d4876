-- ===== src/Domain/Json.antt =====
-- The values that the program types `unknown`: JSON, with finite decimal numbers.
use launch_proof.Shared.{
  ℕ, ℤ, Bool, true, false, Text, Eq, ◌==◌, ◌&&◌, ◌≡◌, ◌↔◌, refl, arith, list_beq, list_beq_iff,
  int_beq_iff, int_eq, nat_eq, list_eq,
}

mutual
  -- `num m k` is the number m / 10^k, in lowest terms.
  pub data Json : Type 0 where
    null : Json
    bool : Bool → Json
    num : ℤ → ℕ → Json
    str : Text → Json
    arr : Items → Json
    obj : Fields → Json

  pub data Items : Type 0 where
    nil : Items
    cons : Json → Items → Items

  -- An object: its own keys in order.
  pub data Fields : Type 0 where
    end : Fields
    field : Text → Json → Fields → Fields

abbrev pub bool_beq : Bool → Bool → Bool
bool_beq true b = b
bool_beq false true = false
bool_beq false false = true

-- Equality of two values as `JSON.stringify` shows them: keys in the same order.
mutual
  pub json_beq : Json → Json → Bool
  json_beq null null = true
  json_beq (bool a) (bool b) = bool_beq a b
  json_beq (num a k) (num b l) = (a == b) && (k == l)
  json_beq (str a) (str b) = a == b
  json_beq (arr a) (arr b) = items_beq a b
  json_beq (obj a) (obj b) = fields_beq a b
  json_beq _ _ = false

  pub items_beq : Items → Items → Bool
  items_beq nil nil = true
  items_beq (cons x a) (cons y b) = json_beq x y && items_beq a b
  items_beq _ _ = false

  pub fields_beq : Fields → Fields → Bool
  fields_beq end end = true
  fields_beq (field j x a) (field k y b) = (j == k) && (json_beq x y && fields_beq a b)
  fields_beq _ _ = false

cons_iff :
    (x y : Json) (a b : Items) (p q : Bool)
    → (p ≡ true) ↔ (x ≡ y)
    → (q ≡ true) ↔ (a ≡ b)
    → ((p && q) ≡ true) ↔ (cons x a ≡ cons y b)
cons_iff x y a b true true h k = (λ _. cc (h.0 refl, k.0 refl), λ _. refl)
cons_iff x y a b true false h k = (λ e. cc, λ e. k.1 (cc))
cons_iff x y a b false q h k = (λ e. cc, λ e. h.1 (cc))

field_iff :
    (j k : Text) (x y : Json) (a b : Fields) (p q r : Bool)
    → (p ≡ true) ↔ (j ≡ k)
    → (q ≡ true) ↔ (x ≡ y)
    → (r ≡ true) ↔ (a ≡ b)
    → ((p && (q && r)) ≡ true) ↔ (field j x a ≡ field k y b)
field_iff j k x y a b true true true f g h = (λ _. cc (f.0 refl, g.0 refl, h.0 refl), λ _. refl)
field_iff j k x y a b true true false f g h = (λ e. cc, λ e. h.1 (cc))
field_iff j k x y a b true false r f g h = (λ e. cc, λ e. g.1 (cc))
field_iff j k x y a b false q r f g h = (λ e. cc, λ e. f.1 (cc))

mutual
  unfolding json_beq items_beq fields_beq

  json_beq_lem : (a b : Json) → (json_beq a b ≡ true) ↔ (a ≡ b)
  json_beq_lem null b = ground arith
  json_beq_lem (bool x) b = ground arith
  json_beq_lem (num x k) (num y l) = ground (arith, int_beq_iff x y)
  json_beq_lem (num x k) b = ground arith
  json_beq_lem (str x) (str y) = ground (arith, list_beq_iff x y)
  json_beq_lem (str x) b = ground arith
  json_beq_lem (arr x) (arr y) = ground (arith, items_beq_lem x y)
  json_beq_lem (arr x) b = ground arith
  json_beq_lem (obj x) (obj y) = ground (arith, fields_beq_lem x y)
  json_beq_lem (obj x) b = ground arith

  items_beq_lem : (a b : Items) → (items_beq a b ≡ true) ↔ (a ≡ b)
  items_beq_lem nil b = ground arith
  items_beq_lem (cons x a) (cons y b) =
      cons_iff x y a b (json_beq x y) (items_beq a b) (json_beq_lem x y) (items_beq_lem a b)
  items_beq_lem (cons x a) nil = ground arith

  fields_beq_lem : (a b : Fields) → (fields_beq a b ≡ true) ↔ (a ≡ b)
  fields_beq_lem end b = ground arith
  fields_beq_lem (field j x a) (field k y b) =
      field_iff j k x y a b (list_beq j k) (json_beq x y) (fields_beq a b) (list_beq_iff j k)
        (json_beq_lem x y) (fields_beq_lem a b)
  fields_beq_lem (field j x a) end = ground arith

pub json_beq_iff : (a b : Json) → (json_beq a b ≡ true) ↔ (a ≡ b)
json_beq_iff a b = json_beq_lem a b

instance abbrev pub json_eq : Eq Json
json_eq = record { beq = json_beq; beq_iff = json_beq_iff }
