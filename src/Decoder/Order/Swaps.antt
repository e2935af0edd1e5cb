-- ===== src/Decoder/Order/Swaps.antt =====
-- Elements of different names write different parts of the table, in either order.
use realflight_bridge.Base.{
  ◌↔◌, ℕ, ◌≡◌, ◌≢◌, refl, sym, ap, ◌∙◌, inl, inr, Bool, true, Option, none, some, List, [], ◌∷◌,
  set_comm, all, Bool-cases, arith,
}
use realflight_bridge.Outcome.{Result, ok, ◌>>=◌, >>=_assoc, >>=_returns}
use realflight_bridge.Text.{Text, codes, text_eq, text_eq_iff}
use realflight_bridge.Types.{FloatText, BridgeError, ControlInputs}
use realflight_bridge.Decoder.Fields.{Field, field_names, find_in, find_field}
use realflight_bridge.Decoder.Row.{name_in, name_of, Value, column, read_value}
use realflight_bridge.Decoder.Table.{
  Table, Edit, apply, edit_of, edited, with_row, next_channel, write_item, write_attribute,
  write_element,
}

module _ (named : Field → Text) where
  abbrev is_named : Text × Field → Bool
  is_named (n, f) = text_eq (named f) n

  find_in-name :
      (es : List (Text × Field)) (name : Text) (f : Field)
      → all is_named es ≡ true
      → find_in es name ≡ some f
      → named f ≡ name
  unfolding find_in
  find_in-name [] name f h e = cc
  find_in-name ((n, g) ∷ es) name f h e = elim (Bool-cases (text_eq n name)) [
    | inl p ↦
        let k : some g ≡ some f = rw p at e in
        let q : g ≡ f = cc in
        ap named (sym q) ∙ (text_eq_iff (named g) n).0 (ground arith) ∙ (text_eq_iff n name).0 p
    | inr p ↦ find_in-name es name f (ground arith) (rw p at e)
  ]

find_field-name : (name : Text) (f : Field) → find_field name ≡ some f → name_of f ≡ name
unfolding find_field text_eq
find_field-name name f e = find_in-name name_of field_names name f refl e

-- The writes of two attributes are to different cells.
abbrev Apart : Edit → Edit → Type 0
Apart none _ = Unit
Apart (some _) none = Unit
Apart (some (c, v)) (some (d, w)) = c ≢ d

apply_comm :
    (e e' : Edit) (row : List Value) → Apart e e' → apply e' (apply e row) ≡ apply e (apply e' row)
apply_comm none _ row h = refl
apply_comm (some (c, v)) none row h = refl
apply_comm (some (c, v)) (some (d, w)) row h = set_comm row c d v w h

-- What two writes make of each other's outcome does not depend on their order.
swap_edits :
    (p q : Result BridgeError Edit) (i : ℕ) (row : List Value) (inputs : ControlInputs) (u : Table)
    → ((e e' : Edit) → p ≡ ok e → q ≡ ok e' → Apart e e')
    → (do e ← p; e' ← q; ok (edited i (apply e row) inputs e')) ≡ ok u
    → (do e' ← q; e ← p; ok (edited i (apply e' row) inputs e)) ≡ ok u
swap_edits p q i row inputs u h k =
    let (e, k₁, a) = >>=_returns _ p k in
    let (e', k₂, b) = >>=_returns _ q k₁ in
    rw (a, b) (rw (sym (apply_comm e e' row (h e e' a b))) k₂)

-- The same for a channel and a cell.
swap_channel :
    (n : Result BridgeError (ℕ × ControlInputs)) (q : Result BridgeError Edit) (row : List Value)
    (u : Table)
    → ((do p ← n; e ← q; ok (edited p.0 row p.1 e)) ≡ ok u)
      ↔ ((do e ← q; p ← n; ok (with_row (apply e row) p)) ≡ ok u)
swap_channel n q row u = (
  λ k. let (p, k₁, a) = >>=_returns _ n k in let (e, k₂, b) = >>=_returns _ q k₁ in rw (a, b) k₂,
  λ k. let (e, k₁, b) = >>=_returns _ q k in let (p, k₂, a) = >>=_returns _ n k₁ in rw (a, b) k₂,
)

module _ (ft : FloatText) where
  edit_of-cell :
      (f : Field) (name value : Text) (e : Edit)
      → edit_of ft (some f) name value ≡ ok e
      → (v : Value) × (e ≡ some (column f, v))
  edit_of-cell f name value e k =
      let (v, k₁, a) = >>=_returns _ (read_value ft f name value) k in (v, cc)

  edit_of-Apart :
      (o o' : Option Field) (name name' value value' : Text) (e e' : Edit)
      → ((f : Field) → o ≡ some f → name_of f ≡ name)
      → ((f : Field) → o' ≡ some f → name_of f ≡ name')
      → name ≢ name'
      → edit_of ft o name value ≡ ok e
      → edit_of ft o' name' value' ≡ ok e'
      → Apart e e'
  edit_of-Apart none o' name name' value value' e e' h h' d k k' =
      let q : none ≡ e = cc in rw (sym q) tt
  edit_of-Apart (some f) none name name' value value' e e' h h' d k k' =
      let (v, q) = edit_of-cell f name value e k in let q' : none ≡ e' = cc in rw (q, sym q') tt
  edit_of-Apart (some f) (some g) name name' value value' e e' h h' d k k' =
      let (v, q) = edit_of-cell f name value e k in
      let (v', q') = edit_of-cell g name' value' e' k' in
      rw (q, q') (λ c. d (sym (h f refl) ∙ ap (name_in field_names) c ∙ h' g refl))

  swap_attributes :
      (tag text tag' text' : Text) (t u : Table)
      → tag ≢ tag'
      → (write_attribute ft tag text t >>= write_attribute ft tag' text') ≡ ok u
      → (write_attribute ft tag' text' t >>= write_attribute ft tag text) ≡ ok u
  swap_attributes tag text tag' text' (i, (row, inputs)) u d k =
      let p = edit_of ft (find_field tag) tag text in
      let q = edit_of ft (find_field tag') tag' text' in
      rw (>>=_assoc q (λ e. ok (edited i row inputs e)) (write_attribute ft tag text)) (
        swap_edits p q i row inputs u
          (λ e e'.
            edit_of-Apart (find_field tag) (find_field tag') tag tag' text text' e e'
              (find_field-name tag) (find_field-name tag') d)
          (rw (>>=_assoc p (λ e. ok (edited i row inputs e)) (write_attribute ft tag' text')) at k))

  swap_item :
      (text tag' text' : Text) (t u : Table)
      → ((write_item ft text t >>= write_attribute ft tag' text') ≡ ok u)
        ↔ ((write_attribute ft tag' text' t >>= write_item ft text) ≡ ok u)
  swap_item text tag' text' (i, (row, inputs)) u =
      rw
        (
          >>=_assoc (next_channel ft text (i, inputs)) _ _,
          >>=_assoc (edit_of ft (find_field tag') tag' text') _ _,
        )
        (swap_channel (next_channel ft text (i, inputs)) (edit_of ft (find_field tag') tag' text')
          row u)

  -- Where one of two elements of different names is written after the other, so it is before it.
  pub swap_elements :
      (tag text tag' text' : Text) (t u : Table)
      → tag ≢ tag'
      → (write_element ft tag text t >>= λ m. write_element ft tag' text' m) ≡ ok u
      → (write_element ft tag' text' t >>= λ m. write_element ft tag text m) ≡ ok u
  unfolding write_element
  swap_elements tag text tag' text' t u d = elim (Bool-cases (text_eq tag (codes "item"))) [
    | inl e ↦ elim (Bool-cases (text_eq tag' (codes "item"))) [
      | inl e' ↦
          elim (d (
            (text_eq_iff tag (codes "item")).0 e
            ∙ sym ((text_eq_iff tag' (codes "item")).0 e'))) [ ]
      | inr e' ↦ rw (e, e') (swap_item text tag' text' t u).0
    ]
    | inr e ↦ elim (Bool-cases (text_eq tag' (codes "item"))) [
      | inl e' ↦ rw (e, e') (swap_item text' tag text t u).1
      | inr e' ↦ rw (e, e') (swap_attributes tag text tag' text' t u d)
    ]
  ]
