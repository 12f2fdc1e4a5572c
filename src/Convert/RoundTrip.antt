-- ===== src/Convert/RoundTrip.antt =====
-- The conversions of include/decof/conversion.h, there and back.
use de_co_f.Base.{
  ℕ, suc, ◌*◌, ◌<◌, ◌≤◌, ◌≡◌, ◌≢◌, Bool, Bool-cases, ◌||◌, inl, inr, refl, sym, subst, ap, ◌∙◌,
  true, List, [], ◌∷◌, ◌++◌, arith, ◌==◌, length, All, Bytes,
}
use de_co_f.Types.{ℤ, Scalar, Value, binary_t, real_t, scalar_t, sequence_t, tuple_t}
use de_co_f.Types.Errors.{Error}
use de_co_f.Except.{Except, ok, err, out_of_range, other_exception, fault, ◌>>=◌}
use de_co_f.Convert
use de_co_f.Convert.{IntType}
use de_co_f.Convert.Laws.{IsValue, from_generic_integral}
use de_co_f.Convert.Scalars
use de_co_f.Convert.Scalars.{
  ScalarType, boolean, integral, floating, string, binary_string, raw, raw_array, raw_sequence,
  Element, FloatType, Floats, double, from_raw, convert_lossless_to_integral,
  convert_floating_point_with_range_checking, IsFinite, IsWidening, IsElement,
}
use de_co_f.Convert.Values
use de_co_f.Convert.Values.{
  ValueType, scalar, array, sequence, tuple, Components, Contents, traverse, from_tuple, to_tuple,
  AreComponents, IsContents,
}

ok_inj : {A : Type 0} {x y : A} → ok x ≡ ok y → x ≡ y
ok_inj e = cc

err-ne_ok : {A : Type 0} {x : A} {e : Error} → err e ≢ ok x
err-ne_ok e = cc

self : (c : ℕ) → (c == c) ≡ true
self c = ground arith

-- What ran before a result.
bind_ok :
    {A B : Type 0} (m : Except A) (f : A → Except B) (y : B)
    → (m >>= f) ≡ ok y
    → (x : A) × (m ≡ ok x) × (f x ≡ ok y)
bind_ok (ok x) f y e = (x, refl, e)
bind_ok (err z) f y e = absurd (cc)
bind_ok out_of_range f y e = absurd (cc)
bind_ok other_exception f y e = absurd (cc)
bind_ok fault f y e = absurd (cc)

abbrev Undoes : {A B : Type 0} → (A → Except B) → (B → Except A) → A → Type 0
Undoes {B} f g x = (y : B) → f x ≡ ok y → g y ≡ ok x

traverse-Undoes :
    {A B : Type 0} (f : A → Except B) (g : B → Except A) (xs : List A)
    → All (Undoes f g) xs
    → Undoes (traverse f) (traverse g) xs
traverse-Undoes f g [] h ys e = subst (λ ys. traverse g ys ≡ ok []) (ok_inj e) refl
traverse-Undoes f g (x ∷ xs) (h, hs) ys e =
    let (y, l, e1) = bind_ok (f x) (λ y. traverse f xs >>= λ ys. ok (y ∷ ys)) ys e in
    let (zs, m, e2) = bind_ok (traverse f xs) (λ ys. ok (y ∷ ys)) ys e1 in
    subst (λ ys. traverse g ys ≡ ok (x ∷ xs)) (ok_inj e2)
      (rw (h y l, traverse-Undoes f g xs hs zs m) refl)

length-traverse :
    {A B : Type 0} (f : A → Except B) (xs : List A) (ys : List B)
    → traverse f xs ≡ ok ys
    → length ys ≡ length xs
length-traverse f [] ys e = subst (λ ys. length ys ≡ 0) (ok_inj e) refl
length-traverse f (x ∷ xs) ys e =
    let (y, l, e1) = bind_ok (f x) (λ y. traverse f xs >>= λ ys. ok (y ∷ ys)) ys e in
    let (zs, m, e2) = bind_ok (traverse f xs) (λ ys. ok (y ∷ ys)) ys e1 in
    subst (λ ys. length ys ≡ suc (length xs)) (ok_inj e2) (ap suc (length-traverse f xs zs m))

module _ (lib : Floats) where
  one_byte : (n : ℕ) (s : Bytes) → n ≡ 1 → length s ≡ 1 → from_raw lib n (binary_t s) ≡ ok s
  unfolding from_raw
  one_byte n [] e h = absurd (omega arith)
  one_byte n (c ∷ []) e h = rw e refl
  one_byte n (c ∷ d ∷ s) e h = absurd (omega arith)

  integral-Undoes :
      (t : IntType) (i : ℤ)
      → (0 < t.half) × IsValue t i
      → Undoes (Convert.to_generic t) (Convert.from_generic (convert_lossless_to_integral lib) t) i
  integral-Undoes t i (z, v) s e =
      elim (from_generic_integral (convert_lossless_to_integral lib) t i z v) [
        | inl (f, _) ↦ absurd (err-ne_ok (sym f ∙ e))
        | inr (u, f, g) ↦
            subst (λ s. Convert.from_generic (convert_lossless_to_integral lib) t s ≡ ok i)
              (ok_inj (sym f ∙ e)) g
      ]

  floating-Undoes :
      (ieee : IsWidening lib) (t : FloatType) (x : ℕ)
      → t.digits ≤ double.digits
      → IsFinite lib t x
      → Undoes
          (convert_floating_point_with_range_checking lib double t)
          (convert_floating_point_with_range_checking lib t double)
          x
  unfolding convert_floating_point_with_range_checking
  floating-Undoes ieee t x l f r e =
      let r' = lib.to_float double t x in
      let below = ieee.less_left t x (lib.lowest t) l f ∙ f.not_below in
      let above = ieee.less_right t x (lib.max t) l f ∙ f.not_above in
      let b : Bool =
        lib.less t double x (lib.lowest double) || lib.less double t (lib.max double) x in
      elim (Bool-cases b) [
        | inl y ↦ let e' = rw y at e in absurd (err-ne_ok e')
        | inr y ↦
            let e' = rw y at e in
            subst (λ r. convert_floating_point_with_range_checking lib t double r ≡ ok x)
              (ok_inj e') (rw (below, above) (ap ok (ieee.exact t x l f)))
      ]

  scalar-Undoes :
      (ieee : IsWidening lib) (t : ScalarType) (x : Element t)
      → IsElement lib t x
      → Undoes (Scalars.to_generic lib t) (Scalars.from_generic lib t) x
  unfolding Scalars.from_generic Scalars.to_generic
  scalar-Undoes ieee boolean b h s e =
      subst (λ s. Scalars.from_generic lib boolean s ≡ ok b) (ok_inj e) refl
  scalar-Undoes ieee (integral t) i h s e = integral-Undoes t i h s e
  scalar-Undoes ieee (floating t) x (d, h) s e =
      let (r, l, e1) =
        bind_ok (convert_floating_point_with_range_checking lib double t x) (λ r. ok (real_t r)) s
          e in
      subst (λ s. Scalars.from_generic lib (floating t) s ≡ ok x) (ok_inj e1)
        (floating-Undoes ieee t x d h r l)
  scalar-Undoes ieee string x h s e =
      subst (λ s. Scalars.from_generic lib string s ≡ ok x) (ok_inj e) refl
  scalar-Undoes ieee binary_string x h s e =
      subst (λ s. Scalars.from_generic lib binary_string s ≡ ok x) (ok_inj e) refl
  scalar-Undoes ieee (raw n) x (h, k) s e =
      subst (λ s. Scalars.from_generic lib (raw n) s ≡ ok x) (ok_inj e) (one_byte n x h k)
  scalar-Undoes ieee (raw_array n m) x h s e =
      subst (λ s. Scalars.from_generic lib (raw_array n m) s ≡ ok x) (ok_inj e)
        (rw h (rw (self (n * m)) refl))
  scalar-Undoes ieee (raw_sequence m) x h s e =
      subst (λ s. Scalars.from_generic lib (raw_sequence m) s ≡ ok x) (ok_inj e) (rw h refl)

  array_lem :
      (t : ScalarType) (n : ℕ) (xs : List (Element t)) (vs : List Scalar)
      → length vs ≡ n
      → traverse (Scalars.from_generic lib t) vs ≡ ok xs
      → Values.from_generic lib (array t n) (sequence_t vs) ≡ ok xs
  unfolding Values.from_generic
  array_lem t n xs vs h e = rw h (rw (self n) e)

  scalars-Undo :
      (ieee : IsWidening lib) (t : ScalarType) (xs : List (Element t))
      → All (IsElement lib t) xs
      → All (Undoes (Scalars.to_generic lib t) (Scalars.from_generic lib t)) xs
  scalars-Undo ieee t [] h = tt
  scalars-Undo ieee t (x ∷ xs) (h, hs) = (scalar-Undoes ieee t x h, scalars-Undo ieee t xs hs)

  tuple-Undoes :
      (ieee : IsWidening lib) (ts : List ScalarType) (x : Components ts)
      → AreComponents lib ts x
      → Undoes (to_tuple lib ts) (from_tuple lib ts) x
  unfolding to_tuple from_tuple
  tuple-Undoes ieee [] x h vs e = subst (λ vs. from_tuple lib [] vs ≡ ok x) (ok_inj e) refl
  tuple-Undoes ieee (t ∷ ts) (x, xs) (h, hs) vs e =
      let (v, l, e1) =
        bind_ok (Scalars.to_generic lib t x) (λ v. to_tuple lib ts xs >>= λ vs. ok (v ∷ vs)) vs e in
      let (ws, m, e2) = bind_ok (to_tuple lib ts xs) (λ vs. ok (v ∷ vs)) vs e1 in
      subst (λ vs. from_tuple lib (t ∷ ts) vs ≡ ok (x, xs)) (ok_inj e2)
        (rw (scalar-Undoes ieee t x h v l, tuple-Undoes ieee ts xs hs ws m) refl)

  -- Let the elements of a generic tuple convert to the first components of a tuple type, and let the type
  -- have more components. Then `from_generic` reads behind the last element.
  pub from_tuple-append :
      (ts us : List ScalarType) (u : ScalarType) (vs : List Scalar) (x : Components ts)
      → length ts ≡ length vs
      → from_tuple lib ts vs ≡ ok x
      → Values.from_generic lib (tuple (ts ++ (u ∷ us))) (tuple_t vs) ≡ fault
  unfolding from_tuple Values.from_generic
  from_tuple-append [] us u [] x h e = refl
  from_tuple-append [] us u (v ∷ vs) x h e = absurd (omega arith)
  from_tuple-append (t ∷ ts) us u [] x h e = absurd (omega arith)
  from_tuple-append (t ∷ ts) us u (v ∷ vs) x h e =
      let (y, l, e1) =
        bind_ok (Scalars.from_generic lib t v) (λ y. from_tuple lib ts vs >>= λ ys. ok (y, ys)) x
          e in
      let (ys, m, e2) = bind_ok (from_tuple lib ts vs) (λ ys. ok (y, ys)) x e1 in
      let short = from_tuple-append ts us u vs ys (omega arith) m in rw (l, short) refl

  -- Let a value of a parameter's type (a scalar, a string, a container, an array or a tuple) be converted
  -- to a generic value without an exception. Then the generic value is converted back to the same value.
  -- Integers are in the range of their type, floating point numbers are finite, of a type of no more digits
  -- than a double, and casts to a double are exact as in IEEE 754; object representations have the size of
  -- their type, and a type that no specialisation covers has one byte.
  pub from_generic-to_generic :
      (ieee : IsWidening lib) (t : ValueType) (x : Contents t) (g : Value)
      → IsContents lib t x
      → Values.to_generic lib t x ≡ ok g
      → Values.from_generic lib t g ≡ ok x
  unfolding Values.from_generic Values.to_generic
  from_generic-to_generic ieee (scalar t) x g h e =
      let (v, l, e1) = bind_ok (Scalars.to_generic lib t x) (λ v. ok (scalar_t v)) g e in
      subst (λ g. Values.from_generic lib (scalar t) g ≡ ok x) (ok_inj e1)
        (scalar-Undoes ieee t x h v l)
  from_generic-to_generic ieee (sequence t) x g h e =
      let (v, l, e1) =
        bind_ok (traverse (Scalars.to_generic lib t) x) (λ v. ok (sequence_t v)) g e in
      subst (λ g. Values.from_generic lib (sequence t) g ≡ ok x) (ok_inj e1)
        (traverse-Undoes (Scalars.to_generic lib t) (Scalars.from_generic lib t) x
          (scalars-Undo ieee t x h) v l)
  from_generic-to_generic ieee (array t n) x g (h, k) e =
      let (v, l, e1) =
        bind_ok (traverse (Scalars.to_generic lib t) x) (λ v. ok (sequence_t v)) g e in
      subst (λ g. Values.from_generic lib (array t n) g ≡ ok x) (ok_inj e1)
        (array_lem t n x v (length-traverse (Scalars.to_generic lib t) x v l ∙ k) (
          traverse-Undoes (Scalars.to_generic lib t) (Scalars.from_generic lib t) x
            (scalars-Undo ieee t x h) v l))
  from_generic-to_generic ieee (tuple ts) x g h e =
      let (v, l, e1) = bind_ok (to_tuple lib ts x) (λ v. ok (tuple_t v)) g e in
      subst (λ g. Values.from_generic lib (tuple ts) g ≡ ok x) (ok_inj e1)
        (tuple-Undoes ieee ts x h v l)
