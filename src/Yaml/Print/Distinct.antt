-- ===== src/Yaml/Print/Distinct.antt =====
-- Fields with distinct keys, set one by one, are those fields.
use distributed_test_runner.Base.{◌≡◌, ◌∙◌, refl, sym, ap, false, ◌||◌, [], ◌∷◌, arith}
use distributed_test_runner.Yaml.Bytes.{Bytes, bytes_eq}
use distributed_test_runner.Yaml.Value.{Value, Fields, no_fields, field, set_field, set_fields}
use distributed_test_runner.Yaml.Print.{has_key, AreFields}

bytes_eq-sym : (s t : Bytes) → bytes_eq s t ≡ bytes_eq t s
unfolding bytes_eq
bytes_eq-sym [] [] = refl
bytes_eq-sym [] (d ∷ t) = refl
bytes_eq-sym (c ∷ s) [] = refl
bytes_eq-sym (c ∷ s) (d ∷ t) = ground (arith, bytes_eq-sym s t)

module _ {F : Type 0} where
  unfoldable append_fields : Fields F → Fields F → Fields F
  append_fields no_fields gs = gs
  append_fields (field key v fs) gs = field key v (append_fields fs gs)

  append_fields-nil : (fs : Fields F) → append_fields fs no_fields ≡ fs
  unfolding append_fields
  append_fields-nil no_fields = refl
  append_fields-nil (field key v fs) = ap (λ gs. field key v gs) (append_fields-nil fs)

  append_fields_assoc :
      (fs gs hs : Fields F)
      → append_fields (append_fields fs gs) hs ≡ append_fields fs (append_fields gs hs)
  unfolding append_fields
  append_fields_assoc no_fields gs hs = refl
  append_fields_assoc (field key v fs) gs hs =
      ap (λ r. field key v r) (append_fields_assoc fs gs hs)

  set_field-new :
      (key : Bytes) (v : Value F) (out : Fields F)
      → has_key key out ≡ false
      → set_field key v out ≡ append_fields out (field key v no_fields)
  unfolding set_field append_fields
  set_field-new key v no_fields h = refl
  set_field-new key v (field other w out) h =
      ground (arith, bytes_eq-sym key other, set_field-new key v out)

  -- No key of `fs` is one of `out`.
  abbrev AreNew : Fields F → Fields F → Type 0
  AreNew no_fields out = Unit
  AreNew (field key v fs) out = (has_key key out ≡ false) × AreNew fs out

  has_key-append :
      (key : Bytes) (out : Fields F) (other : Bytes) (v : Value F)
      → has_key key (append_fields out (field other v no_fields))
        ≡ (has_key key out || bytes_eq key other)
  unfolding append_fields
  has_key-append key no_fields other v = ground arith
  has_key-append key (field third w out) other v = ground (arith, has_key-append key out other v)

  AreNew-append :
      (fs out : Fields F) (other : Bytes) (v : Value F)
      → has_key other fs ≡ false
      → AreNew fs out
      → AreNew fs (append_fields out (field other v no_fields))
  AreNew-append no_fields out other v h new = tt
  AreNew-append (field key w fs) out other v h new = (
    ground (arith, has_key-append key out other v, bytes_eq-sym other key, new.0, h),
    AreNew-append fs out other v (ground (arith, h)) new.1,
  )

  set_fields-new :
      (fs out : Fields F) → AreFields fs → AreNew fs out → set_fields fs out ≡ append_fields out fs
  unfolding set_fields AreFields append_fields
  set_fields-new no_fields out h new = sym (append_fields-nil out)
  set_fields-new (field key v fs) out (k, (once, (p, h))) new = rw (set_field-new key v out new.0) (
      set_fields-new fs (append_fields out (field key v no_fields)) h
        (AreNew-append fs out key v once new.1)
      ∙ append_fields_assoc out (field key v no_fields) fs)

  AreNew-none : (fs : Fields F) → AreNew fs no_fields
  AreNew-none no_fields = tt
  AreNew-none (field key v fs) = (refl, AreNew-none fs)

  pub set_fields-distinct : (fs : Fields F) → AreFields fs → set_fields fs no_fields ≡ fs
  unfolding append_fields
  set_fields-distinct fs h = set_fields-new fs no_fields h (AreNew-none fs)
