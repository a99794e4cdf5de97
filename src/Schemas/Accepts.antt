-- ===== src/Schemas/Accepts.antt =====
-- Which entries `validate` accepts.
use openpact.Prelude.{
  [], ◌∷◌, Text, text_eq, text_eq_iff, ◌∙◌, sym, ap, false, Bool-cases, ℕ, ◌≤◌, codes, Option, none,
  some, Bool, true, ◌≡◌, ◌≢◌, ◌⊎◌, ◌↔◌, inl, inr, refl, arith, Option-cases,
}
use openpact.Json.{Json, Fields, null, bool, num, str, arr, obj, field, is_object, to_text}
use openpact.Schemas.{
  EntryType, ValidationResult, Found, validate, validate_type, check_schema, check_size,
  find_validator, is_truthy, max_payload_bytes,
}

-- The names of the types, as EntryType of packages/daemon/src/schemas/common.ts lists them.
abbrev pub name_of : EntryType → Text
name_of EntryType.knowledge = codes "knowledge"
name_of EntryType.task = codes "task"
name_of EntryType.skill = codes "skill"
name_of EntryType.message = codes "message"
name_of EntryType.admin = codes "admin"
name_of EntryType.invite_redeemed = codes "invite-redeemed"

find_validator-name_of : (t : EntryType) → find_validator (name_of t) ≡ Found.validator t
unfolding find_validator
find_validator-name_of EntryType.knowledge = refl
find_validator-name_of EntryType.task = refl
find_validator-name_of EntryType.skill = refl
find_validator-name_of EntryType.message = refl
find_validator-name_of EntryType.admin = refl
find_validator-name_of EntryType.invite_redeemed = refl

-- One of the names that are looked up, or neither a validator nor truthy.
found_name : (s : Text) (t : EntryType) → find_validator s ≡ Found.validator t → s ≡ name_of t
unfolding find_validator
found_name s EntryType.knowledge h = ground (arith, text_eq_iff s (codes "knowledge"))
found_name s EntryType.task h = ground (arith, text_eq_iff s (codes "task"))
found_name s EntryType.skill h = ground (arith, text_eq_iff s (codes "skill"))
found_name s EntryType.message h = ground (arith, text_eq_iff s (codes "message"))
found_name s EntryType.admin h = ground (arith, text_eq_iff s (codes "admin"))
found_name s EntryType.invite_redeemed h = ground (arith, text_eq_iff s (codes "invite-redeemed"))

inherited_name :
    (s : Text)
    → find_validator s ≡ Found.inherited_truthy
    → (s ≡ codes "constructor") ⊎ (s ≡ codes "toString")
unfolding find_validator
inherited_name s h =
    ground (arith, text_eq_iff s (codes "constructor"), text_eq_iff s (codes "toString"))

-- A value that prints as one of the names is truthy.
named-is_truthy :
    (v : Json) (t : Text) → to_text v ≡ t → find_validator t ≢ Found.undefined → is_truthy v ≡ true
unfolding is_truthy to_text find_validator
named-is_truthy null t h k = absurd (k (ap find_validator (sym h)))
named-is_truthy (bool true) t h k = refl
named-is_truthy (bool false) t h k = absurd (k (ap find_validator (sym h)))
named-is_truthy (num n) t h k = elim (Bool-cases (text_eq n (codes "0"))) [
  | inl zero_ ↦ absurd (k (ap find_validator (sym h ∙ (text_eq_iff n (codes "0")).0 zero_)))
  | inr other ↦ rw other refl
]
named-is_truthy (str []) t h k = absurd (k (ap find_validator (sym h)))
named-is_truthy (str (c ∷ s)) t h k = refl
named-is_truthy (arr xs) t h k = refl
named-is_truthy (obj fs) t h k = refl

is_object-obj : (e : Json) → is_object e ≡ true → (fs : Fields) × (e ≡ obj fs)
is_object-obj (obj fs) h = (fs, refl)
is_object-obj null h = absurd (ground arith)
is_object-obj (bool b) h = absurd (ground arith)
is_object-obj (num n) h = absurd (ground arith)
is_object-obj (str s) h = absurd (ground arith)
is_object-obj (arr xs) h = absurd (ground arith)

module _ (validators : EntryType → Json → Bool) (json_bytes : Json → ℕ) where
  check_schema-found :
      (f : Found) (e : Json)
      → check_schema validators json_bytes f e ≡ ValidationResult.valid
      → (f ≢ Found.inherited_throws) × (f ≢ Found.undefined)
  unfolding check_schema
  check_schema-found (Found.validator t) e v = (λ p. cc, λ p. cc)
  check_schema-found Found.inherited_truthy e v = (λ p. cc, λ p. cc)
  check_schema-found Found.inherited_throws e v = absurd (ground arith)
  check_schema-found Found.undefined e v = absurd (ground arith)

  validate_type-found :
      (o : Option Json) (e : Json)
      → validate_type validators json_bytes o e ≡ ValidationResult.valid
      → (t : Json) × (o ≡ some t)
        × (check_schema validators json_bytes (find_validator (to_text t)) e
            ≡ ValidationResult.valid)
  unfolding validate_type
  validate_type-found none e v = absurd (ground arith)
  validate_type-found (some t) e v = (t, refl, ground arith)

  -- A valid entry has a type, and `validators` has a callable of that name.
  pub validate-found :
      (e : Json)
      → validate validators json_bytes e ≡ ValidationResult.valid
      → (t : Json) × (field "type" e ≡ some t)
        × (find_validator (to_text t) ≢ Found.inherited_throws)
        × (find_validator (to_text t) ≢ Found.undefined)
  unfolding validate
  validate-found e v =
      let checked : validate_type validators json_bytes (field "type" e) e
          ≡ ValidationResult.valid =
        ground arith in
      let (t, given, found) = validate_type-found (field "type" e) e checked in
      let (p, q) = check_schema-found (find_validator (to_text t)) e found in (t, given, p, q)

  -- What an entry needs to be accepted, by the type that it carries.
  pub record IsAccepted (e : Json) : Type 0 where
    pub fields : Fields
    pub object : e ≡ obj fields
    pub type : Json
    pub payload : Json
    pub typed : field "type" e ≡ some type
    pub carried : field "payload" e ≡ some payload
    pub fits : json_bytes payload ≤ 65536
    pub by :
        ((t : EntryType) × (to_text type ≡ name_of t) × (validators t e ≡ true))
        ⊎ ((to_text type ≡ codes "constructor") ⊎ (to_text type ≡ codes "toString"))

  check_size-fits :
      (o : Option Json)
      → check_size json_bytes o ≡ ValidationResult.valid
      → (p : Json) × (o ≡ some p) × (json_bytes p ≤ max_payload_bytes)
  unfolding check_size
  check_size-fits none v = absurd (ground arith)
  check_size-fits (some p) v = (p, refl, ground arith)

  check_schema-by :
      (f : Found) (e : Json)
      → check_schema validators json_bytes f e ≡ ValidationResult.valid
      → (check_size json_bytes (field "payload" e) ≡ ValidationResult.valid)
        × (((t : EntryType) × (f ≡ Found.validator t) × (validators t e ≡ true))
            ⊎ (f ≡ Found.inherited_truthy))
  unfolding check_schema
  check_schema-by (Found.validator t) e v = (ground arith, inl (t, refl, ground arith))
  check_schema-by Found.inherited_truthy e v = (v, inr refl)
  check_schema-by Found.inherited_throws e v = absurd (ground arith)
  check_schema-by Found.undefined e v = absurd (ground arith)

  validate-IsAccepted :
      (e : Json) → validate validators json_bytes e ≡ ValidationResult.valid → IsAccepted e
  unfolding validate validate_type
  validate-IsAccepted e v = elim (Option-cases (field "type" e)) [
    | inl untyped ↦ absurd (ground arith)
    | inr (t, typed) ↦
        let (sized, by) = check_schema-by (find_validator (to_text t)) e (ground arith) in
        let (p, carried, fits) = check_size-fits (field "payload" e) sized in
        let (fields, object) = is_object-obj e (ground arith) in
        record {
          fields = fields;
          object = object;
          type = t;
          payload = p;
          typed = typed;
          carried = carried;
          fits = fits;
          by = elim by [
            | inl (et, found, accepted) ↦ inl (et, found_name (to_text t) et found, accepted)
            | inr found ↦ inr (inherited_name (to_text t) found)
          ];
        }
  ]

  -- What the name of an accepted type finds.
  accepted_by :
      (e : Json) (a : IsAccepted e)
      → ((t : EntryType) × (find_validator (to_text (a.type)) ≡ Found.validator t)
          × (validators t e ≡ true))
        ⊎ (find_validator (to_text (a.type)) ≡ Found.inherited_truthy)
  unfolding find_validator
  accepted_by e a = elim (a.by) [
    | inl (t, name, accepted) ↦ inl (t, ap find_validator name ∙ find_validator-name_of t, accepted)
    | inr (inl name) ↦ inr (ap find_validator name)
    | inr (inr name) ↦ inr (ap find_validator name)
  ]

  accepted-validate :
      (e : Json) → IsAccepted e → validate validators json_bytes e ≡ ValidationResult.valid
  unfolding validate validate_type check_schema check_size
  accepted-validate e a =
      let object : is_object e ≡ true = ap is_object (a.object) in
      elim (accepted_by e a) [
        | inl (t, found, accepted) ↦
            let given = named-is_truthy (a.type) (to_text (a.type)) refl (λ u. cc) in
            ground (arith, object, a.typed, given, a.carried, a.fits, found)
        | inr found ↦
            let given = named-is_truthy (a.type) (to_text (a.type)) refl (λ u. cc) in
            ground (arith, object, a.typed, given, a.carried, a.fits, found)
      ]

  -- An entry is valid exactly if it is an object with a payload whose JSON text has at most 65,536
  -- bytes, and its type prints as the name of one of the six entry types, whose schema accepts the
  -- entry, or as "constructor" or "toString", which no schema is asked about.
  pub validate_iff :
      (e : Json) → (validate validators json_bytes e ≡ ValidationResult.valid) ↔ IsAccepted e
  validate_iff e = (validate-IsAccepted e, accepted-validate e)

  -- An object of the type "constructor", which no schema describes, is valid whatever the
  -- schemas say, if it has a payload within the limit: `Object` is called as its validator.
  inherited_type_passes :
      (e payload : Json)
      → is_object e ≡ true
      → field "type" e ≡ some (str (codes "constructor"))
      → field "payload" e ≡ some payload
      → json_bytes payload ≤ 65536
      → validate validators json_bytes e ≡ ValidationResult.valid
  unfolding to_text
  inherited_type_passes e payload is_obj typed carried fits =
      let (fields, object) = is_object-obj e is_obj in
      accepted-validate e (record {
        fields = fields;
        object = object;
        type = str (codes "constructor");
        payload = payload;
        typed = typed;
        carried = carried;
        fits = fits;
        by = inr (inl refl);
      })
