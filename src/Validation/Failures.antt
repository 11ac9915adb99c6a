-- ===== src/Validation/Failures.antt =====
-- The errors that `Validate` of validation.go collects.
use tracks.Common.{
  String, ◌≡◌, refl, sym, ap, ◌∙◌, ◌≢◌, ◌↔◌, inl, inr, Option, none, some, List, [], ◌∷◌, ◌++◌, map,
  eq_iff, if◌then◌else◌, Bool-cases, ◌==◌, string_eq, keep,
}
use mathlib.Core.List.{append_assoc, append-nil}
use tracks.Common.Dict.{Dict, get, put, get-put}
use tracks.Common.Split.{split_on}
use tracks.Validation.{
  Value, Env, Field, field_name, validate_field, or_nil, note, check_rules, check_fields, validate,
}

module _ {X : Type 0} (env : Env X) where
  -- The failing rules of a field, with the name and the message.
  abbrev pub failing_rules :
      List (Field X) → String → Value X → List String → List (String × String)
  failing_rules obj name v [] = []
  failing_rules obj name v (rule ∷ rules) =
      let rest = failing_rules obj name v rules in
      elim (validate_field env obj v rule) [ none ↦ rest | some message ↦ (name, message) ∷ rest ]

  -- The failing rules of all fields, in their order.
  abbrev pub failing : List (Field X) → List (Field X) → List (String × String)
  failing obj [] = []
  failing obj (f ∷ fs) =
      (if f.tag == "" then [] else failing_rules obj (field_name f) f.value (split_on b',' f.tag))
      ++ failing obj fs

  abbrev noted : Dict String (List String) → List (String × String) → Dict String (List String)
  noted errors [] = errors
  noted errors ((name, message) ∷ fs) = noted (note env name errors (some message)) fs

  abbrev pub messages : String → List (String × String) → List String
  messages name fs = map (λ f. f.1) (keep (λ f. f.0 == name) fs)

  noted-append :
      (errors : Dict String (List String)) (fs gs : List (String × String))
      → noted (noted errors fs) gs ≡ noted errors (fs ++ gs)
  noted-append errors [] gs = refl
  noted-append errors ((name, message) ∷ fs) gs =
      noted-append (note env name errors (some message)) fs gs

  check_rules-noted :
      (obj : List (Field X)) (name : String) (v : Value X) (errors : Dict String (List String))
      (rules : List String)
      → check_rules env obj name v errors rules ≡ noted errors (failing_rules obj name v rules)
  unfolding check_rules
  check_rules-noted obj name v errors [] = refl
  check_rules-noted obj name v errors (rule ∷ rules) =
      go (λ errors. check_rules-noted obj name v errors rules) (validate_field env obj v rule)
    where
      go :
          ((errors : Dict String (List String))
            → check_rules env obj name v errors rules
              ≡ noted errors (failing_rules obj name v rules))
          → (o : Option String)
          → check_rules env obj name v (note env name errors o) rules
            ≡ noted errors (elim o [
              | none ↦ failing_rules obj name v rules
              | some message ↦ (name, message) ∷ failing_rules obj name v rules
            ])
      go again none = again errors
      go again (some message) = again (note env name errors (some message))

  check_fields-noted :
      (obj : List (Field X)) (errors : Dict String (List String)) (fs : List (Field X))
      → check_fields env obj errors fs ≡ noted errors (failing obj fs)
  unfolding check_fields
  check_fields-noted obj errors [] = refl
  check_fields-noted obj errors (f ∷ fs) = elim (Bool-cases (f.tag == "")) [
    | inl absent ↦ rw (check_fields, absent) (check_fields-noted obj errors fs)
    | inr given ↦
        rw (check_fields, given)
          (check_fields-noted obj
              (check_rules env obj (field_name f) f.value errors (split_on b',' f.tag)) fs
            ∙ ap (λ errors. noted errors (failing obj fs))
                (check_rules-noted obj (field_name f) f.value errors (split_on b',' f.tag))
            ∙ noted-append errors (failing_rules obj (field_name f) f.value (split_on b',' f.tag))
                (failing obj fs))
  ]

  get-note :
      (errors : Dict String (List String)) (name n message : String)
      → or_nil env (get n (note env name errors (some message)))
        ≡ or_nil env (get n errors) ++ messages n ((name, message) ∷ [])
  get-note errors name n message =
      ap (or_nil env) (get-put name n _ errors) ∙ elim (Bool-cases (name == n)) [
        | inl same ↦
            rw same (ap (λ k. or_nil env (get k errors) ++ message ∷ []) ((eq_iff _ _).0 same))
        | inr other ↦ rw other (sym (append-nil _))
      ]

  messages-cons :
      (name n message : String) (fs : List (String × String))
      → messages n ((name, message) ∷ []) ++ messages n fs ≡ messages n ((name, message) ∷ fs)
  messages-cons name n message fs = elim (Bool-cases (name == n)) [
    | inl same ↦ rw same refl
    | inr other ↦ rw other refl
  ]

  get-noted :
      (errors : Dict String (List String)) (fs : List (String × String)) (n : String)
      → or_nil env (get n (noted errors fs)) ≡ or_nil env (get n errors) ++ messages n fs
  get-noted errors [] n = sym (append-nil _)
  get-noted errors ((name, message) ∷ fs) n =
      get-noted (note env name errors (some message)) fs n
      ∙ ap (λ l. l ++ messages n fs) (get-note errors name n message)
      ∙ append_assoc (or_nil env (get n errors)) (messages n ((name, message) ∷ [])) (messages n fs)
      ∙ ap (λ l. or_nil env (get n errors) ++ l) (messages-cons name n message fs)

  put_ne : (k : String) (v : List String) (m : Dict String (List String)) → put k v m ≢ []
  unfolding put
  put_ne k v [] e = cc e
  put_ne k v ((j, w) ∷ m) e = elim (Bool-cases (j == k)) [
    | inl same ↦ absurd (cc (e, same))
    | inr other ↦ absurd (cc (e, other))
  ]

  noted_nil :
      (errors : Dict String (List String)) (fs : List (String × String))
      → noted errors fs ≡ []
      → errors ≡ []
  noted_nil errors [] e = e
  noted_nil errors ((name, message) ∷ fs) e =
      absurd (put_ne name _ errors (noted_nil (note env name errors (some message)) fs e))

  noted_nil_iff : (fs : List (String × String)) → (noted [] fs ≡ []) ↔ (fs ≡ [])
  noted_nil_iff [] = (λ e. refl, λ e. refl)
  noted_nil_iff ((name, message) ∷ fs) =
      (λ e. absurd (put_ne name _ [] (noted_nil (note env name [] (some message)) fs e)), λ e. cc e)

  -- The errors of a result of `Validate`, none where it is nil.
  abbrev pub errors_of : Option (Dict String (List String)) → Dict String (List String)
  errors_of none = []
  errors_of (some errors) = errors

  abbrev result : Dict String (List String) → Option (Dict String (List String))
  result [] = none
  result (e ∷ es) = some (e ∷ es)

  errors_of-result : (errors : Dict String (List String)) → errors_of (result errors) ≡ errors
  errors_of-result [] = refl
  errors_of-result (e ∷ es) = refl

  result-none_iff : (errors : Dict String (List String)) → (result errors ≡ none) ↔ (errors ≡ [])
  result-none_iff [] = (λ e. refl, λ e. refl)
  result-none_iff (e ∷ es) = (λ h. cc h, λ h. cc h)

  -- `Validate` gives no error exactly if no rule of a field fails; and under each name it lists the messages
  -- of exactly the failing rules of the fields with that name, in the order of the fields and rules.
  pub validate-failing :
      (obj : List (Field X)) (name : String)
      → ((validate env obj ≡ none) ↔ (failing obj obj ≡ []))
        × (or_nil env (get name (errors_of (validate env obj))) ≡ messages name (failing obj obj))
  unfolding validate get
  validate-failing obj name =
      let e = check_fields-noted obj [] obj in
      let nil = noted_nil_iff (failing obj obj) in
      let empty = result-none_iff (check_fields env obj [] obj) in
      (
        (λ h. nil.0 (sym e ∙ empty.0 h), λ h. empty.1 (e ∙ nil.1 h)),
        ap (λ d. or_nil env (get name d)) (errors_of-result (check_fields env obj [] obj) ∙ e)
            ∙ get-noted [] (failing obj obj) name,
      )
