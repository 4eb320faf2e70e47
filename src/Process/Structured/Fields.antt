-- ===== src/Process/Structured/Fields.antt =====
-- The fields in which structured_handler of src/log/glib-handlers.c finds the domain and the message.
use giitestutils.Base.{
  ◌≡◌, refl, sym, ap, ◌∙◌, true, false, ◌&&◌, List, [], ◌∷◌, Option, none, some, arith, Bytes,
  codes, str_eq, str_eq→eq, if◌then◌else◌, done, Bool-cases, inl, inr,
}
use giitestutils.Log.Tap.{is_some}
use giitestutils.Process.Structured.{GLogField, Found, take_field, collect_fields}

-- The values of the fields of this key.
abbrev pub values_of : Bytes → List GLogField → List (Option Bytes)
values_of key [] = []
values_of key (f ∷ fields) =
    if str_eq f.key key then f.value ∷ values_of key fields else values_of key fields

-- What has been found already, and the values that are to come.
abbrev with_known : Option Bytes → List (Option Bytes) → List (Option Bytes)
with_known none values = values
with_known (some value) values = some value ∷ values

known-same :
    (known : Option Bytes) (values : List (Option Bytes)) (v : Bytes)
    → with_known known values ≡ some v ∷ []
    → is_some known ≡ true
    → (known ≡ some v) × (values ≡ [])
known-same none values v e h = ground arith
known-same (some x) values v e h = ground arith

taken :
    (known : Option Bytes) (value : Option Bytes) (values : List (Option Bytes)) (v : Bytes)
    → with_known known (value ∷ values) ≡ some v ∷ []
    → (value ≡ some v) × (values ≡ [])
taken none value values v e = ground (arith, e)
taken (some x) value values v e = ground (arith, e)

not_both :
    (key : Bytes) → str_eq key (codes "MESSAGE") ≡ true → str_eq key (codes "GLIB_DOMAIN") ≡ false
unfolding str_eq
not_both key is_message = rw (str_eq→eq key (codes "MESSAGE") is_message) refl

-- The field has the key, or else its value does not count.
values_of-key :
    (f : GLogField) (fields : List GLogField) (key : Bytes)
    → str_eq f.key key ≡ true
    → values_of key (f ∷ fields) ≡ f.value ∷ values_of key fields
values_of-key f fields key e = rw e refl

values_of-other :
    (f : GLogField) (fields : List GLogField) (key : Bytes)
    → str_eq f.key key ≡ false
    → values_of key (f ∷ fields) ≡ values_of key fields
values_of-other f fields key e = rw e refl

both_known :
    (found : Found) (domain message : Bytes)
    → found.domain ≡ some domain
    → found.message ≡ some message
    → found ≡ record { domain = some domain; message = some message }
both_known found domain message d m = ground (arith, d, m)

take_field-values :
    (f : GLogField) (found : Found) (fields : List GLogField) (domain message : Bytes)
    → with_known found.domain (values_of (codes "GLIB_DOMAIN") (f ∷ fields)) ≡ some domain ∷ []
    → with_known found.message (values_of (codes "MESSAGE") (f ∷ fields)) ≡ some message ∷ []
    → (next : Found) × (take_field f found ≡ done next)
      × (with_known next.domain (values_of (codes "GLIB_DOMAIN") fields) ≡ some domain ∷ [])
      × (with_known next.message (values_of (codes "MESSAGE") fields) ≡ some message ∷ [])
unfolding take_field
take_field-values f found fields domain message d m =
    elim (Bool-cases (str_eq f.key (codes "MESSAGE"))) [
      | inl is_message ↦
          let other = not_both f.key is_message in
          let (v, rest) = taken found.message f.value (values_of (codes "MESSAGE") fields) message (
            ap (with_known found.message)
              (sym (values_of-key f fields (codes "MESSAGE") is_message))
            ∙ m) in
          (
            record found { message = some message },
            rw (is_message, v) refl,
            ap (with_known found.domain)
                  (sym (values_of-other f fields (codes "GLIB_DOMAIN") other))
                ∙ d,
            ap (λ vs. some message ∷ vs) rest,
          )
      | inr no_message ↦ elim (Bool-cases (str_eq f.key (codes "GLIB_DOMAIN"))) [
        | inl is_domain ↦
            let (v, rest) =
              taken found.domain f.value (values_of (codes "GLIB_DOMAIN") fields) domain (
                ap (with_known found.domain)
                  (sym (values_of-key f fields (codes "GLIB_DOMAIN") is_domain))
                ∙ d) in
            (
              record found { domain = some domain },
              rw (no_message, is_domain, v) refl,
              ap (λ vs. some domain ∷ vs) rest,
              ap (with_known found.message)
                    (sym (values_of-other f fields (codes "MESSAGE") no_message))
                  ∙ m,
            )
        | inr no_domain ↦ (
          found,
          rw (no_message, no_domain) refl,
          ap (with_known found.domain)
                (sym (values_of-other f fields (codes "GLIB_DOMAIN") no_domain))
              ∙ d,
          ap (with_known found.message)
                (sym (values_of-other f fields (codes "MESSAGE") no_message))
              ∙ m,
        )
      ]
    ]

pub collect_fields-values :
    (fields : List GLogField) (found : Found) (domain message : Bytes)
    → with_known found.domain (values_of (codes "GLIB_DOMAIN") fields) ≡ some domain ∷ []
    → with_known found.message (values_of (codes "MESSAGE") fields) ≡ some message ∷ []
    → collect_fields fields found ≡ done (record { domain = some domain; message = some message })
unfolding collect_fields
collect_fields-values [] found domain message d m = ap done (
    both_known found domain message (none_left found.domain domain d)
      (none_left found.message message m))
  where
    none_left :
        (known : Option Bytes) (v : Bytes) → with_known known [] ≡ some v ∷ [] → known ≡ some v
    none_left none v e = ground (arith, e)
    none_left (some x) v e = ground (arith, e)
collect_fields-values (f ∷ fields) found domain message d m =
    elim (Bool-cases (is_some found.message && is_some found.domain)) [
      | inl both ↦ rw both (
          ap done (
            both_known found domain message
              (known-same found.domain _ domain d (ground (arith, both))).0
              (known-same found.message _ message m (ground (arith, both))).0))
      | inr missing ↦
          let (next, e, d', m') = take_field-values f found fields domain message d m in
          rw (missing, e) (collect_fields-values fields next domain message d' m')
    ]
