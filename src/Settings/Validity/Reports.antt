-- ===== src/Settings/Validity/Reports.antt =====
-- Lists of problems, and the parts that both modes share.
use local_dictation.Prelude.{
  Bool, true, false, not, ◌&&◌, List, [], ◌∷◌, ◌++◌, ◌≡◌, ◌≢◌, ◌⊎◌, ◌↔◌, refl, inl, inr, arith,
  Bool-cases, All,
}
use local_dictation.Prelude.Int.{ℤ, pos, eq_of_parts}
use local_dictation.Text.{Text, is_empty}
use local_dictation.Text.Laws.{is_empty_iff}
use local_dictation.Settings.Config.{eqb_ℤ}
use local_dictation.Settings.Validate.{Problem, report, gather, port_problems, differ}
use local_dictation.Settings.Validity.Conditions.{IsPort}

module _ {A : Type 0} where
  nil-append : (xs ys : List A) → xs ++ ys ≡ [] → (xs ≡ []) × (ys ≡ [])
  nil-append [] ys e = (refl, e)
  nil-append (x ∷ xs) ys e = absurd (ground (arith, e))

  append_nils : {xs ys : List A} → xs ≡ [] → ys ≡ [] → xs ++ ys ≡ []
  append_nils {xs = []} e h = h
  append_nils {xs = x ∷ xs} e h = absurd (ground (arith, e))

pub report-nil : (b : Bool) (p : Problem) → report b p ≡ [] → b ≡ false
report-nil true p e = absurd (ground (arith, e))
report-nil false p e = refl

pub report_nothing : {b : Bool} (p : Problem) → b ≡ false → report b p ≡ []
report_nothing {b = true} p e = absurd (ground (arith, e))
report_nothing {b = false} p e = refl

pub eqb_iff : (a b : ℤ) → (eqb_ℤ a b ≡ true) ↔ (a ≡ b)
eqb_iff a b = (λ h. eq_of_parts a b (ground (arith, h)), λ e. ground (arith, e))

pub port_zero : (label : Text) (p : ℤ) → port_problems label p false ≡ [] → (p ≡ pos 0) ⊎ IsPort p
unfolding port_problems
port_zero label p e = elim (Bool-cases (eqb_ℤ p (pos 0))) [
  | inl z ↦ inl ((eqb_iff p (pos 0)).0 z)
  | inr nz ↦ inr (ground (arith, e, nz), ground (arith, e, nz))
]

pub port_needed : (label : Text) (p : ℤ) → port_problems label p true ≡ [] → IsPort p
unfolding port_problems
port_needed label p e = (ground (arith, e), ground (arith, e))

pub port_allowed : (label : Text) (p : ℤ) (b : Bool) → IsPort p → port_problems label p b ≡ []
unfolding port_problems
port_allowed label p b h = ground (arith, h.0, h.1)

pub zero_allowed : (label : Text) (p : ℤ) → p ≡ pos 0 → port_problems label p false ≡ []
unfolding port_problems
zero_allowed label p h = ground (arith, h)

pub not_empty : (s : Text) → is_empty s ≡ false → s ≢ []
unfolding is_empty
not_empty [] h = absurd (ground (arith, h))
not_empty (c ∷ s) h = λ e. ground (arith, e)

pub is_filled : (s : Text) → s ≢ [] → is_empty s ≡ false
unfolding is_empty
is_filled [] h = absurd (h refl)
is_filled (c ∷ s) h = refl

pub certificates :
    (enabled : Bool) (cert key : Text)
    → (enabled && differ (is_empty cert) (is_empty key)) ≡ false
    → enabled ≡ true
    → (cert ≡ []) ↔ (key ≡ [])
certificates enabled cert key h on = (
  λ e. ground (arith, h, on, e, is_empty_iff cert, is_empty_iff key),
  λ e. ground (arith, h, on, e, is_empty_iff cert, is_empty_iff key),
)

pub both_certificates :
    (enabled : Bool) (cert key : Text)
    → (enabled ≡ true → (cert ≡ []) ↔ (key ≡ []))
    → (enabled && differ (is_empty cert) (is_empty key)) ≡ false
both_certificates false cert key h = refl
both_certificates true cert key h =
    let (to, from) = h refl in
    elim (Bool-cases (is_empty cert)) [
      | inl e ↦ ground (arith, e, to ((is_empty_iff cert).0 e), is_empty_iff key)
      | inr e ↦ elim (Bool-cases (is_empty key)) [
        | inl k ↦ ground (arith, k, from ((is_empty_iff key).0 k), is_empty_iff cert)
        | inr k ↦ ground (arith, e, k)
      ]
    ]

pub ports_differ : (a b : ℤ) → (not (eqb_ℤ a (pos 0)) && eqb_ℤ a b) ≡ false → a ≢ pos 0 → a ≢ b
ports_differ a b h nz same = ground (arith, h, eqb_iff a (pos 0), eqb_iff a b, nz, same)

pub differing_ports : (a b : ℤ) → (a ≢ pos 0 → a ≢ b) → (not (eqb_ℤ a (pos 0)) && eqb_ℤ a b) ≡ false
differing_ports a b h = elim (Bool-cases (eqb_ℤ a (pos 0))) [
  | inl z ↦ ground (arith, z)
  | inr nz ↦ elim (Bool-cases (eqb_ℤ a b)) [
    | inl s ↦ absurd (h (λ e. ground (arith, nz, e, eqb_iff a (pos 0))) ((eqb_iff a b).0 s))
    | inr d ↦ ground (arith, d)
  ]
]

pub gather-nil : (pss : List (List Problem)) → gather pss ≡ [] → All (λ ps. ps ≡ []) pss
unfolding gather
gather-nil [] e = tt
gather-nil (ps ∷ pss) e = let (h, k) = nil-append ps (gather pss) e in (h, gather-nil pss k)

pub gather_nils : (pss : List (List Problem)) → All (λ ps. ps ≡ []) pss → gather pss ≡ []
unfolding gather
gather_nils [] h = refl
gather_nils (ps ∷ pss) (h, k) = append_nils h (gather_nils pss k)
