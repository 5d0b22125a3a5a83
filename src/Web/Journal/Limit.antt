-- ===== src/Web/Journal/Limit.antt =====
-- internal/web/handlers.go: how many lines the query of the page of logs asks for.
use sing_box_helper.Prelude.{
  eq_iff, ℕ, ◌≤◌, ◌<◌, ◌&&◌, Option, none, some, String, ◌==◌, ℤ, pos, negsuc, leb_ℤ, ltb_ℤ,
  if◌then◌else◌, ◌≡◌, refl, inl, inr, arith, Bool-cases,
}
use sing_box_helper.Text.{atoi}
use sing_box_helper.Web.Journal.{line_limit}

-- How many lines a query asks for: its number, if that is between 1 and 2000, and else 200.
pub data Asked (v : String) : ℕ → Type 0 where
  in_query : (n : ℕ) → atoi v ≡ some (pos n) → 0 < n → n ≤ 2000 → Asked v n
  by_default : ((n : ℕ) → atoi v ≡ some (pos n) → 0 < n → n ≤ 2000 → ⊥) → Asked v 200

number_Asked :
    (v : String) (o : Option ℤ)
    → atoi v ≡ o
    → (n : ℕ) × ((elim o [
      | none ↦ pos 200
      | some x ↦ if ltb_ℤ (pos 0) x && leb_ℤ x (pos 2000) then x else pos 200
    ])
        ≡ pos n)
      × (0 < n)
      × Asked v n
number_Asked v none e = (200, refl, omega arith, by_default (λ n h. cc))
number_Asked v (some (negsuc x)) e = (200, ground arith, omega arith, by_default (λ n h. cc))
number_Asked v (some (pos x)) e =
    elim (Bool-cases (ltb_ℤ (pos 0) (pos x) && leb_ℤ (pos x) (pos 2000))) [
      | inl t ↦ rw t (x, refl, ground arith, in_query x e (ground arith) (ground arith))
      | inr t ↦ rw t (
        200,
        refl,
        omega arith,
        by_default (λ n h p q. (let same : n ≡ x = cc in absurd (ground arith))),
      )
    ]

atoi_empty : (v : String) → v ≡ "" → atoi v ≡ none
unfolding atoi
atoi_empty v e = rw e refl

pub line_limit-Asked : (v : String) → (n : ℕ) × (line_limit v ≡ pos n) × (0 < n) × Asked v n
unfolding line_limit
line_limit-Asked v = elim (Bool-cases (v == "")) [
  | inl t ↦ rw t (200, refl, omega arith, by_default (λ n h. cc (atoi_empty v ((eq_iff v "").0 t))))
  | inr t ↦ rw t (number_Asked v (atoi v) refl)
]
