-- ===== src/Service/Keeps.antt =====
-- The calls that leave a part of a state as it is.
use vshortlink.Prelude.{◌≡◌, ◌∙◌, Exec, Result-cases, inl, inr, ◌>>=◌}

module _ {S X : Type 0} (part : S → X) where
  abbrev pub Keeps : {A : Type 0} → Exec S A → Type 0
  Keeps m = (s : S) → part (m s).1 ≡ part s

  pub bind-Keeps :
      {A B : Type 0} (m : Exec S A) (f : A → Exec S B)
      → Keeps m
      → ((a : A) → Keeps (f a))
      → Keeps (m >>= f)
  bind-Keeps m f keeps then_keeps s = elim (Result-cases (m s).0) [
    | inl (a, done) ↦ rw done (then_keeps a (m s).1 ∙ keeps s)
    | inr (e, failed) ↦ rw failed (keeps s)
  ]
