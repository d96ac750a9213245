-- ===== src/Redis/Server/Frame.antt =====
-- A command on one key of a family, and the values under the others.
use vshortlink.Prelude.{
  ◌≡◌, refl, ap, sym, ◌∙◌, ◌↔◌, Bool, true, false, Text, same, if◌then◌else◌, arith, Bool-cases,
  inl, inr,
}
use vshortlink.Redis.Server.{Value}

module _ {D I : Type 0} (stored : D → Text → Value) (key : I → Text) (eq : I → I → Bool)
    (eq_iff : (i j : I) → (eq i j ≡ true) ↔ (i ≡ j))
    (apart : (i j : I) → same (key i) (key j) ≡ eq i j) (d d' : D) (i : I)
    (frame : (k : Text) → same (key i) k ≡ false → stored d' k ≡ stored d k) where
  -- What is seen of a value after a command on the key `i` that touches no other key.
  pub framed :
      {V : Type 0} (view : Value → V) (new : V)
      → view (stored d' (key i)) ≡ new
      → (j : I) → view (stored d' (key j)) ≡ (if eq i j then new else view (stored d (key j)))
  framed view new e j = elim (Bool-cases (eq i j)) [
    | inl own ↦ ap (λ k. view (stored d' (key k))) (sym ((eq_iff i j).0 own)) ∙ e ∙ rw own refl
    | inr other ↦ ap view (frame (key j) (apart i j ∙ other)) ∙ rw other refl
  ]

  -- A test that every value of the family passes, and the new one does, holds of all of them.
  pub framed_test :
      (test : Value → Bool)
      → test (stored d' (key i)) ≡ true
      → ((j : I) → test (stored d (key j)) ≡ true)
      → (j : I) → test (stored d' (key j)) ≡ true
  framed_test test e before j = framed test true e j ∙ ground (arith, before j)
