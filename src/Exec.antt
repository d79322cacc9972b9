-- ===== src/Exec.antt =====
-- Methods that change an object and may raise. What was written before a raise stays written, so
-- the state comes back beside the exception too.
pub mod Keeps
pub mod Ensures
use rules_enrichment_daemon.Domain.Errors.{Error, Result, ok, err}
use rules_enrichment_daemon.Prelude.{◌≡◌, refl, ap, ◌∙◌}

abbrev pub Exec {ℓ} : (State Answer : Type ℓ) → Type ℓ
Exec State Answer = State → Result Answer × State

module _ {ℓ} {S A : Type ℓ} where
  abbrev pub pure : A → Exec S A
  pure a s = (ok a, s)

  abbrev pub raise : Error → Exec S A
  raise e s = (err e, s)

  abbrev pub lift : Result A → Exec S A
  lift r s = (r, s)

  abbrev pub gets : (read : S → A) → Exec S A
  gets read s = (ok (read s), s)

  abbrev pub handle : Result A × S → (Error → Exec S A) → Result A × S
  handle (ok a, s) h = (ok a, s)
  handle (err e, s) h = h e s

  -- `try: m except Exception as e: h(e)`
  abbrev pub try_except : Exec S A → (Error → Exec S A) → Exec S A
  try_except m h s = handle (m s) h

module _ {S : Type 0} where
  abbrev pub modify : (S → S) → Exec S Unit
  modify f s = (ok tt, f s)

module _ {ℓ} {S A B : Type ℓ} where
  abbrev pub continue : Result A × S → (A → Exec S B) → Result B × S
  continue (ok a, s) f = f a s
  continue (err e, s) f = (err e, s)

  infixl 5 ◌>>=◌ ◌>>◌
  abbrev pub ◌>>=◌ : Exec S A → (A → Exec S B) → Exec S B
  ◌>>=◌ m f s = continue (m s) f

  abbrev pub ◌>>◌ : Exec S A → Exec S B → Exec S B
  first >> second = first >>= λ _. second
