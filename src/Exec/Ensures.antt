-- ===== src/Exec/Ensures.antt =====
-- What holds of the state when an action returns; nothing is said of one that raises.
use rules_enrichment_daemon.Prelude.{◌≡◌, refl, Bool, true, false, if◌then◌else◌}
use rules_enrichment_daemon.Domain.Errors.{Error, Result, ok, err}
use rules_enrichment_daemon.Exec.{Exec, continue, handle}

module _ {ℓ} {S A : Type ℓ} where
  abbrev pub Ensures : (S → Type ℓ) → Result A × S → Type ℓ
  Ensures Q (ok a, s) = Q s
  Ensures Q (err e, s) = Unit

  pub Ensures-elim : (Q : S → Type ℓ) (x : Result A × S) {a : A} → Ensures Q x → x.0 ≡ ok a → Q x.1
  Ensures-elim Q (ok a, s) h e = h
  Ensures-elim Q (err x, s) h e = cc

  pub Ensures-handle :
      (Q : S → Type ℓ) (x : Result A × S) (h : Error → Exec S A)
      → Ensures Q x
      → ((e : Error) (s : S) → Ensures Q (h e s))
      → Ensures Q (handle x h)
  Ensures-handle Q (ok a, s) h e k = e
  Ensures-handle Q (err x, s) h e k = k x s

module _ {ℓ} {S A B : Type ℓ} where
  pub Ensures-continue :
      (P Q : S → Type ℓ) (x : Result A × S) (f : A → Exec S B)
      → Ensures P x
      → ((a : A) (s : S) → P s → Ensures Q (f a s))
      → Ensures Q (continue x f)
  Ensures-continue P Q (ok a, s) f h k = k a s h
  Ensures-continue P Q (err x, s) f h k = tt

  -- an action behind which nothing is known of the state
  pub Ensures-after :
      (Q : S → Type ℓ) (x : Result A × S) (f : A → Exec S B)
      → ((a : A) (s : S) → Ensures Q (f a s))
      → Ensures Q (continue x f)
  Ensures-after Q (ok a, s) f k = k a s
  Ensures-after Q (err x, s) f k = tt

module _ {ℓ} {S A : Type ℓ} where
  pub Ensures-if :
      (Q : S → Type ℓ) (b : Bool) (m n : Exec S A) (s : S)
      → (b ≡ true → Ensures Q (m s))
      → (b ≡ false → Ensures Q (n s))
      → Ensures Q ((if b then m else n) s)
  Ensures-if Q true m n s km kn = km refl
  Ensures-if Q false m n s km kn = kn refl
