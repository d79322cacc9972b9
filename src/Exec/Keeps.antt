-- ===== src/Exec/Keeps.antt =====
-- Invariants of actions: one rule for each way to build an action.
use rules_enrichment_daemon.Prelude.{Bool, true, false, if◌then◌else◌}
use rules_enrichment_daemon.Domain.Errors.{Error, Result, ok, err}
use rules_enrichment_daemon.Exec.{Exec, try_except, continue, handle, ◌>>=◌, ◌>>◌}

-- `Inv` holds of the state behind `action` if it holds before it, whether it returns or raises
pub record Keeps {ℓ} {World Answer : Type ℓ} (Inv : World → Type ℓ) (action : Exec World Answer)
    : Type ℓ where
  pub stays : (before : World) → Inv before → Inv (action before).1

module _ {ℓ} {S A B : Type ℓ} {Inv : S → Type ℓ} where
  pub after_continue :
      (x : Result A × S) (f : A → Exec S B)
      → Inv x.1
      → ((a : A) → Keeps Inv (f a))
      → Inv (continue x f).1
  after_continue (ok a, s) f h k = (k a).stays s h
  after_continue (err e, s) f h k = h

  pub Keeps-bind :
      (first : Exec S A) (next : A → Exec S B)
      → Keeps Inv first
      → ((answer : A) → Keeps Inv (next answer))
      → Keeps Inv (first >>= next)
  Keeps-bind first next kept kept' = record {
    stays = λ s h. after_continue (first s) next (kept.stays s h) kept';
  }

  pub Keeps-then :
      (first : Exec S A) (second : Exec S B)
      → Keeps Inv first
      → Keeps Inv second
      → Keeps Inv (first >> second)
  Keeps-then first second kept kept' = Keeps-bind first (λ _. second) kept (λ _. kept')

module _ {ℓ} {S A : Type ℓ} {Inv : S → Type ℓ} where
  -- an action that leaves the state alone
  pub Keeps-same : (m : Result A) → Keeps Inv (λ s. (m, s))
  Keeps-same m = record { stays = λ s h. h }

  pub Keeps-if :
      (test : Bool) (taken missed : Exec S A)
      → Keeps Inv taken
      → Keeps Inv missed
      → Keeps Inv (if test then taken else missed)
  Keeps-if true taken missed kept kept' = kept
  Keeps-if false taken missed kept kept' = kept'

  pub after_handle :
      (x : Result A × S) (h : Error → Exec S A)
      → Inv x.1
      → ((e : Error) → Keeps Inv (h e))
      → Inv (handle x h).1
  after_handle (ok a, s) h p k = p
  after_handle (err e, s) h p k = (k e).stays s p

  pub Keeps-try_except :
      (m : Exec S A) (h : Error → Exec S A)
      → Keeps Inv m
      → ((e : Error) → Keeps Inv (h e))
      → Keeps Inv (try_except m h)
  Keeps-try_except m h km kh = record { stays = λ s p. after_handle (m s) h (km.stays s p) kh }
