-- ===== src/Ps2/Setup/Adds.antt =====
-- What a step of the set-up of the keyboard's controller (drivers/ps2.c) adds to the writes.
use mathlib.Core.List.{append_assoc, append-nil}
use gubos.Prelude.{ℕ, ◌≡◌, refl, ap, ◌∙◌, List, [], ◌∷◌, ◌++◌, Outcome, done, ◌>>=◌}
use gubos.Ps2.Setup.{read, write, Trace, outb}

-- the writes of a trace
unfoldable pub writes : Trace → List (ℕ × ℕ)
writes [] = []
writes (read port ∷ t) = writes t
writes (write port value ∷ t) = (port, value) ∷ writes t

pub writes-append : (t u : Trace) → writes (t ++ u) ≡ writes t ++ writes u
unfolding writes
writes-append [] u = refl
writes-append (read port ∷ t) u = writes-append t u
writes-append (write port value ∷ t) u = ap (λ w. (port, value) ∷ w) (writes-append t u)

-- the step returns and adds the writes `w`, with reads between
abbrev pub Adds : Outcome Trace → Trace → List (ℕ × ℕ) → Type 0
Adds o t w = (t' : Trace) × (o ≡ done t') × (writes t' ≡ writes t ++ w)

pub writes-read : (t : Trace) (port : ℕ) → writes (t ++ (read port ∷ [])) ≡ writes t
unfolding writes
writes-read t port = writes-append t (read port ∷ []) ∙ append-nil (writes t)

pub writes-outb :
    (t : Trace) (port value : ℕ) → writes (outb port value t) ≡ writes t ++ ((port, value) ∷ [])
unfolding writes
writes-outb t port value = writes-append t (write port value ∷ [])

-- one step after another
pub Adds-bind :
    (o : Outcome Trace) (f : Trace → Outcome Trace) (t : Trace) (v w : List (ℕ × ℕ))
    → Adds o t v
    → ((t' : Trace) → Adds (f t') t' w)
    → Adds (o >>= f) t (v ++ w)
Adds-bind o f t v w (t₁, run, add) next =
    let (t₂, run₂, add₂) = next t₁ in
    (t₂, ap (λ x. x >>= f) run ∙ run₂, add₂ ∙ ap (λ x. x ++ w) add ∙ append_assoc (writes t) v w)

pub gather :
    (w w₁ w₂ w₃ w₅ w₆ w₇ a b c d e : List (ℕ × ℕ))
    → w₁ ≡ w ++ a
    → w₂ ≡ w₁ ++ b
    → w₃ ≡ w₂ ++ []
    → w₅ ≡ w₃ ++ c
    → w₆ ≡ w₅ ++ d
    → w₇ ≡ w₆ ++ e
    → w₇ ≡ w ++ (a ++ (b ++ (c ++ (d ++ e))))
gather w w₁ w₂ w₃ w₅ w₆ w₇ a b c d e h₁ h₂ h₃ h₅ h₆ h₇ =
    h₇
    ∙ ap (λ x. x ++ e)
        (h₆
          ∙ ap (λ x. x ++ d)
              (h₅ ∙ ap (λ x. x ++ c) (h₃ ∙ append-nil w₂ ∙ h₂ ∙ ap (λ x. x ++ b) h₁)))
    ∙ simp append_assoc
