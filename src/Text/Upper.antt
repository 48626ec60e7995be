-- ===== src/Text/Upper.antt =====
-- strupper of kernel/string/string.c on a buffer that holds a string.
use gubos.Prelude.{
  ℕ, ◌+◌, ◌≤◌, ◌<◌, ◌≡◌, ◌≢◌, refl, ap, ◌∙◌, ltb, lt→ltb, false, List, [], ◌∷◌, map, length,
  length-map, done, arith,
}
use gubos.Text.{Buffer, strupper, toupper, islower}
use gubos.Text.Copy.{strupper_lem}
use gubos.Text.Numeral.{At, NonZero, Holds, Holds-Ends}

toupper-nonzero : (c : ℕ) → c ≢ 0 → toupper c ≢ 0
unfolding toupper islower
toupper-nonzero c h = ground arith

NonZero-map : (cs : List ℕ) → NonZero cs → NonZero (map toupper cs)
NonZero-map [] h = tt
NonZero-map (c ∷ cs) (here, h) = (toupper-nonzero c here, NonZero-map cs h)

At-map :
    (s t : Buffer) (i : ℕ) (cs : List ℕ)
    → At s i cs
    → ((k : ℕ) → i ≤ k → k < i + length cs → t k ≡ toupper (s k))
    → At t i (map toupper cs)
At-map s t i [] h up = tt
At-map s t i (c ∷ cs) (here, h) up = (
  up i (omega arith) (omega arith) ∙ ap toupper here,
  At-map s t (i + 1) cs h (λ k a b. up k (omega arith) (omega arith)),
)

pub strupper-Holds :
    (s : Buffer) (cs : List ℕ)
    → Holds s cs
    → (t : Buffer) × (strupper s ≡ done t) × Holds t (map toupper cs)
strupper-Holds s cs h =
    let n = length cs in
    let (t, run, up) = strupper_lem n s (Holds-Ends s cs h) h.short in
    let len = length-map cs toupper in
    let last : ltb n n ≡ false = ground arith in
    (
      t,
      run,
      record {
        chars = At-map s t 0 cs h.chars (λ k a b. up k ∙ (rw (lt→ltb k n (omega (arith, b))) refl));
        nonzero = NonZero-map cs h.nonzero;
        stop = ap t len ∙ up n ∙ (rw last h.stop);
        short = omega (arith, len, h.short);
      },
    )
