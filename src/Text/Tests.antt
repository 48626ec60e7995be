-- ===== src/Text/Tests.antt =====
-- Strings and numbers at concrete inputs.
use gubos.Prelude.{◌≡◌, refl, ◌==◌, if◌then◌else◌, done, [], ◌∷◌, arith}
use gubos.Text.{Buffer, itoa}
use gubos.Text.Reverse.{Ends}
use gubos.Text.Numeral.{Holds, high_text, high_digits}
use gubos.Text.Spelling.{signed_decimal, itoa-Holds}

-- "abc"
abbrev abc : Buffer
abc k = if k == 0 then 97 else if k == 1 then 98 else if k == 2 then 99 else 0

abc-Ends : Ends abc 3
abc-Ends = record { stop = refl; before = λ k h. ground arith }

abbrev zeros : Buffer
zeros k = 0

itoa-Holds_example :
    (t : Buffer) × (itoa 0xffff_ffff_ffff_fff4 zeros ≡ done t)
    × Holds t (signed_decimal 0xffff_ffff_ffff_fff4)
itoa-Holds_example = itoa-Holds 0xffff_ffff_ffff_fff4 zeros (omega arith) (omega arith)

minus_twelve : signed_decimal 0xffff_ffff_ffff_fff4 ≡ 45 ∷ 49 ∷ 50 ∷ []
unfolding high_text high_digits
minus_twelve = refl
