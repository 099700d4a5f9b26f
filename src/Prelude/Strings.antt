-- ===== src/Prelude/Strings.antt =====
-- Rust's `String` and `&str`: the list of UTF-8 bytes. `lit` is a literal (every literal of the
-- program that the model uses is ASCII), `show` the `Display` of an unsigned integer.
pub mod Decimal
pub mod Parts
use Prim.Native.Char.{code}
use Prim.Native.Nat.{ℕ, zero, suc, ◌+◌, ◌/◌, ◌%◌}
use Prim.Native.String.{String}
use mathlib.Core.Path.{◌≡◌, refl}
use mathlib.Core.List.{List, [], ◌∷◌, ◌++◌}
use mathlib.Core.Bool.{Bool, true, false, ◌&&◌}
use mathlib.Core.Option.{Option}
use ovid.Prelude.Tests.{ltb, nat_beq, if◌then◌else◌}
use ovid.Prelude.Eq.{IsEq, list_eq, option_eq, nat_eq}

abbrev pub Text : Type 0
Text = List ℕ

abbrev codes : String → List ℕ
codes String.[] = []
codes (String.◌∷◌ c s) = code c ∷ codes s

unfoldable pub lit : String → Text
lit s = codes s

instance abbrev pub text_eq : IsEq Text
text_eq = list_eq

instance abbrev pub option_text_eq : IsEq (Option Text)
option_text_eq = option_eq

-- The decimal digits of `n`, least first, with fuel; `n + 1` rounds are enough.
digits_from : ℕ → ℕ → Text
digits_from zero n = []
digits_from (suc fuel) n =
    let rest = digits_from fuel (n / 10) in
    if ltb n 10 then (b'0' + n) ∷ [] else (b'0' + n % 10) ∷ rest

reverse_onto : Text → Text → Text
reverse_onto acc [] = acc
reverse_onto acc (c ∷ cs) = reverse_onto (c ∷ acc) cs

unfoldable pub show : ℕ → Text
unfolding digits_from reverse_onto
show n = reverse_onto [] (digits_from (suc n) n)

-- `parts.join(sep)`
unfoldable pub join : Text → List Text → Text
join sep [] = []
join sep (x ∷ []) = x
join sep (x ∷ y ∷ rest) = x ++ (sep ++ join sep (y ∷ rest))

-- `s.starts_with(p)`
unfoldable pub starts_with : Text → Text → Bool
starts_with [] s = true
starts_with (c ∷ p) [] = false
starts_with (c ∷ p) (d ∷ s) = nat_beq c d && starts_with p s

show_ten : show 1024 ≡ lit "1024"
unfolding show lit
show_ten = refl
