-- ===== src/Mock/Samples.antt =====
-- Concrete numbers and a configuration for the tests: floats are the naturals and NaN, and only
-- decimal digits are parsed.
use radio_container.Prelude.{
  ℕ, ◌+◌, ◌-◌, ◌*◌, ◌≡◌, refl, true, false, ◌&&◌, [], ◌∷◌, Option, none, some, codes, leb, arith,
  if◌then◌else◌, inr, split, some_inj, subst,
}
use radio_container.Prelude.Int.{ℤ, pos}
use radio_container.Prelude.Float.{Sample, sample_float, fle, feq, lit}
use radio_container.Mock.Config.{Text, Config, get_default_config}
use radio_container.Mock.Radio.Range.{Numbers, stepped, triple}
use radio_container.Mock.Radio.Range.Bounds.{Laws}
use radio_container.Mock.Radio.Range.Termination.{AllEnd, Ends, Passes, after_rounds}
use radio_container.Mock.Commands.Optional.{Readings}
use radio_container.Mock.Commands.Positioning.{GpsNumbers}

parse_digits : ℕ → Text → Option ℕ
parse_digits n [] = some n
parse_digits n (c ∷ s) =
    let rest = parse_digits (10 * n + (c - 48)) s in if leb b'0' c && leb c b'9' then rest else none

parse : Text → Option ℕ
unfolding parse_digits
parse [] = none
parse (c ∷ s) = parse_digits 0 (c ∷ s)

as_float : Option ℕ → Option Sample
as_float none = none
as_float (some n) = some (some n)

as_int : Option ℕ → Option ℤ
as_int none = none
as_int (some n) = some (pos n)

abbrev sum : Sample → Sample → Sample
sum (some a) (some b) = some (a + b)
sum _ _ = none

unfoldable pub numbers : Numbers Sample
unfolding parse as_float as_int
numbers = record { parse_float = λ t. as_float (parse t); add = sum; atoi = λ t. as_int (parse t) }

trans : (a b c : Sample) → fle a b ≡ true → fle b c ≡ true → fle a c ≡ true
trans (some a) (some b) (some c) h k = ground arith
trans none b c h k = absurd (cc)
trans (some a) none c h k = absurd (cc)
trans (some a) (some b) none h k = absurd (cc)

symmetric : (a b : Sample) → feq a b ≡ true → fle b a ≡ true
symmetric (some a) (some b) h = ground arith
symmetric none b h = absurd (cc)
symmetric (some a) none h = absurd (cc)

reflexive : (a b : Sample) → fle a b ≡ true → fle a a ≡ true
reflexive (some a) b h = ground arith
reflexive none b h = absurd (cc)

sum_grows :
    (a s e : Sample) → fle s (lit 0) ≡ false → fle (sum a s) e ≡ true → fle a (sum a s) ≡ true
sum_grows (some a) (some s) e h k = ground arith
sum_grows none s e h k = absurd (cc)
sum_grows (some a) none e h k = absurd (cc)

pub numbers-Laws : Laws numbers
unfolding numbers
numbers-Laws = record {
  trans = trans;
  symmetric = symmetric;
  reflexive = reflexive;
  grows = sum_grows;
}

unfoldable pub readings : Readings
unfolding parse as_int
readings = record { atoi = λ t. as_int (parse t); atoi_failed = λ t. pos 0; milliwatts = λ p. p }

unfoldable pub gps : GpsNumbers Sample
unfolding parse as_float
gps = record {
  decimal = λ t. none;
  parse_float = λ t. as_float (parse t);
  parse_bool = λ t. none;
  parse_int = λ t. none;
  drift = λ n x. x;
}

-- The defaults with fewer frequencies.
unfoldable pub small : Config
small = record get_default_config {
  frequency_profiles =
      record {
        frequencies = codes "2200:20:2240" ∷ codes "4700" ∷ [];
        bandwidth = codes "-1";
        antenna_mask = codes "15";
      }
      ∷ [];
}

band_Ends : Ends numbers 5 (codes "2200:20:2240")
unfolding Ends stepped triple split numbers parse parse_digits as_float Passes after_rounds
band_Ends r e = subst (Passes numbers 5) (some_inj e) (inr (3, omega arith, refl))

single_Ends : Ends numbers 5 (codes "4700")
unfolding Ends stepped split
single_Ends r e = absurd (cc)

pub small-AllEnd : AllEnd numbers 5 small.frequency_profiles
unfolding small AllEnd
small-AllEnd = ((band_Ends, (single_Ends, tt)), tt)
