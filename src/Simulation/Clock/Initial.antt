-- ===== src/Simulation/Clock/Initial.antt =====
-- The clock that `Clock.__init__` makes.
use zerocool.Prelude.{ℕ, sym, ◌∙◌, false, Option, none, nat_eq, length-replicate, get_or-replicate}
use zerocool.Dict.{get}
use zerocool.Simulation.Clock.{clock}
use zerocool.Simulation.Clock.Access.{IsValid}

pub clock-IsValid : (capacity : ℕ) → IsValid (clock capacity)
unfolding get
clock-IsValid capacity = record {
  slots_size = length-replicate capacity none;
  bits_size = length-replicate capacity false;
  hand_inside = λ p. p;
  located = λ k i e. cc;
  listed =
      λ i k e. absurd (let e' = sym (get_or-replicate {A = Option ℕ} capacity i none) ∙ e in cc);
}
