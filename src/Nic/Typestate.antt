-- ===== src/Nic/Typestate.antt =====
-- include/nic/typestate.hpp: the direction of a packet, a parameter of its type.
use toad_jawbreaker.Prelude.{◌≡◌, refl}

pub data TypestateDirection : Type 0 where
  direction_in direction_out : TypestateDirection

-- `reverse_direction`, and `operator~`.
abbrev pub reverse_direction : TypestateDirection → TypestateDirection
reverse_direction direction_in = direction_out
reverse_direction direction_out = direction_in

pub reverse_direction_twice : (d : TypestateDirection) → reverse_direction (reverse_direction d) ≡ d
reverse_direction_twice direction_in = refl
reverse_direction_twice direction_out = refl
