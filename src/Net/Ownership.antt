-- ===== src/Net/Ownership.antt =====
-- include/net/socket.hpp and include/net/listener.hpp: who closes a descriptor. The variables that
-- hold sockets, or listeners, stand in a list, under their places; `none` is the value that stands
-- for no descriptor, -1 in a socket and 0 in a listener. A variable that is destroyed keeps its place.
pub mod Conserved
use toad_jawbreaker.Prelude.{
  ℕ, ◌+◌, if◌then◌else◌, List, [], ◌∷◌, ◌++◌, Option, none, some, ◌==◌, get_or, set,
}

-- `closed` records the calls of `close`.
pub record Variables : Type 0 where
  pub held : List (Option ℕ)
  pub closed : List ℕ

abbrev pub close_if_held : Option ℕ → List ℕ → List ℕ
close_if_held none closed = closed
close_if_held (some fd) closed = fd ∷ closed

-- `Socket(int sockfd)`
abbrev pub construct : Option ℕ → Variables → Variables
construct fd v = record v { held = v.held ++ (fd ∷ []) }

-- `Socket(Socket &&other)`: the new one holds nothing before, so nothing is closed.
unfoldable pub move_construct : ℕ → Variables → Variables
move_construct other v = record v {
  held = set v.held other none ++ (get_or v.held other none ∷ []);
}

-- `Socket &operator=(Socket &&other)`
unfoldable pub move_assign : ℕ → ℕ → Variables → Variables
move_assign this other v = if this == other then v else record v {
  held = set (set v.held this (get_or v.held other none)) other none;
  closed = close_if_held (get_or v.held this none) v.closed;
}

-- `~Socket`
unfoldable pub destruct : ℕ → Variables → Variables
destruct this v = record v {
  held = set v.held this none;
  closed = close_if_held (get_or v.held this none) v.closed;
}

-- `Listener &operator=(Listener &&other)` closes nothing.
unfoldable pub listener_move_assign : ℕ → ℕ → Variables → Variables
listener_move_assign this other v =
    if this == other
    then v
    else record v { held = set (set v.held this (get_or v.held other none)) other none }

-- `Listener(Listener &&other)` and `~Listener` treat the descriptor as a socket does.
abbrev pub listener_move_construct : ℕ → Variables → Variables
listener_move_construct other v = move_construct other v

abbrev pub listener_destruct : ℕ → Variables → Variables
listener_destruct this v = destruct this v

pub data Operation : Type 0 where
  constructs : ℕ → Operation
  move_constructs : ℕ → Operation
  move_assigns : ℕ → ℕ → Operation
  destructs : ℕ → Operation

abbrev pub apply : Operation → Variables → Variables
apply (constructs fd) v = construct (some fd) v
apply (move_constructs other) v = move_construct other v
apply (move_assigns this other) v = move_assign this other v
apply (destructs this) v = destruct this v

abbrev pub run : List Operation → Variables → Variables
run [] v = v
run (op ∷ ops) v = run ops (apply op v)
