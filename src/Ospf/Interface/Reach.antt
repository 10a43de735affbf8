-- ===== src/Ospf/Interface/Reach.antt =====
-- The states that an interface reaches.
use chatter.Base.{ℕ, List, [], ◌∷◌, none, ◌≡◌, ◌⊎◌, inl, refl, arith}
use chatter.Ospf.Interface.{
  point_to_point_type, down, loopback, point_to_point, interface_up, wait_timer, backup_seen,
  neighbor_change, loop_ind, unloop_ind, interface_down, Interface, new_interface, elect,
  handle_event, Input, event, hello_fires, wait_fires, cancel, round, run,
}

-- A point-to-point interface in a state outside the election of a designated router, the election's
-- timer not set.
pub record NoElection (i : Interface) : Type 0 where
  pub is_point_to_point : i.interface_type ≡ point_to_point_type
  pub no_wait : i.wait_timer_left ≡ none
  pub known : (i.state ≡ down) ⊎ ((i.state ≡ loopback) ⊎ (i.state ≡ point_to_point))

round-NoElection : (x : Input) (i : Interface) → NoElection i → NoElection (round x i)
unfolding round handle_event elect
round-NoElection (event interface_up) i g = ground arith
round-NoElection (event wait_timer) i g = ground arith
round-NoElection (event backup_seen) i g = ground arith
round-NoElection (event neighbor_change) i g = ground arith
round-NoElection (event loop_ind) i g = ground arith
round-NoElection (event unloop_ind) i g = ground arith
round-NoElection (event interface_down) i g = ground arith
round-NoElection hello_fires i g = ground arith
round-NoElection wait_fires i g = ground arith
round-NoElection cancel i g = ground arith

run-NoElection : (xs : List Input) (i : Interface) → NoElection i → NoElection (run i xs).0
unfolding run
run-NoElection [] i g = g
run-NoElection (cancel ∷ xs) i g = round-NoElection cancel i g
run-NoElection (event e ∷ xs) i g =
    run-NoElection xs (round (event e) i) (round-NoElection (event e) i g)
run-NoElection (hello_fires ∷ xs) i g =
    run-NoElection xs (round hello_fires i) (round-NoElection hello_fires i g)
run-NoElection (wait_fires ∷ xs) i g =
    run-NoElection xs (round wait_fires i) (round-NoElection wait_fires i g)

-- An interface made by newInterface stays point-to-point in type, never sets its wait timer, and is down,
-- looped back or point-to-point in state, whatever events and timers come in any order.
pub run-new_interface :
    (hello dead cost : ℕ) (xs : List Input) → NoElection (run (new_interface hello dead cost) xs).0
unfolding new_interface
run-new_interface hello dead cost xs =
    run-NoElection xs _ (record { is_point_to_point = refl; no_wait = refl; known = inl refl })
