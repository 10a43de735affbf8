-- ===== src/Ospf/Instance/Agree.antt =====
-- ospf/ospf.go with ospf/interface.go: the state of an interface behind the events of an update.
use chatter.Base.{
  Bool, true, false, List, [], ◌∷◌, if◌then◌else◌, ◌≡◌, refl, inl, inr, Bool-cases, ap, ◌∙◌, ◌++◌,
  none, arith,
}
use chatter.Ospf.Interface.{
  Interface, State, down, loopback, waiting, point_to_point, dr_other, backup, dr, handle_event,
  Event, interface_up, wait_timer, backup_seen, neighbor_change, loop_ind, unloop_ind,
  interface_down,
}
use chatter.Ospf.Instance.{Netif, is_up, is_loopback, up_changes, loop_changes, handled, changes}

-- The state of the interface when it has handled all that an update sends.
abbrev pub settled : Bool → Netif → Interface → State
settled late n i = (handled (changes late n i) i).state

-- How the flags of the network interface and the state of the interface go together behind an update.
pub record Agrees (n : Netif) (before after : State) : Type 0 where
  pub when_up : n.up ≡ true → (is_up after ≡ true) × (is_loopback after ≡ n.loop)
  pub when_down : n.up ≡ false → n.loop ≡ false → is_loopback before ≡ false → after ≡ down

-- The events and the state alone.
abbrev next_state : Event → State → State
next_state interface_up s = point_to_point
next_state wait_timer s = s
next_state backup_seen s = s
next_state neighbor_change s = s
next_state loop_ind s = loopback
next_state unloop_ind s = point_to_point
next_state interface_down s = down

abbrev states : List Event → State → State
states [] s = s
states (e ∷ es) s = states es (next_state e s)

handle_event-state : (e : Event) (i : Interface) → (handle_event e i).state ≡ next_state e i.state
unfolding handle_event
handle_event-state interface_up i = refl
handle_event-state wait_timer i = refl
handle_event-state backup_seen i = refl
handle_event-state neighbor_change i = refl
handle_event-state loop_ind i = refl
handle_event-state unloop_ind i = refl
handle_event-state interface_down i = refl

handled-state : (es : List Event) (i : Interface) → (handled es i).state ≡ states es i.state
unfolding handled
handled-state [] i = refl
handled-state (e ∷ es) i =
    handled-state es (handle_event e i) ∙ ap (states es) (handle_event-state e i)

abbrev after : Bool → Netif → State → State
after late n s =
    states (up_changes n s ++ loop_changes n (if late then states (up_changes n s) s else s)) s

settled-after : (late : Bool) (n : Netif) (i : Interface) → settled late n i ≡ after late n i.state
unfolding changes
settled-after late n i =
    handled-state (changes late n i) i
    ∙ ap
        (λ (s : State).
          states (up_changes n i.state ++ loop_changes n (if late then s else i.state)) i.state)
        (handled-state (up_changes n i.state) i)

abbrev flags : Bool → Bool → Netif
flags u l = record { name = []; up = u; loop = l; addrs = none }

up_flags :
    (late l : Bool) (s : State)
    → (is_up (after late (flags true l) s) ≡ true) × (is_loopback (after late (flags true l) s) ≡ l)
up_flags true true down = (refl, refl)
up_flags true true loopback = (refl, refl)
up_flags true true waiting = (refl, refl)
up_flags true true point_to_point = (refl, refl)
up_flags true true dr_other = (refl, refl)
up_flags true true backup = (refl, refl)
up_flags true true dr = (refl, refl)
up_flags true false down = (refl, refl)
up_flags true false loopback = (refl, refl)
up_flags true false waiting = (refl, refl)
up_flags true false point_to_point = (refl, refl)
up_flags true false dr_other = (refl, refl)
up_flags true false backup = (refl, refl)
up_flags true false dr = (refl, refl)
up_flags false true down = (refl, refl)
up_flags false true loopback = (refl, refl)
up_flags false true waiting = (refl, refl)
up_flags false true point_to_point = (refl, refl)
up_flags false true dr_other = (refl, refl)
up_flags false true backup = (refl, refl)
up_flags false true dr = (refl, refl)
up_flags false false down = (refl, refl)
up_flags false false loopback = (refl, refl)
up_flags false false waiting = (refl, refl)
up_flags false false point_to_point = (refl, refl)
up_flags false false dr_other = (refl, refl)
up_flags false false backup = (refl, refl)
up_flags false false dr = (refl, refl)

down_flags :
    (late : Bool) (s : State) → is_loopback s ≡ false → after late (flags false false) s ≡ down
down_flags true down f = refl
down_flags true loopback f = absurd (grind (arith, f))
down_flags true waiting f = refl
down_flags true point_to_point f = refl
down_flags true dr_other f = refl
down_flags true backup f = refl
down_flags true dr f = refl
down_flags false down f = refl
down_flags false loopback f = absurd (grind (arith, f))
down_flags false waiting f = refl
down_flags false point_to_point f = refl
down_flags false dr_other f = refl
down_flags false backup f = refl
down_flags false dr f = refl

up_case :
    (late : Bool) (n : Netif) (s : State)
    → n.up ≡ true
    → (is_up (after late n s) ≡ true) × (is_loopback (after late n s) ≡ n.loop)
up_case late n s u = elim (Bool-cases n.loop) [
  | inl l ↦ rw (u, l) (up_flags late true s)
  | inr l ↦ rw (u, l) (up_flags late false s)
]

down_case :
    (late : Bool) (n : Netif) (s : State)
    → n.up ≡ false
    → n.loop ≡ false
    → is_loopback s ≡ false
    → after late n s ≡ down
down_case late n s u l b = rw (u, l) (down_flags late s b)

after-Agrees : (late : Bool) (n : Netif) (s : State) → Agrees n s (after late n s)
after-Agrees late n s = record {
  when_up = λ u. up_case late n s u;
  when_down = λ u l b. down_case late n s u l b;
}

-- Behind an update whose events are handled, an interface whose network interface is up is up, and in
-- the loopback state exactly if the network interface is a loopback; and where the network interface is
-- down and no loopback, an interface that was in no loopback state is down. So it is however the
-- goroutine of the interface comes along.
pub changes-Agrees : (late : Bool) (n : Netif) (i : Interface) → Agrees n i.state (settled late n i)
changes-Agrees late n i = rw (settled-after late n i) (after-Agrees late n i.state)
